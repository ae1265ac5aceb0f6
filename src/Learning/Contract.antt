-- ===== src/Learning/Contract.antt =====
-- src/learning/claim-contract.ts, with the requests that it names and the file names of
-- src/learning/claim-store.ts: the claim of an operation, its lease, and its file.
-- A time is its milliseconds since the epoch, which is what the code compares; a payload and the
-- evidence are their JSON texts.
use Prim.Native.Char.{code}
use Prim.Native.String.{◌++◌ as ◌⊕◌}
use atlas_cli.Prelude.{
  ℕ, ◌+◌, String, Bool, true, false, ◌&&◌, ◌||◌, Option, if◌then◌else◌, ℕ_eq, string_eq, leb,
  includes, Eq, [], ◌∷◌, ◌≡◌, ◌↔◌, arith,
}
use atlas_cli.Prelude.Dict.{Dict}

pub data ClaimState : Type 0 where
  processing completed failed : ClaimState

abbrev pub state_eq : ClaimState → ClaimState → Bool
state_eq processing processing = true
state_eq completed completed = true
state_eq failed failed = true
state_eq _ _ = false

pub state_eq_iff : (a b : ClaimState) → (state_eq a b ≡ true) ↔ (a ≡ b)
state_eq_iff a b = ground arith

instance abbrev pub state_Eq : Eq ClaimState
state_Eq = record { same = state_eq; same_iff = state_eq_iff }

pub data LearningRequestKind : Type 0 where
  decide outcome : LearningRequestKind

-- The fields of a request that the store reads.
pub record LearningRequest : Type 0 where
  pub request_id : String
  pub idempotency_key : String
  pub kind : LearningRequestKind
  pub payload : String

pub data LearningReceiptStatus : Type 0 where
  receipt_completed receipt_failed duplicate receipt_readonly receipt_rejected :
      LearningReceiptStatus

-- The fields of a receipt that the store hands on or sets.
pub record LearningReceipt : Type 0 where
  pub request_id : String
  pub idempotency_key : String
  pub status : LearningReceiptStatus
  pub updated_at : ℕ
  pub decision_id : Option String
  pub error : Option String

pub record LearningProofBundle : Type 0 where
  pub request_hash : String
  pub request_id : String
  pub receipt : LearningReceipt
  pub evidence_payload : String
  pub artifact_hashes : Dict String
  pub claimed_at : ℕ
  pub completed_at : ℕ

-- A receipt with `proof` set.
pub record ProvenReceipt : Type 0 where
  pub receipt : LearningReceipt
  pub proof : LearningProofBundle

pub record RetryMetadata : Type 0 where
  pub last_request_id : String
  pub failed_at : ℕ
  pub prior_attempt : ℕ

pub record LearningOperationClaim : Type 0 where
  pub idempotency_key : String
  pub kind : LearningRequestKind
  pub state : ClaimState
  pub owner : String
  pub request_hash : String
  pub lease_until : ℕ
  pub generation : ℕ
  pub attempt : ℕ
  pub created_at : ℕ
  pub updated_at : ℕ
  pub proof : Option LearningProofBundle
  pub failure_reason : Option String
  pub retry_metadata : Option RetryMetadata

pub data ClaimBeginOutcome : Type 0 where
  proceed : LearningOperationClaim → ℕ → ClaimBeginOutcome
  done : LearningProofBundle → ProvenReceipt → ClaimBeginOutcome
  conflict : ClaimBeginOutcome
  in_flight : LearningOperationClaim → ClaimBeginOutcome
  begin_stale_owner : ClaimBeginOutcome

pub data ClaimCompleteOutcome : Type 0 where
  ok stale_owner cas_lost : ClaimCompleteOutcome

-- SHA-256 of a text, the JSON text of `{ kind, payload }`, and `ATLAS_LEARNING_CLAIM_LEASE_MS`.
pub record Platform : Type 0 where
  pub sha256 : String → String
  pub canonical : LearningRequestKind → String → String
  pub lease_ms : ℕ

-- The claims directory: the file of a claim by its name.
abbrev pub Files : Type 0
Files = Dict LearningOperationClaim

abbrev is_file_char : ℕ → Bool
is_file_char c =
    (leb 97 c && leb c 122)
    || (leb 65 c && leb c 90)
    || (leb 48 c && leb c 57)
    || includes (46 ∷ 95 ∷ 45 ∷ []) c

-- `sanitizeFileKey`; a code point beyond the first plane is two code units, so two underscores
unfoldable pub sanitize_file_key : String → String
sanitize_file_key String.[] = ""
sanitize_file_key (String.◌∷◌ c s) =
    let rest = sanitize_file_key s in
    if is_file_char (code c)
    then String.◌∷◌ c rest
    else if leb 0x10000 (code c)
    then "__" ⊕ rest
    else "_" ⊕ rest

abbrev pub lease_expired : LearningOperationClaim → ℕ → Bool
lease_expired claim now = leb claim.lease_until now

unfoldable pub receipt_from_proof : LearningProofBundle → ProvenReceipt
receipt_from_proof proof = record {
  receipt = record proof.receipt { status = receipt_completed };
  proof = proof;
}

abbrev pub extend_lease : ℕ → ℕ → ℕ
extend_lease from lease_ms = from + lease_ms

abbrev pub next_file_generation : ℕ → ℕ
next_file_generation current = current + 1
