-- ===== src/Learning/Claims.antt =====
-- The file store of src/learning/claim-store.ts: what an operation decides on the claim that it
-- reads, and the two ways to write.
use Prim.Native.Char.{code}
use atlas_cli.Prelude.{
  ℕ, zero, suc, ◌+◌, ◌-◌, String, not, Option, none, some, if◌then◌else◌, ◌==◌, ℕ_eq, string_eq,
  leb, [], ◌∷◌,
}
use atlas_cli.Prelude.Dict.{get, put}
use atlas_cli.Learning.Contract.{
  state_Eq, ClaimBeginOutcome, ClaimCompleteOutcome, Files, LearningOperationClaim,
  LearningProofBundle, LearningRequest, Platform, cas_lost, completed, conflict, done, extend_lease,
  failed, in_flight, lease_expired, next_file_generation, ok, proceed, processing,
  receipt_from_proof, sanitize_file_key, stale_owner,
}
pub mod Plans
pub mod Interleaving
pub mod Lifecycle

-- What an operation is going to write: a new file, or a new text for the generation it has read.
pub data Intent : Type 0 where
  create : LearningOperationClaim → Intent
  cas : ℕ → LearningOperationClaim → Intent

-- What an operation does with the claim that it has read.
pub data Plan (A : Type 0) : Type 0 where
  answer : A → Plan A
  commit : Intent → Plan A

module _ ⦃pf : Platform⦄ where
  unfoldable pub hash_learning_request : LearningRequest → String
  hash_learning_request req = pf.sha256 (pf.canonical req.kind req.payload)

  unfoldable pub build_processing_claim :
      LearningRequest → String → String → ℕ → ℕ → ℕ → LearningOperationClaim
  build_processing_claim req owner request_hash now attempt generation = record {
    idempotency_key = req.idempotency_key;
    kind = req.kind;
    state = processing;
    owner = owner;
    request_hash = request_hash;
    lease_until = extend_lease now pf.lease_ms;
    generation = generation;
    attempt = attempt;
    created_at = now;
    updated_at = now;
    proof = none;
    failure_reason = none;
    retry_metadata = none;
  }

  -- The branches of `beginOperation` on a claim that is there, by its state.
  unfoldable pub begin_processing :
      LearningRequest → String → ℕ → LearningOperationClaim → Plan ClaimBeginOutcome
  unfolding build_processing_claim
  begin_processing req owner now existing =
      if existing.owner == owner
      then commit (
          cas existing.generation
            (record existing { lease_until = extend_lease now pf.lease_ms; updated_at = now }))
      else if not (lease_expired existing now)
      then answer (in_flight existing)
      else commit (
          cas existing.generation (
            build_processing_claim req owner (hash_learning_request req) now (existing.attempt + 1)
              existing.generation))

  unfoldable pub begin_failed :
      LearningRequest → String → ℕ → LearningOperationClaim → Plan ClaimBeginOutcome
  unfolding build_processing_claim
  begin_failed req owner now existing =
      let retry =
        build_processing_claim req owner (hash_learning_request req) now (existing.attempt + 1)
          existing.generation in
      let last : String = elim existing.retry_metadata [
        | none ↦ req.request_id
        | some m ↦ m.last_request_id
      ] in
      commit (
        cas existing.generation (record retry {
          retry_metadata = some (record {
            last_request_id = last;
            failed_at = existing.updated_at;
            prior_attempt = existing.attempt;
          });
        }))

  -- One round of `beginOperation`, from what it has read to what it writes or answers.
  unfoldable pub begin_plan :
      LearningRequest → String → ℕ → Option LearningOperationClaim → Plan ClaimBeginOutcome
  unfolding begin_processing begin_failed build_processing_claim receipt_from_proof
  begin_plan req owner now none =
      commit (create (build_processing_claim req owner (hash_learning_request req) now 1 1))
  begin_plan req owner now (some existing) =
      if not (existing.request_hash == hash_learning_request req)
      then answer conflict
      else elim existing.state [
        | processing ↦ begin_processing req owner now existing
        | completed ↦ elim existing.proof [
          | none ↦ answer (in_flight existing)
          | some proof ↦ answer (done proof (receipt_from_proof proof))
        ]
        | failed ↦ begin_failed req owner now existing
      ]

-- The three checks that `completeOperation` and `failOperation` begin with.
unfoldable pub guarded_plan :
    String
    → ℕ
    → (LearningOperationClaim → LearningOperationClaim)
    → Option LearningOperationClaim
    → Plan ClaimCompleteOutcome
guarded_plan owner generation next none = answer cas_lost
guarded_plan owner generation next (some existing) =
    if not (existing.owner == owner)
    then answer stale_owner
    else if not (existing.generation == generation)
    then answer cas_lost
    else if not (existing.state == processing)
    then answer cas_lost
    else commit (cas generation (next existing))

-- `text.slice(0, units)`: a code point beyond the first plane is two code units, and is left out
-- where only one of them fits.
unfoldable pub slice : ℕ → String → String
slice units String.[] = ""
slice units (String.◌∷◌ c s) =
    let width = if leb 0x10000 (code c) then 2 else 1 in
    let rest = slice (units - width) s in if leb width units then String.◌∷◌ c rest else ""

-- The claims that `completeOperation` and `failOperation` write.
abbrev pub completed_claim :
    LearningProofBundle → ℕ → LearningOperationClaim → LearningOperationClaim
completed_claim proof now existing = record existing {
  state = completed;
  proof = some proof;
  updated_at = now;
}

abbrev pub failed_claim : String → String → ℕ → LearningOperationClaim → LearningOperationClaim
failed_claim reason request_id now existing = record existing {
  state = failed;
  failure_reason = some (slice 500 reason);
  updated_at = now;
  retry_metadata =
      some (record {
        last_request_id = request_id;
        failed_at = now;
        prior_attempt = existing.attempt;
      });
}

-- `FileLearningClaimStore.readClaim`
unfoldable pub read_claim : String → Files → Option LearningOperationClaim
read_claim key files = get files (sanitize_file_key key)

-- `FileLearningClaimStore.createClaim`, `none` where the file exists
unfoldable pub create_claim : LearningOperationClaim → Files → Option LearningOperationClaim × Files
create_claim claim files =
    let path = sanitize_file_key claim.idempotency_key in
    elim (get files path) [ some there ↦ (none, files) | none ↦ (some claim, put files path claim) ]

-- `FileLearningClaimStore.casClaim`, of which nothing else writes between its write and its read
-- back
unfoldable pub cas_claim :
    String → ℕ → LearningOperationClaim → Files → Option LearningOperationClaim × Files
cas_claim key expected next files =
    let path = sanitize_file_key key in
    let updated = record next { generation = next_file_generation expected } in
    elim (get files path) [
      | none ↦ (none, files)
      | some current ↦
          if not (current.generation == expected)
          then (none, files)
          else (some updated, put files path updated)
    ]

unfoldable pub commit_intent : String → Intent → Files → Option LearningOperationClaim × Files
unfolding create_claim cas_claim
commit_intent key (create claim) files = create_claim claim files
commit_intent key (cas expected next) files = cas_claim key expected next files

module _ ⦃pf : Platform⦄ where
  -- `beginOperation`, `none` where the rounds are used up. The file store of one process: no other
  -- process writes between its read and its write.
  unfoldable pub begin_operation :
      ℕ → LearningRequest → String → ℕ → Files → Option ClaimBeginOutcome × Files
  unfolding begin_plan read_claim commit_intent
  begin_operation zero req owner now files = (none, files)
  begin_operation (suc rounds) req owner now files =
      elim (begin_plan req owner now (read_claim req.idempotency_key files)) [
        | answer a ↦ (some a, files)
        | commit i ↦
            let (written, files') = commit_intent req.idempotency_key i files in
            elim written [
              | none ↦ begin_operation rounds req owner now files'
              | some claim ↦ (some (proceed claim claim.generation), files')
            ]
      ]

unfoldable pub guarded_operation :
    String
    → String
    → ℕ
    → (LearningOperationClaim → LearningOperationClaim)
    → Files
    → ClaimCompleteOutcome × Files
unfolding guarded_plan read_claim commit_intent
guarded_operation key owner generation next files =
    elim (guarded_plan owner generation next (read_claim key files)) [
      | answer a ↦ (a, files)
      | commit i ↦
          let (written, files') = commit_intent key i files in
          elim written [ none ↦ (cas_lost, files') | some claim ↦ (ok, files') ]
    ]

unfoldable pub complete_operation :
    String → String → ℕ → LearningProofBundle → ℕ → Files → ClaimCompleteOutcome × Files
unfolding guarded_operation
complete_operation key owner generation proof now =
    guarded_operation key owner generation (completed_claim proof now)

unfoldable pub fail_operation :
    String → String → ℕ → String → String → ℕ → Files → ClaimCompleteOutcome × Files
unfolding guarded_operation
fail_operation key owner generation reason request_id now =
    guarded_operation key owner generation (failed_claim reason request_id now)

unfoldable pub read_proof : String → Files → Option LearningProofBundle
unfolding read_claim
read_proof key files = elim (read_claim key files) [
  | none ↦ none
  | some claim ↦ if claim.state == completed then claim.proof else none
]
