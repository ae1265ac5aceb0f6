-- ===== src/Evidence/Ledger.antt =====
-- src/evidence/claim.ts and src/evidence/ledger.ts: the schema of claims, the chain of entries, and
-- the append of a claim.
use atlas_cli.Prelude.{
  ℕ, ◌+◌, String, Bool, true, false, not, ◌&&◌, Option, none, some, is_some, List, [], ◌∷◌, ◌++◌,
  map, length, find, last, if◌then◌else◌, ◌==◌, string_eq, is_present,
}
use atlas_cli.Prelude.Action.{Action, ok, thrown}
use atlas_cli.ExecGraph.Contracts.{is_id, Runtime}

pub data ClaimType : Type 0 where
  file_exists commit_exists file_contains command_output_match browser_action narrative : ClaimType
  audit_finding : ClaimType

pub data AuditVerdict : Type 0 where
  confirmed stale tampered count_mismatch : AuditVerdict

-- A number as a confidence: zero, another one up to 1, or one out of the range, with its text.
pub data Confidence : Type 0 where
  zero : Confidence
  positive out_of_range : String → Confidence

pub record TypedClaim : Type 0 where
  pub claim_id : String
  pub claim : String
  pub type : ClaimType
  pub path : String
  pub confidence : Confidence
  pub source : String
  pub source_ref : Option String
  pub command : Option String
  pub expected_substring : Option String
  pub audit_verdict : Option AuditVerdict
  pub ts : String

unfoldable pub claim_id_schema : String → Bool
unfolding is_id
claim_id_schema = is_id "clm_"

abbrev in_range : Confidence → Bool
in_range zero = true
in_range (positive x) = true
in_range (out_of_range x) = false

abbrev is_zero : Confidence → Bool
is_zero zero = true
is_zero _ = false

abbrev optional_text : Option String → Bool
optional_text none = true
optional_text (some s) = is_present s

-- What the type of a claim asks of its other fields.
abbrev pub fits_type : TypedClaim → Bool
fits_type c = elim c.type [
  | narrative ↦ is_zero c.confidence
  | file_contains ↦ is_some c.expected_substring
  | command_output_match ↦ is_some c.command && is_some c.expected_substring
  | audit_finding ↦ is_some c.audit_verdict && is_some c.source_ref
  | _ ↦ true
]

pub record EvidenceLedgerEntry : Type 0 where
  pub prev_hash : Option String
  pub entry_hash : String
  pub claim : TypedClaim

-- SHA-256 of the canonical JSON of a previous hash and a claim.
pub record EvidencePlatform : Type 0 where
  pub hash_payload : Option String → TypedClaim → String

-- A line of ledger.jsonl that is not blank: an entry, or no JSON. JSON that is no entry is left
-- out.
pub data LedgerLine : Type 0 where
  entry : EvidenceLedgerEntry → LedgerLine
  not_json : LedgerLine

-- `count`: a number of entries, another number (negative or no integer), or no number.
pub data SnapshotCount : Type 0 where
  counted : ℕ → SnapshotCount
  other_number : String → SnapshotCount
  no_number : SnapshotCount

pub record Snapshot : Type 0 where
  pub claims : List TypedClaim
  pub last_entry_hash : String
  pub count : SnapshotCount

-- snapshot.json: missing, not JSON, or JSON.
pub data SnapshotFile : Type 0 where
  missing unreadable : SnapshotFile
  snapshot : Snapshot → SnapshotFile

pub record EvidenceDir : Type 0 where
  pub ledger : List LedgerLine
  pub snapshot : SnapshotFile
  pub readonly : Bool

pub data EvidenceFailure : Type 0 where
  read_only schema unreadable_ledger chain_broken not_written : EvidenceFailure

abbrev pub EvidenceAct : Type 0 → Type 0
EvidenceAct A = Action EvidenceDir EvidenceFailure A

-- `readLedgerEntries`: none where a line makes it throw
abbrev pub read_lines : List LedgerLine → Option (List EvidenceLedgerEntry)
read_lines [] = some []
read_lines (not_json ∷ lines) = none
read_lines (entry e ∷ lines) = elim (read_lines lines) [ none ↦ none | some es ↦ some (e ∷ es) ]

unfoldable pub read_ledger_entries : EvidenceDir → Option (List EvidenceLedgerEntry)
read_ledger_entries d = read_lines d.ledger

pub data ChainCheck : Type 0 where
  chained : ChainCheck
  broken_prev broken_entry : ℕ → ChainCheck

abbrev pub same_hash : Option String → Option String → Bool
same_hash none none = true
same_hash (some a) (some b) = a == b
same_hash _ _ = false

abbrev pub last_hash : List EvidenceLedgerEntry → Option String
last_hash es = elim (last es) [ none ↦ none | some e ↦ some e.entry_hash ]

abbrev pub has_claim : String → List EvidenceLedgerEntry → Option EvidenceLedgerEntry
has_claim id es = find (λ e. e.claim.claim_id == id) es

abbrev pub is_chained : ChainCheck → Bool
is_chained chained = true
is_chained _ = false

module _ ⦃rt : Runtime⦄ where
  unfoldable pub typed_claim_schema : TypedClaim → Bool
  typed_claim_schema c =
      claim_id_schema c.claim_id
      && is_present c.claim
      && is_present c.path
      && in_range c.confidence
      && is_present c.source
      && optional_text c.source_ref
      && optional_text c.command
      && optional_text c.expected_substring
      && rt.is_datetime c.ts
      && fits_type c

module _ ⦃ep : EvidencePlatform⦄ where
  -- `verifyLedgerChain` from entry number `i` on, behind an entry with the hash `prev`
  unfoldable pub verify_from : Option String → ℕ → List EvidenceLedgerEntry → ChainCheck
  verify_from prev i [] = chained
  verify_from prev i (e ∷ es) =
      let rest = verify_from (some e.entry_hash) (i + 1) es in
      if not (same_hash e.prev_hash prev)
      then broken_prev i
      else if not (e.entry_hash == ep.hash_payload e.prev_hash e.claim)
      then broken_entry i
      else rest

  unfoldable pub verify_ledger_chain : List EvidenceLedgerEntry → ChainCheck
  verify_ledger_chain es = verify_from none 0 es

  unfoldable pub next_entry : List EvidenceLedgerEntry → TypedClaim → EvidenceLedgerEntry
  next_entry es c = record {
    prev_hash = last_hash es;
    entry_hash = ep.hash_payload (last_hash es) c;
    claim = c;
  }

  -- The append to the ledger, and the replacement of the snapshot; a write that fails throws and
  -- leaves its file as it was.
  unfoldable pub write_entry :
      Bool → Bool → List EvidenceLedgerEntry → EvidenceLedgerEntry → EvidenceAct EvidenceLedgerEntry
  write_entry appends replaces es e d =
      if not appends
      then (thrown not_written, d)
      else if not replaces
      then (thrown not_written, record d { ledger = d.ledger ++ entry e ∷ [] })
      else (
        ok e,
        record d {
          ledger = d.ledger ++ entry e ∷ [];
          snapshot = snapshot (record {
            claims = map (λ x. x.claim) es ++ e.claim ∷ [];
            last_entry_hash = e.entry_hash;
            count = counted (length es + 1);
          });
        },
      )

  -- `appendClaim` of a claim that is new.
  unfoldable pub append_new :
      Bool → Bool → List EvidenceLedgerEntry → TypedClaim → EvidenceAct EvidenceLedgerEntry
  append_new appends replaces es c d =
      if not (is_chained (verify_ledger_chain es))
      then (thrown chain_broken, d)
      else write_entry appends replaces es (next_entry es c) d

  unfoldable pub append_read :
      Bool → Bool → TypedClaim → Option (List EvidenceLedgerEntry) → EvidenceAct EvidenceLedgerEntry
  append_read appends replaces c none d = (thrown unreadable_ledger, d)
  append_read appends replaces c (some es) d = elim (has_claim c.claim_id es) [
    | some e ↦ (ok e, d)
    | none ↦ append_new appends replaces es c d
  ]

module _ ⦃rt : Runtime⦄ ⦃ep : EvidencePlatform⦄ where
  -- `appendClaim`; the two flags say whether the disk takes the two writes.
  unfoldable pub append_claim : Bool → Bool → TypedClaim → EvidenceAct EvidenceLedgerEntry
  append_claim appends replaces c d =
      if d.readonly
      then (thrown read_only, d)
      else if not (typed_claim_schema c)
      then (thrown schema, d)
      else append_read appends replaces c (read_ledger_entries d) d
