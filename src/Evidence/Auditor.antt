-- ===== src/Evidence/Auditor.antt =====
-- src/evidence/auditor.ts: the audit of a ledger against its snapshot and the files its claims
-- name.
use atlas_cli.Prelude.{
  ℕ, zero, suc, String, Bool, true, false, not, none, some, List, [], ◌∷◌, ◌++◌, filter, nat_eq,
  length, if◌then◌else◌,
}
use atlas_cli.Prelude.Regex.{test, caseless}
use atlas_cli.Prelude.Action.{Result, ok, thrown}
use atlas_cli.Evidence.Ledger.{
  ClaimType, file_exists, file_contains, AuditVerdict, confirmed, stale, tampered, count_mismatch,
  TypedClaim, EvidenceLedgerEntry, EvidencePlatform, EvidenceDir, SnapshotFile, SnapshotCount,
  counted, other_number, no_number, missing, unreadable, snapshot, EvidenceFailure,
  unreadable_ledger, not_written, ChainCheck, chained, broken_prev, broken_entry, is_chained,
  read_ledger_entries, verify_ledger_chain,
}

-- `detail`, by what its text is made of
pub data Detail : Type 0 where
  chain_broken_at : ChainCheck → Detail
  counts : SnapshotCount → ℕ → Detail
  snapshot_unreadable : Detail
  no_longer_matches : String → Detail
  ground_check_passed : Detail

pub record AuditFinding : Type 0 where
  pub claim_id : String
  pub verdict : AuditVerdict
  pub detail : Detail

-- The summary, without its paths.
pub record AuditSummary : Type 0 where
  pub audit_run_id : String
  pub findings_count : ℕ
  pub findings : List AuditFinding

abbrev pub names_file : ClaimType → Bool
names_file file_exists = true
names_file file_contains = true
names_file _ = false

-- `isStale`, where `exists` is what the disk says of a path
unfoldable pub is_stale : (String → Bool) → TypedClaim → Bool
unfolding test
is_stale exists c =
    if names_file c.type then not (exists c.path) else test (caseless "STALE_MARKER") c.claim

abbrev pub claim_id_at : ℕ → List EvidenceLedgerEntry → String
claim_id_at i [] = "clm_unknown"
claim_id_at zero (e ∷ es) = e.claim.claim_id
claim_id_at (suc i) (e ∷ es) = claim_id_at i es

abbrev pub chain_findings : ChainCheck → List EvidenceLedgerEntry → List AuditFinding
chain_findings chained es = []
chain_findings (broken_prev i) es =
    record {
      claim_id = claim_id_at i es;
      verdict = tampered;
      detail = chain_broken_at (broken_prev i);
    }
    ∷ []
chain_findings (broken_entry i) es =
    record {
      claim_id = claim_id_at i es;
      verdict = tampered;
      detail = chain_broken_at (broken_entry i);
    }
    ∷ []

abbrev pub mismatch : SnapshotCount → ℕ → AuditFinding
mismatch c m = record { claim_id = "clm_snapshot"; verdict = count_mismatch; detail = counts c m }

abbrev pub count_findings : SnapshotCount → ℕ → List AuditFinding
count_findings no_number m = []
count_findings (other_number x) m = mismatch (other_number x) m ∷ []
count_findings (counted n) m = if nat_eq n m then [] else mismatch (counted n) m ∷ []

-- `snapshot.json` beside a ledger of `n` entries
abbrev pub snapshot_findings : SnapshotFile → ℕ → List AuditFinding
snapshot_findings missing n = []
snapshot_findings unreadable n =
    record { claim_id = "clm_snapshot"; verdict = tampered; detail = snapshot_unreadable } ∷ []
snapshot_findings (snapshot s) n = count_findings s.count n

abbrev pub entry_findings : (String → Bool) → Bool → List EvidenceLedgerEntry → List AuditFinding
entry_findings exists whole [] = []
entry_findings exists whole (e ∷ es) =
    let rest = entry_findings exists whole es in
    if is_stale exists e.claim
    then record {
      claim_id = e.claim.claim_id;
      verdict = stale;
      detail = no_longer_matches e.claim.path;
    }
      ∷ rest
    else if whole
    then record { claim_id = e.claim.claim_id; verdict = confirmed; detail = ground_check_passed }
      ∷ rest
    else rest

abbrev pub is_interesting : AuditFinding → Bool
is_interesting f = elim f.verdict [ confirmed ↦ false | _ ↦ true ]

abbrev pub summary_of : String → List AuditFinding → AuditSummary
summary_of id fs = record { audit_run_id = id; findings_count = length fs; findings = fs }

module _ ⦃ep : EvidencePlatform⦄ where
  unfoldable pub audit_findings :
      (String → Bool) → SnapshotFile → List EvidenceLedgerEntry → List AuditFinding
  audit_findings exists s es =
      let chain = verify_ledger_chain es in
      chain_findings chain es
      ++ snapshot_findings s (length es)
      ++ entry_findings exists (is_chained chain) es

  -- `runEvidenceAudit`; the flag says whether the disk takes the files of the audit.
  unfoldable pub run_evidence_audit :
      (String → Bool) → Bool → String → EvidenceDir → Result EvidenceFailure AuditSummary
  run_evidence_audit exists writes id d = elim (read_ledger_entries d) [
    | none ↦ thrown unreadable_ledger
    | some es ↦
        if writes
        then ok (summary_of id (filter is_interesting (audit_findings exists d.snapshot es)))
        else thrown not_written
  ]
