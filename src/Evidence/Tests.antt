-- ===== src/Evidence/Tests.antt =====
-- The evidence ledger at small inputs.
use atlas_cli.Prelude.{
  String, Bool, true, false, none, some, List, [], ◌∷◌, ◌≡◌, ◌↔◌, refl, All, is_present,
}
use atlas_cli.Prelude.Action.{ok}
use atlas_cli.ExecGraph.Contracts.{Runtime}
use atlas_cli.Evidence.Ledger.{
  file_exists, positive, TypedClaim, EvidenceLedgerEntry, EvidencePlatform, entry, missing,
  snapshot, counted, EvidenceDir, read_ledger_entries, verify_ledger_chain, verify_from, chained,
  claim_id_schema, typed_claim_schema, append_claim, append_read, append_new, write_entry,
  next_entry, count_mismatch,
}
use atlas_cli.Evidence.Appends.{Holds}
use atlas_cli.Evidence.Chain.{IsChain}
use atlas_cli.Evidence.Growth.{append_all, append_all-Holds}
use atlas_cli.Evidence.Settled.{append_claim-settles}
use atlas_cli.Evidence.Tamper.{AreApart, same_last_hash}
use atlas_cli.Evidence.Auditor.{counts, is_stale, audit_findings, summary_of, run_evidence_audit}
use atlas_cli.Evidence.Clean.{Agrees, run_evidence_audit-clean_iff}

instance abbrev dates_Eq : Runtime
dates_Eq = record { is_datetime = is_present; uuid = λ n. "0000" }

instance abbrev hashes_Eq : EvidencePlatform
hashes_Eq = record { hash_payload = λ prev c. elim prev [ none ↦ c.claim_id | some h ↦ "next" ] }

abbrev claim_of : String → TypedClaim
claim_of id = record {
  claim_id = id;
  claim = "the file is there";
  type = file_exists;
  path = "src/a.ts";
  confidence = positive "0.9";
  source = "test";
  source_ref = none;
  command = none;
  expected_substring = none;
  audit_verdict = none;
  ts = "2026-07-01T00:00:00Z";
}

abbrev fresh : EvidenceDir
fresh = record { ledger = []; snapshot = missing; readonly = false }

abbrev first : EvidenceLedgerEntry
first = record { prev_hash = none; entry_hash = "clm_first"; claim = claim_of "clm_first" }

abbrev second : EvidenceLedgerEntry
second = record { prev_hash = some "clm_first"; entry_hash = "next"; claim = claim_of "clm_second" }

abbrev one : EvidenceDir
one = record {
  ledger = entry first ∷ [];
  snapshot = snapshot (record {
    claims = claim_of "clm_first" ∷ [];
    last_entry_hash = "clm_first";
    count = counted 1;
  });
  readonly = false;
}

abbrev calls : List (Bool × Bool × TypedClaim)
calls =
    (true, true, claim_of "clm_second")
    ∷ (true, false, claim_of "clm_third")
    ∷ (false, true, claim_of "clm_x")
    ∷ []

first_append : append_claim true true (claim_of "clm_first") fresh ≡ (ok first, one)
unfolding append_claim typed_claim_schema claim_id_schema is_present append_read read_ledger_entries
    append_new verify_ledger_chain verify_from write_entry next_entry
first_append = refl

fresh-Holds : Holds [] fresh
unfolding read_ledger_entries
fresh-Holds = (refl, tt, tt)

one-Holds : Holds (first ∷ []) one
unfolding read_ledger_entries
one-Holds = (refl, (refl, refl, tt), (tt, tt))

append_all-Holds_example :
    (more : List EvidenceLedgerEntry) × Holds (first ∷ more) (append_all calls one)
append_all-Holds_example = append_all-Holds calls (first ∷ []) one one-Holds

append_claim-settles_example :
    append_claim true true (claim_of "clm_first") (append_all calls one)
    ≡ (ok first, append_all calls one)
append_claim-settles_example =
    append_claim-settles true true true true (claim_of "clm_first") fresh one [] first calls
      fresh-Holds first_append

abbrev two_entries : List EvidenceLedgerEntry
two_entries = first ∷ second ∷ []

apart_two : AreApart two_entries two_entries
apart_two = ((λ h. (refl, refl), (λ h. cc, tt)), ((λ h. cc, (λ h. (refl, refl), tt)), tt))

chained_two : verify_ledger_chain two_entries ≡ chained
unfolding verify_ledger_chain verify_from
chained_two = refl

same_last_hash_example : two_entries ≡ two_entries
same_last_hash_example =
    same_last_hash two_entries two_entries chained_two chained_two apart_two refl

reads_one : read_ledger_entries one ≡ some (first ∷ [])
unfolding read_ledger_entries
reads_one = refl

run_evidence_audit-clean_iff_example :
    (run_evidence_audit is_present true "aud_1" one ≡ ok (summary_of "aud_1" [])) ↔ (
      IsChain none (first ∷ [])
      × Agrees one.snapshot 1
      × All (λ e. is_stale is_present e.claim ≡ false) (first ∷ []))
run_evidence_audit-clean_iff_example =
    run_evidence_audit-clean_iff is_present "aud_1" one (first ∷ []) reads_one

abbrev behind : EvidenceDir
behind = (append_claim true false (claim_of "clm_second") one).1

-- A snapshot whose write failed is not mended by the next append of the same claim.
stays_behind :
    run_evidence_audit is_present true "aud_2"
      (append_claim true true (claim_of "clm_second") behind).1
    ≡ ok (
        summary_of "aud_2" (
          record {
            claim_id = "clm_snapshot";
            verdict = count_mismatch;
            detail = counts (counted 1) 2;
          }
          ∷ []))
unfolding append_claim typed_claim_schema claim_id_schema is_present append_read read_ledger_entries
    append_new verify_ledger_chain verify_from write_entry next_entry is_stale audit_findings
    run_evidence_audit
stays_behind = refl
