-- ===== src/Evidence/Clean.antt =====
-- When an audit finds nothing.
use atlas_cli.Prelude.{
  ℕ, String, Bool, true, false, Bool-cases, none, some, List, [], ◌∷◌, ◌++◌, filter, nat_eq,
  nat_eq_iff, length, ◌≡◌, ◌↔◌, inl, inr, refl, sym, ap, ◌∙◌, All, arith,
}
use atlas_cli.Prelude.Action.{Result, ok, thrown}
use atlas_cli.Evidence.Ledger.{
  EvidenceLedgerEntry, EvidencePlatform, EvidenceDir, EvidenceFailure, SnapshotFile, SnapshotCount,
  counted, other_number, no_number, missing, unreadable, snapshot, ChainCheck, chained, broken_prev,
  broken_entry, is_chained, read_ledger_entries, verify_ledger_chain,
}
use atlas_cli.Evidence.Chain.{IsChain, verify_ledger_chain_iff}
use atlas_cli.Evidence.Auditor.{
  AuditFinding, AuditSummary, chain_findings, count_findings, snapshot_findings, entry_findings,
  is_interesting, is_stale, audit_findings, summary_of, run_evidence_audit,
}

filter-++ :
    {A : Type 0} (p : A → Bool) (xs ys : List A)
    → (filter p (xs ++ ys) ≡ []) ↔ ((filter p xs ≡ []) × (filter p ys ≡ []))
filter-++ p [] ys = (λ h. (refl, h), λ h. h.1)
filter-++ p (x ∷ xs) ys = ground (arith, filter-++ p xs ys)

-- A count that is a number is `n`.
abbrev CountAgrees : SnapshotCount → ℕ → Type 0
CountAgrees no_number n = Unit
CountAgrees (other_number x) n = ⊥
CountAgrees (counted m) n = m ≡ n

-- The snapshot is missing, or what it counts, if it counts, is `n`.
abbrev pub Agrees : SnapshotFile → ℕ → Type 0
Agrees missing n = Unit
Agrees unreadable n = ⊥
Agrees (snapshot s) n = CountAgrees s.count n

chain_findings-none_iff :
    (c : ChainCheck) (es : List EvidenceLedgerEntry)
    → (filter is_interesting (chain_findings c es) ≡ []) ↔ (c ≡ chained)
chain_findings-none_iff chained es = (λ h. refl, λ h. refl)
chain_findings-none_iff (broken_prev i) es = (λ h. cc, λ h. cc)
chain_findings-none_iff (broken_entry i) es = (λ h. cc, λ h. cc)

count_findings-none_iff :
    (c : SnapshotCount) (n : ℕ)
    → (filter is_interesting (count_findings c n) ≡ []) ↔ CountAgrees c n
count_findings-none_iff no_number n = (λ h. tt, λ h. refl)
count_findings-none_iff (other_number x) n = (λ h. cc, λ h. elim h [ ])
count_findings-none_iff (counted k) n = elim (Bool-cases (nat_eq k n)) [
  | inl e ↦ (λ h. (nat_eq_iff k n).0 e, λ h. rw (e, count_findings))
  | inr e ↦ (λ h. let wrong = rw e at h in cc, λ h. ground (arith, e, h, nat_eq_iff k n))
]

snapshot_findings-none_iff :
    (s : SnapshotFile) (n : ℕ) → (filter is_interesting (snapshot_findings s n) ≡ []) ↔ Agrees s n
snapshot_findings-none_iff missing n = (λ h. tt, λ h. refl)
snapshot_findings-none_iff unreadable n = (λ h. cc, λ h. elim h [ ])
snapshot_findings-none_iff (snapshot s) n = count_findings-none_iff s.count n

entry_findings-none_iff :
    (exists : String → Bool) (whole : Bool) (es : List EvidenceLedgerEntry)
    → (filter is_interesting (entry_findings exists whole es) ≡ [])
      ↔ All (λ e. is_stale exists e.claim ≡ false) es
entry_findings-none_iff exists whole [] = (λ h. tt, λ h. refl)
entry_findings-none_iff exists whole (e ∷ es) =
    ground (arith, entry_findings-none_iff exists whole es)

module _ ⦃ep : EvidencePlatform⦄ where
  interesting-none_iff :
      (exists : String → Bool) (s : SnapshotFile) (es : List EvidenceLedgerEntry)
      → (filter is_interesting (audit_findings exists s es) ≡ [])
        ↔ (IsChain none es × Agrees s (length es) × All (λ e. is_stale exists e.claim ≡ false) es)
  unfolding audit_findings
  interesting-none_iff exists s es =
      let c = verify_ledger_chain es in
      ground (
        arith,
        filter-++ is_interesting (chain_findings c es)
            (snapshot_findings s (length es) ++ entry_findings exists (is_chained c) es),
        filter-++ is_interesting (snapshot_findings s (length es))
            (entry_findings exists (is_chained c) es),
        chain_findings-none_iff c es,
        verify_ledger_chain_iff es,
        snapshot_findings-none_iff s (length es),
        entry_findings-none_iff exists (is_chained c) es,
      )

  abbrev reported : Result EvidenceFailure AuditSummary → List AuditFinding
  reported (ok s) = s.findings
  reported (thrown e) = []

  ran_audit :
      (exists : String → Bool) (id : String) (d : EvidenceDir) (es : List EvidenceLedgerEntry)
      → read_ledger_entries d ≡ some es
      → run_evidence_audit exists true id d
        ≡ ok (summary_of id (filter is_interesting (audit_findings exists d.snapshot es)))
  unfolding run_evidence_audit
  ran_audit exists id d es h = rw (h, run_evidence_audit)

  -- An audit whose files the disk takes, of a ledger that can be read, reports no finding exactly
  -- when the ledger is a chain, the snapshot is missing or can be read and counts, if it counts, as
  -- many entries as the ledger has, and no claim is stale.
  pub run_evidence_audit-clean_iff :
      (exists : String → Bool) (id : String) (d : EvidenceDir) (es : List EvidenceLedgerEntry)
      → read_ledger_entries d ≡ some es
      → (run_evidence_audit exists true id d ≡ ok (summary_of id [])) ↔ (
          IsChain none es
          × Agrees d.snapshot (length es)
          × All (λ e. is_stale exists e.claim ≡ false) es)
  unfolding run_evidence_audit
  run_evidence_audit-clean_iff exists id d es h =
      let ran = ran_audit exists id d es h in
      let iff = interesting-none_iff exists d.snapshot es in
      (
        λ none_found. iff.0 (ap reported (sym ran ∙ none_found)),
        λ clean. ran ∙ ap (λ fs. ok (summary_of id fs)) (iff.1 clean),
      )
