-- ===== src/Evidence/Growth.antt =====
-- Appends of claims, one after another, whatever the disk takes of their writes.
use mathlib.Core.List.{append_assoc, append-nil}
use atlas_cli.Prelude.{
  String, Bool, true, false, not, if◌then◌else◌, Option-cases, none, some, List, [], ◌∷◌, ◌++◌,
  length, length-append, ◌≡◌, ◌↔◌, refl, sym, subst, inl, inr, ◌⊎◌, All,
}
use atlas_cli.Prelude.Action.{Result, ok}
use atlas_cli.ExecGraph.Contracts.{Runtime}
use atlas_cli.Evidence.Ledger.{
  TypedClaim, EvidenceLedgerEntry, EvidencePlatform, EvidenceDir, EvidenceFailure,
  read_ledger_entries, has_claim, is_chained, verify_ledger_chain, next_entry, typed_claim_schema,
  write_entry, append_new, append_read, append_claim,
}
use atlas_cli.Evidence.Appends.{Holds, next_entry-Holds}
use atlas_cli.Evidence.Auditor.{is_stale, summary_of, run_evidence_audit}
use atlas_cli.Evidence.Clean.{Agrees, run_evidence_audit-clean_iff}

-- Appends one after another; the flags of each say which of its two writes the disk takes.
module _ ⦃rt : Runtime⦄ ⦃ep : EvidencePlatform⦄ where
  unfoldable pub append_all : List (Bool × Bool × TypedClaim) → EvidenceDir → EvidenceDir
  append_all [] d = d
  append_all ((a, r, c) ∷ calls) d = append_all calls (append_claim a r c d).1

-- `P` is to hold of the entries of a directory; the writes of a call keep it where `Q` holds of its
-- second flag.
module _ ⦃rt : Runtime⦄ ⦃ep : EvidencePlatform⦄
    (P : List EvidenceLedgerEntry → EvidenceDir → Type 0) (Q : Bool → Type 0)
    (reads : (es : List EvidenceLedgerEntry) (d : EvidenceDir)
      → P es d
      → read_ledger_entries d ≡ some es) where
  -- A call leaves the entries as they are, or puts one behind them.
  abbrev Grows : List EvidenceLedgerEntry → EvidenceDir → Type 0
  Grows es d = P es d ⊎ ((e : EvidenceLedgerEntry) × P (es ++ e ∷ []) d)

  if-Grows :
      (es : List EvidenceLedgerEntry) (b : Bool)
      (x y : Result EvidenceFailure EvidenceLedgerEntry × EvidenceDir)
      → Grows es x.1
      → Grows es y.1
      → Grows es (if b then x else y).1
  if-Grows es true x y l r = l
  if-Grows es false x y l r = r

  module _
      (writes : (a r : Bool) (es : List EvidenceLedgerEntry) (c : TypedClaim) (d : EvidenceDir)
        → Q r
        → P es d
        → has_claim c.claim_id es ≡ none
        → Grows es (write_entry a r es (next_entry es c) d).1) where
    append_new-Grows :
        (a r : Bool) (es : List EvidenceLedgerEntry) (c : TypedClaim) (d : EvidenceDir)
        → Q r
        → P es d
        → has_claim c.claim_id es ≡ none
        → Grows es (append_new a r es c d).1
    unfolding append_new
    append_new-Grows a r es c d q h new =
        if-Grows es (not (is_chained (verify_ledger_chain es))) _ _ (inl h)
          (writes a r es c d q h new)

    append_read-Grows :
        (a r : Bool) (es : List EvidenceLedgerEntry) (c : TypedClaim) (d : EvidenceDir)
        → Q r
        → P es d
        → Grows es (append_read a r c (some es) d).1
    unfolding append_read
    append_read-Grows a r es c d q h = elim (Option-cases (has_claim c.claim_id es)) [
      | inl e ↦ rw (e, append_read) (append_new-Grows a r es c d q h e)
      | inr (x, e) ↦ rw (e, append_read) (inl h)
    ]

    append_claim-Grows :
        (a r : Bool) (es : List EvidenceLedgerEntry) (c : TypedClaim) (d : EvidenceDir)
        → Q r
        → P es d
        → Grows es (append_claim a r c d).1
    unfolding append_claim
    append_claim-Grows a r es c d q h =
        let read =
          subst (λ o. Grows es (append_read a r c o d).1) (sym (reads es d h))
            (append_read-Grows a r es c d q h) in
        if-Grows es d.readonly _ _ (inl h)
          (if-Grows es (not (typed_claim_schema c)) _ _ (inl h) read)

    append_all-keeps :
        (calls : List (Bool × Bool × TypedClaim)) (es : List EvidenceLedgerEntry) (d : EvidenceDir)
        → All (λ x. Q x.1) calls
        → P es d
        → (more : List EvidenceLedgerEntry) × P (es ++ more) (append_all calls d)
    unfolding append_all
    append_all-keeps [] es d q h = ([], subst (λ x. P x d) (sym (append-nil es)) h)
    append_all-keeps ((a, r, c) ∷ calls) es d q h = elim (append_claim-Grows a r es c d q.0 h) [
      | inl same ↦ append_all-keeps calls es (append_claim a r c d).1 q.1 same
      | inr (e, more) ↦
          let after = (append_claim a r c d).1 in
          let (rest, holds) = append_all-keeps calls (es ++ e ∷ []) after q.1 more in
          (
            e ∷ rest,
            subst (λ x. P x (append_all calls after)) (append_assoc es (e ∷ []) rest) holds,
          )
    ]

any_flags : (calls : List (Bool × Bool × TypedClaim)) → All (λ x. x.1 ≡ x.1) calls
any_flags [] = tt
any_flags (x ∷ calls) = (refl, any_flags calls)

module _ ⦃rt : Runtime⦄ ⦃ep : EvidencePlatform⦄ where
  write_entry-Holds :
      (a r : Bool) (es : List EvidenceLedgerEntry) (c : TypedClaim) (d : EvidenceDir)
      → r ≡ r
      → Holds es d
      → has_claim c.claim_id es ≡ none
      → Grows Holds (λ b. b ≡ b) (λ es d h. h.0) es (write_entry a r es (next_entry es c) d).1
  unfolding write_entry read_ledger_entries next_entry
  write_entry-Holds false r es c d u h new = inl h
  write_entry-Holds true false es c d u h new =
      inr (next_entry es c, next_entry-Holds es c d d.snapshot h new)
  write_entry-Holds true true es c d u h new = inr (
    next_entry es c,
    next_entry-Holds es c d (write_entry true true es (next_entry es c) d).1.snapshot h new,
  )

  -- From a directory whose ledger reads as entries that are chained and have claims with ids of
  -- their own, any appends, whatever the disk takes of their writes and whether they return or
  -- throw, leave a ledger that reads as those entries with others behind them, all chained, and
  -- with claims with ids of their own.
  pub append_all-Holds :
      (calls : List (Bool × Bool × TypedClaim)) (es : List EvidenceLedgerEntry) (d : EvidenceDir)
      → Holds es d
      → (more : List EvidenceLedgerEntry) × Holds (es ++ more) (append_all calls d)
  append_all-Holds calls es d h =
      append_all-keeps Holds (λ b. b ≡ b) (λ es d h. h.0) write_entry-Holds calls es d
        (any_flags calls) h

  -- The snapshot counts the entries of the ledger too.
  abbrev HoldsBoth : List EvidenceLedgerEntry → EvidenceDir → Type 0
  HoldsBoth es d = Holds es d × Agrees d.snapshot (length es)

  write_entry-HoldsBoth :
      (a r : Bool) (es : List EvidenceLedgerEntry) (c : TypedClaim) (d : EvidenceDir)
      → r ≡ true
      → HoldsBoth es d
      → has_claim c.claim_id es ≡ none
      → Grows HoldsBoth
          (λ b. b ≡ true)
          (λ es d h. h.0.0)
          es
          (write_entry a r es (next_entry es c) d).1
  unfolding write_entry read_ledger_entries next_entry
  write_entry-HoldsBoth false r es c d q h new = inl h
  write_entry-HoldsBoth true false es c d q h new = cc
  write_entry-HoldsBoth true true es c d q h new =
      let longer = length-append es (next_entry es c ∷ []) in
      inr (
        next_entry es c,
        (
          next_entry-Holds es c d (write_entry true true es (next_entry es c) d).1.snapshot h.0 new,
          sym longer,
        ),
      )

  -- From a directory whose ledger reads as chained entries with ids of their own and whose snapshot
  -- agrees with them, after any appends for which the disk takes the snapshot, an audit whose files
  -- the disk takes reports no finding exactly when no claim of the ledger is stale.
  pub audit-after_appends :
      (calls : List (Bool × Bool × TypedClaim)) (es : List EvidenceLedgerEntry) (d : EvidenceDir)
      (exists : String → Bool) (id : String)
      → Holds es d
      → Agrees d.snapshot (length es)
      → All (λ x. x.1 ≡ true) calls
      → (more : List EvidenceLedgerEntry) × (read_ledger_entries (append_all calls d)
          ≡ some (es ++ more))
        × ((run_evidence_audit exists true id (append_all calls d) ≡ ok (summary_of id []))
            ↔ All (λ e. is_stale exists e.claim ≡ false) (es ++ more))
  audit-after_appends calls es d exists id h agrees taken =
      let (more, (holds, same)) =
        append_all-keeps HoldsBoth (λ b. b ≡ true) (λ es d h. h.0.0) write_entry-HoldsBoth calls es
          d taken (h, agrees) in
      let clean =
        run_evidence_audit-clean_iff exists id (append_all calls d) (es ++ more) holds.0 in
      (
        more,
        holds.0,
        (λ none_found. (clean.0 none_found).2, λ fresh. clean.1 (holds.1, same, fresh)),
      )
