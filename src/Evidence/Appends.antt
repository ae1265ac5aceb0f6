-- ===== src/Evidence/Appends.antt =====
-- What the ledger of a directory holds, and how one entry is added to it.
use text.Mathlib.TextEquality.{eq_iff}
use atlas_cli.Prelude.{
  String, Bool, Bool-cases, Option, none, some, List, [], ◌∷◌, ◌++◌, find, ◌==◌, string_eq, ◌≡◌,
  ◌≢◌, refl, ap, ◌∙◌, inl, inr, All, arith,
}
use atlas_cli.Evidence.Ledger.{
  TypedClaim, EvidenceLedgerEntry, EvidencePlatform, EvidenceDir, SnapshotFile, LedgerLine, entry,
  not_json, read_lines, read_ledger_entries, has_claim, next_entry,
}
use atlas_cli.Evidence.Chain.{IsChain, IsChain-append, last_hash-after}

abbrev with_last :
    EvidenceLedgerEntry → Option (List EvidenceLedgerEntry) → Option (List EvidenceLedgerEntry)
with_last e none = none
with_last e (some es) = some (es ++ e ∷ [])

abbrev with_first :
    EvidenceLedgerEntry → Option (List EvidenceLedgerEntry) → Option (List EvidenceLedgerEntry)
with_first x o = elim o [ none ↦ none | some es ↦ some (x ∷ es) ]

cons_last :
    (x e : EvidenceLedgerEntry) (o : Option (List EvidenceLedgerEntry))
    → with_first x (with_last e o) ≡ with_last e (with_first x o)
cons_last x e none = refl
cons_last x e (some es) = refl

read_lines-append :
    (ls : List LedgerLine) (e : EvidenceLedgerEntry)
    → read_lines (ls ++ entry e ∷ []) ≡ with_last e (read_lines ls)
read_lines-append [] e = refl
read_lines-append (not_json ∷ ls) e = refl
read_lines-append (entry x ∷ ls) e =
    ap (with_first x) (read_lines-append ls e) ∙ cons_last x e (read_lines ls)

pub find-append :
    {A : Type 0} (p : A → Bool) (xs ys : List A) (a : A)
    → find p xs ≡ some a
    → find p (xs ++ ys) ≡ some a
find-append p [] ys a h = cc
find-append p (x ∷ xs) ys a h = elim (Bool-cases (p x)) [
  | inl e ↦ ground arith
  | inr e ↦ ground (arith, find-append p xs ys a)
]

-- No two entries have a claim with the same id.
abbrev pub HasUniqueIds : List EvidenceLedgerEntry → Type 0
HasUniqueIds [] = Unit
HasUniqueIds (e ∷ es) = All (λ x. x.claim.claim_id ≢ e.claim.claim_id) es × HasUniqueIds es

All-append :
    (id : String) (es : List EvidenceLedgerEntry) (e : EvidenceLedgerEntry)
    → All (λ x. x.claim.claim_id ≢ id) es
    → e.claim.claim_id ≢ id
    → All (λ x. x.claim.claim_id ≢ id) (es ++ e ∷ [])
All-append id [] e all ne = (ne, tt)
All-append id (x ∷ es) e all ne = (all.0, All-append id es e all.1 ne)

HasUniqueIds-append :
    (es : List EvidenceLedgerEntry) (e : EvidenceLedgerEntry)
    → HasUniqueIds es
    → has_claim e.claim.claim_id es ≡ none
    → HasUniqueIds (es ++ e ∷ [])
HasUniqueIds-append [] e u h = (tt, tt)
HasUniqueIds-append (x ∷ es) e u h = elim (Bool-cases (x.claim.claim_id == e.claim.claim_id)) [
  | inl same ↦ ground (arith, same, h)
  | inr other ↦ (
    All-append x.claim.claim_id es e u.0
        (λ same. ground (arith, other, same, eq_iff x.claim.claim_id e.claim.claim_id)),
    HasUniqueIds-append es e u.1 (ground (arith, other, h)),
  )
]

module _ ⦃ep : EvidencePlatform⦄ where
  -- The ledger of a directory reads as some entries, which are a chain of claims with ids of their
  -- own.
  abbrev pub Holds : List EvidenceLedgerEntry → EvidenceDir → Type 0
  Holds es d = (read_ledger_entries d ≡ some es) × IsChain none es × HasUniqueIds es

  pub next_entry-Holds :
      (es : List EvidenceLedgerEntry) (c : TypedClaim) (d : EvidenceDir) (s : SnapshotFile)
      → Holds es d
      → has_claim c.claim_id es ≡ none
      → Holds
          (es ++ next_entry es c ∷ [])
          (record d { ledger = d.ledger ++ entry (next_entry es c) ∷ []; snapshot = s })
  unfolding read_ledger_entries next_entry
  next_entry-Holds es c d s h new = (
    read_lines-append d.ledger (next_entry es c) ∙ ap (with_last (next_entry es c)) h.0,
    IsChain-append none es (next_entry es c) h.1 (last_hash-after es) refl,
    HasUniqueIds-append es (next_entry es c) h.2 new,
  )
