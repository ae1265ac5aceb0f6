-- ===== src/Evidence/Settled.antt =====
-- What an append that returned gives to the appends of the same claim after it.
use text.Mathlib.TextEquality.{eq_iff}
use atlas_cli.Prelude.{
  Bool, true, false, Bool-cases, not, if◌then◌else◌, Option, Option-cases, none, some, List, [],
  ◌∷◌, ◌++◌, find, ◌==◌, string_eq, ◌≡◌, refl, sym, subst, ap, ◌∙◌, inl, inr, arith,
}
use atlas_cli.Prelude.Action.{Result, ok, thrown}
use atlas_cli.ExecGraph.Contracts.{Runtime}
use atlas_cli.Evidence.Ledger.{
  TypedClaim, EvidenceLedgerEntry, EvidencePlatform, EvidenceDir, EvidenceFailure, read_only,
  schema, read_ledger_entries, has_claim, is_chained, verify_ledger_chain, next_entry,
  typed_claim_schema, write_entry, append_new, append_read, append_claim,
}
use atlas_cli.Evidence.Appends.{Holds, next_entry-Holds, find-append}
use atlas_cli.Evidence.Growth.{append_all, append_all-Holds}

find-last :
    {A : Type 0} (p : A → Bool) (xs : List A) (a : A)
    → find p xs ≡ none
    → p a ≡ true
    → find p (xs ++ a ∷ []) ≡ some a
find-last p [] a h e = rw e
find-last p (x ∷ xs) a h e = elim (Bool-cases (p x)) [
  | inl f ↦ ground (arith, f, h)
  | inr f ↦ ground (arith, f, h, find-last p xs a)
]

module _ ⦃ep : EvidencePlatform⦄ where
  -- Where a call returned an entry, the ledger can be written and finds that entry for the claim.
  abbrev pub IsFound :
      TypedClaim → Result EvidenceFailure EvidenceLedgerEntry × EvidenceDir → Type 0
  IsFound c (thrown x, d) = Unit
  IsFound c (ok e, d) =
      (d.readonly ≡ false)
      × (es : List EvidenceLedgerEntry) × Holds es d
      × (has_claim c.claim_id es ≡ some e)

  if-IsFound :
      (c : TypedClaim) (b : Bool) (f : EvidenceFailure) (d : EvidenceDir)
      (y : Result EvidenceFailure EvidenceLedgerEntry × EvidenceDir)
      → (b ≡ false → IsFound c y)
      → IsFound c (if b then (thrown f, d) else y)
  if-IsFound c true f d y h = tt
  if-IsFound c false f d y h = h refl

  write_entry-IsFound :
      (a r : Bool) (es : List EvidenceLedgerEntry) (c : TypedClaim) (d : EvidenceDir)
      → Holds es d
      → d.readonly ≡ false
      → has_claim c.claim_id es ≡ none
      → IsFound c (write_entry a r es (next_entry es c) d)
  unfolding write_entry next_entry read_ledger_entries
  write_entry-IsFound false r es c d h w new = tt
  write_entry-IsFound true false es c d h w new = tt
  write_entry-IsFound true true es c d h w new = (
    w,
    es ++ next_entry es c ∷ [],
    next_entry-Holds es c d (write_entry true true es (next_entry es c) d).1.snapshot h new,
    find-last (λ e. e.claim.claim_id == c.claim_id) es (next_entry es c) new
        ((eq_iff c.claim_id c.claim_id).1 refl),
  )

  append_new-IsFound :
      (a r : Bool) (es : List EvidenceLedgerEntry) (c : TypedClaim) (d : EvidenceDir)
      → Holds es d
      → d.readonly ≡ false
      → has_claim c.claim_id es ≡ none
      → IsFound c (append_new a r es c d)
  unfolding append_new
  append_new-IsFound a r es c d h w new =
      if-IsFound c (not (is_chained (verify_ledger_chain es))) _ d _
        (λ e. write_entry-IsFound a r es c d h w new)

  append_read-IsFound :
      (a r : Bool) (es : List EvidenceLedgerEntry) (c : TypedClaim) (d : EvidenceDir)
      → Holds es d
      → d.readonly ≡ false
      → IsFound c (append_read a r c (some es) d)
  unfolding append_read
  append_read-IsFound a r es c d h w = elim (Option-cases (has_claim c.claim_id es)) [
    | inl e ↦ rw (e, append_read) (append_new-IsFound a r es c d h w e)
    | inr (x, e) ↦ rw (e, append_read) (w, es, h, e)
  ]

module _ ⦃rt : Runtime⦄ ⦃ep : EvidencePlatform⦄ where
  append_claim-IsFound :
      (a r : Bool) (es : List EvidenceLedgerEntry) (c : TypedClaim) (d : EvidenceDir)
      → Holds es d
      → IsFound c (append_claim a r c d)
  unfolding append_claim
  append_claim-IsFound a r es c d h = if-IsFound c d.readonly _ d _ (λ w.
      if-IsFound c (not (typed_claim_schema c)) _ d _ (λ s.
        subst (λ o. IsFound c (append_read a r c o d)) (sym h.0)
          (append_read-IsFound a r es c d h w)))

  append_claim-schema :
      (a r : Bool) (c : TypedClaim) (d : EvidenceDir) (e : EvidenceLedgerEntry) (f : EvidenceDir)
      → append_claim a r c d ≡ (ok e, f)
      → typed_claim_schema c ≡ true
  unfolding append_claim
  append_claim-schema a r c d e f h = elim (Bool-cases d.readonly) [
    | inl b ↦ ground (arith, b, h)
    | inr b ↦ elim (Bool-cases (typed_claim_schema c)) [
      | inl s ↦ s
      | inr s ↦ ground (arith, b, s, h)
    ]
  ]

  if-readonly :
      (w b : Bool) (x y : Result EvidenceFailure EvidenceLedgerEntry × EvidenceDir)
      → x.1.readonly ≡ w
      → y.1.readonly ≡ w
      → (if b then x else y).1.readonly ≡ w
  if-readonly w true x y l r = l
  if-readonly w false x y l r = r

  append_read-readonly :
      (a r : Bool) (c : TypedClaim) (o : Option (List EvidenceLedgerEntry)) (d : EvidenceDir)
      → (append_read a r c o d).1.readonly ≡ d.readonly
  unfolding append_read append_new write_entry
  append_read-readonly a r c none d = refl
  append_read-readonly a r c (some es) d = elim (Option-cases (has_claim c.claim_id es)) [
    | inl e ↦
        rw (e, append_read)
          (if-readonly d.readonly (not (is_chained (verify_ledger_chain es))) _ _ refl (
            if-readonly d.readonly (not a) _ _ refl (if-readonly d.readonly (not r) _ _ refl refl)))
    | inr (x, e) ↦ rw (e, append_read)
  ]

  append_claim-readonly :
      (a r : Bool) (c : TypedClaim) (d : EvidenceDir)
      → (append_claim a r c d).1.readonly ≡ d.readonly
  unfolding append_claim
  append_claim-readonly a r c d = if-readonly d.readonly d.readonly _ _ refl (
      if-readonly d.readonly (not (typed_claim_schema c)) _ _ refl
        (append_read-readonly a r c (read_ledger_entries d) d))

  append_all-readonly :
      (calls : List (Bool × Bool × TypedClaim)) (d : EvidenceDir)
      → (append_all calls d).readonly ≡ d.readonly
  unfolding append_all
  append_all-readonly [] d = refl
  append_all-readonly ((a, r, c) ∷ calls) d =
      append_all-readonly calls (append_claim a r c d).1 ∙ append_claim-readonly a r c d

  append_found :
      (a r : Bool) (c : TypedClaim) (d : EvidenceDir) (es : List EvidenceLedgerEntry)
      (e : EvidenceLedgerEntry)
      → d.readonly ≡ false
      → typed_claim_schema c ≡ true
      → read_ledger_entries d ≡ some es
      → has_claim c.claim_id es ≡ some e
      → append_claim a r c d ≡ (ok e, d)
  unfolding append_claim append_read
  append_found a r c d es e w s h f =
      ap
        (λ b.
          if b
          then (thrown read_only, d)
          else if not (typed_claim_schema c)
          then (thrown schema, d)
          else append_read a r c (read_ledger_entries d) d)
        w
      ∙ ap (λ b. if not b then (thrown schema, d) else append_read a r c (read_ledger_entries d) d)
          s
      ∙ ap (λ o. append_read a r c o d) h
      ∙ rw (f, append_read)

  -- Where an append to a chained ledger with unique ids returned an entry, then after any appends,
  -- whatever the disk takes of them, an append of the same claim returns the same entry and
  -- changes neither the ledger nor the snapshot.
  pub append_claim-settles :
      (a r b s : Bool) (c : TypedClaim) (d f : EvidenceDir) (es : List EvidenceLedgerEntry)
      (e : EvidenceLedgerEntry) (calls : List (Bool × Bool × TypedClaim))
      → Holds es d
      → append_claim a r c d ≡ (ok e, f)
      → append_claim b s c (append_all calls f) ≡ (ok e, append_all calls f)
  append_claim-settles a r b s c d f es e calls h ran =
      let (w, gs, holds, found) = subst (IsFound c) ran (append_claim-IsFound a r es c d h) in
      let (more, after) = append_all-Holds calls gs f holds in
      append_found b s c (append_all calls f) (gs ++ more) e (append_all-readonly calls f ∙ w)
        (append_claim-schema a r c d e f ran) after.0
        (find-append (λ x. x.claim.claim_id == c.claim_id) gs more e found)
