-- ===== src/Evidence/Tamper.antt =====
-- What the hashes of a ledger's entries fix.
use mathlib.Core.List.{reverse, reverse_aux, reverse-reverse}
use atlas_cli.Prelude.{
  String, Option, none, some, List, [], ◌∷◌, ◌≡◌, refl, sym, ap, ◌∙◌, All, All-map,
}
use atlas_cli.Evidence.Ledger.{
  EvidenceLedgerEntry, EvidencePlatform, chained, last_hash, verify_ledger_chain,
}
use atlas_cli.Evidence.Chain.{IsChain, verify_ledger_chain_iff, hash_after, last_hash-after}

module _ ⦃ep : EvidencePlatform⦄ where
  -- Two entries are hashed alike only where they say the same.
  abbrev pub IsApart : EvidenceLedgerEntry → EvidenceLedgerEntry → Type 0
  IsApart a b =
      ep.hash_payload a.prev_hash a.claim ≡ ep.hash_payload b.prev_hash b.claim
      → (a.prev_hash ≡ b.prev_hash) × (a.claim ≡ b.claim)

  same_entry :
      (a b : EvidenceLedgerEntry)
      → IsApart a b
      → a.entry_hash ≡ ep.hash_payload a.prev_hash a.claim
      → b.entry_hash ≡ ep.hash_payload b.prev_hash b.claim
      → a.entry_hash ≡ b.entry_hash
      → a ≡ b
  same_entry a b apart p q e =
      let (s, t) = apart (sym p ∙ e ∙ q) in
      λ i. record { prev_hash = s i; entry_hash = e i; claim = t i }

  -- Entries with the newest first, each naming the hash of the one behind it.
  abbrev back_hash : List EvidenceLedgerEntry → Option String
  back_hash [] = none
  back_hash (e ∷ es) = some e.entry_hash

  abbrev IsBack : List EvidenceLedgerEntry → Type 0
  IsBack [] = Unit
  IsBack (e ∷ es) =
      (e.prev_hash ≡ back_hash es)
      × (e.entry_hash ≡ ep.hash_payload e.prev_hash e.claim)
      × IsBack es

  IsBack-reverse :
      (es acc : List EvidenceLedgerEntry)
      → IsChain (back_hash acc) es
      → IsBack acc
      → IsBack (reverse_aux es acc)
  IsBack-reverse [] acc c b = b
  IsBack-reverse (e ∷ es) acc (p, h, c) b = IsBack-reverse es (e ∷ acc) c (p, h, b)

  back_hash-reverse :
      (es acc : List EvidenceLedgerEntry)
      → back_hash (reverse_aux es acc) ≡ hash_after (back_hash acc) es
  back_hash-reverse [] acc = refl
  back_hash-reverse (e ∷ es) acc = back_hash-reverse es (e ∷ acc)

  -- No two entries of the two lists collide.
  abbrev pub AreApart : List EvidenceLedgerEntry → List EvidenceLedgerEntry → Type 0
  AreApart xs ys = All (λ a. All (IsApart a) ys) xs

  same_back :
      (xs ys : List EvidenceLedgerEntry)
      → IsBack xs
      → IsBack ys
      → AreApart xs ys
      → back_hash xs ≡ back_hash ys
      → xs ≡ ys
  same_back [] [] b c apart e = refl
  same_back [] (y ∷ ys) b c apart e = cc
  same_back (x ∷ xs) [] b c apart e = cc
  same_back (x ∷ xs) (y ∷ ys) (p, h, b) (q, k, c) apart e =
      let same = same_entry x y apart.0.0 h k cc in
      let rest =
        same_back xs ys b c (All-map _ _ (λ a all. all.1) xs apart.1)
          (sym p ∙ ap (λ a. a.prev_hash) same ∙ q) in
      λ i. same i ∷ rest i

  All-reverse :
      (P : EvidenceLedgerEntry → Type 0) (xs acc : List EvidenceLedgerEntry)
      → All P xs
      → All P acc
      → All P (reverse_aux xs acc)
  All-reverse P [] acc h k = k
  All-reverse P (x ∷ xs) acc h k = All-reverse P xs (x ∷ acc) h.1 (h.0, k)

  -- Two ledgers that are chained and have the same last hash are equal, unless an entry of the one
  -- collides with an entry of the other: they are hashed alike and differ in what is hashed.
  pub same_last_hash :
      (xs ys : List EvidenceLedgerEntry)
      → verify_ledger_chain xs ≡ chained
      → verify_ledger_chain ys ≡ chained
      → AreApart xs ys
      → last_hash xs ≡ last_hash ys
      → xs ≡ ys
  same_last_hash xs ys c d apart e =
      let all =
        All-map (λ a. All (IsApart a) ys) (λ a. All (IsApart a) (reverse_aux ys []))
          (λ a h. All-reverse (IsApart a) ys [] h tt) xs apart in
      let reversed = All-reverse (λ a. All (IsApart a) (reverse_aux ys [])) xs [] all tt in
      let same =
        same_back (reverse_aux xs []) (reverse_aux ys [])
          (IsBack-reverse xs [] ((verify_ledger_chain_iff xs).0 c) tt)
          (IsBack-reverse ys [] ((verify_ledger_chain_iff ys).0 d) tt) reversed
          (back_hash-reverse xs []
            ∙ sym (last_hash-after xs)
            ∙ e
            ∙ last_hash-after ys
            ∙ sym (back_hash-reverse ys [])) in
      sym (reverse-reverse xs) ∙ ap reverse same ∙ reverse-reverse ys
