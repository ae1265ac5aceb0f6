-- ===== src/Evidence/Chain.antt =====
-- When the entries of a ledger are a chain.
use text.Mathlib.TextEquality.{eq_iff}
use atlas_cli.Prelude.{
  ℕ, ◌+◌, String, true, Option, none, some, List, [], ◌∷◌, ◌++◌, ◌≡◌, ◌↔◌, refl, arith,
}
use atlas_cli.Evidence.Ledger.{
  EvidenceLedgerEntry, EvidencePlatform, chained, same_hash, last_hash, verify_from,
  verify_ledger_chain,
}

same_hash_iff : (a b : Option String) → (same_hash a b ≡ true) ↔ (a ≡ b)
same_hash_iff none none = (λ h. refl, λ h. refl)
same_hash_iff (some a) (some b) = ground (arith, eq_iff a b)
same_hash_iff none (some b) = (λ h. cc, λ h. cc)
same_hash_iff (some a) none = (λ h. cc, λ h. cc)

module _ ⦃ep : EvidencePlatform⦄ where
  -- Every entry names the hash of the one before it, and has its own.
  abbrev pub IsChain : Option String → List EvidenceLedgerEntry → Type 0
  IsChain prev [] = Unit
  IsChain prev (e ∷ es) =
      (e.prev_hash ≡ prev)
      × (e.entry_hash ≡ ep.hash_payload e.prev_hash e.claim)
      × IsChain (some e.entry_hash) es

  verify_from_iff :
      (prev : Option String) (i : ℕ) (es : List EvidenceLedgerEntry)
      → (verify_from prev i es ≡ chained) ↔ IsChain prev es
  unfolding verify_from
  verify_from_iff prev i [] = (λ h. tt, λ h. refl)
  verify_from_iff prev i (e ∷ es) = ground (
    arith,
    same_hash_iff e.prev_hash prev,
    eq_iff e.entry_hash (ep.hash_payload e.prev_hash e.claim),
    verify_from_iff (some e.entry_hash) (i + 1) es,
  )

  -- A ledger passes verifyLedgerChain exactly when its entries are a chain from the start.
  pub verify_ledger_chain_iff :
      (es : List EvidenceLedgerEntry) → (verify_ledger_chain es ≡ chained) ↔ IsChain none es
  unfolding verify_ledger_chain
  verify_ledger_chain_iff es = verify_from_iff none 0 es

  -- The hash behind some entries, where `prev` is the one before them.
  abbrev pub hash_after : Option String → List EvidenceLedgerEntry → Option String
  hash_after prev [] = prev
  hash_after prev (e ∷ es) = hash_after (some e.entry_hash) es

  pub IsChain-append :
      (prev : Option String) (es : List EvidenceLedgerEntry) (e : EvidenceLedgerEntry)
      → IsChain prev es
      → e.prev_hash ≡ hash_after prev es
      → e.entry_hash ≡ ep.hash_payload e.prev_hash e.claim
      → IsChain prev (es ++ e ∷ [])
  IsChain-append prev [] e c p h = (p, h, tt)
  IsChain-append prev (x ∷ es) e (a, b, c) p h =
      (a, b, IsChain-append (some x.entry_hash) es e c p h)

  hash_after-cons :
      (e : EvidenceLedgerEntry) (es : List EvidenceLedgerEntry)
      → last_hash (e ∷ es) ≡ hash_after (some e.entry_hash) es
  hash_after-cons e [] = refl
  hash_after-cons e (x ∷ es) = hash_after-cons x es

  pub last_hash-after : (es : List EvidenceLedgerEntry) → last_hash es ≡ hash_after none es
  last_hash-after [] = refl
  last_hash-after (e ∷ es) = hash_after-cons e es
