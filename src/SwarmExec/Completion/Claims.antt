-- ===== src/SwarmExec/Completion/Claims.antt =====
-- What the verdict of src/swarm-exec/completion-policy.ts does not depend on.
use atlas_cli.Prelude.{
  ℕ, suc, Bool, true, false, ◌||◌, List, [], ◌∷◌, ◌++◌, map, ◌≡◌, refl, ap, arith, length, includes,
  ℕ_eq, Bool-cases, inl, inr, ◌==◌, nat_eq_iff, subst,
}
use atlas_cli.SwarmExec.Completion.{
  ResponderResult, CompletionInput, is_responder_ok, dedup_after, dedup_by_id, gates, ok_responders,
  evaluate_completion,
}

abbrev pub with_responders : CompletionInput → List ResponderResult → CompletionInput
with_responders input rs = record input { responders = rs }

module _ (claim : ResponderResult → Bool) where
  -- The responders with other claims about themselves.
  abbrev pub reclaimed : ResponderResult → ResponderResult
  reclaimed r = record r { ok = claim r }

  dedup_after-reclaimed :
      (seen : List ℕ) (rs : List ResponderResult)
      → dedup_after seen (map reclaimed rs) ≡ map reclaimed (dedup_after seen rs)
  dedup_after-reclaimed seen [] = refl
  dedup_after-reclaimed seen (r ∷ rs) =
      ground (arith, dedup_after-reclaimed seen rs, dedup_after-reclaimed (r.id ∷ seen) rs)

  length-reclaimed : (rs : List ResponderResult) → length (map reclaimed rs) ≡ length rs
  length-reclaimed [] = refl
  length-reclaimed (r ∷ rs) = ap suc (length-reclaimed rs)

  ok_responders-reclaimed :
      (rs : List ResponderResult) → ok_responders (map reclaimed rs) ≡ ok_responders rs
  unfolding is_responder_ok
  ok_responders-reclaimed [] = refl
  ok_responders-reclaimed (r ∷ rs) = ground (arith, ok_responders-reclaimed rs)

-- Whether an id is among those of some responders.
abbrev pub has_id : List ResponderResult → ℕ → Bool
has_id [] id = false
has_id (r ∷ rs) id = includes (r.id ∷ []) id || has_id rs id

-- An id that is repeated was there before the head of the list, or is the head's, or comes later.
seen_or_later :
    (seen : List ℕ) (x id : ℕ) (later : Bool)
    → (includes seen id || (includes (x ∷ []) id || later)) ≡ true
    → includes seen x ≡ true
    → (includes seen id || later) ≡ true
seen_or_later seen x id later h old = elim (Bool-cases (x == id)) [
  | inl same ↦ ground (arith, subst (λ y. includes seen y ≡ true) ((nat_eq_iff x id).0 same) old)
  | inr other ↦ ground (arith, h, other)
]

dedup_after-repeated :
    (seen : List ℕ) (rs : List ResponderResult) (r : ResponderResult)
    → (includes seen r.id || has_id rs r.id) ≡ true
    → dedup_after seen (rs ++ r ∷ []) ≡ dedup_after seen rs
dedup_after-repeated seen [] r h = ground (arith, h)
dedup_after-repeated seen (x ∷ rs) r h = elim (Bool-cases (includes seen x.id)) [
  | inl old ↦
      let rest =
        dedup_after-repeated seen rs r (seen_or_later seen x.id r.id (has_id rs r.id) h old) in
      ground (arith, old, rest)
  | inr new ↦
      let rest = dedup_after-repeated (x.id ∷ seen) rs r (ground (arith, h)) in
      ground (arith, new, rest)
]

-- The verdict does not depend on what responders claim of themselves: whatever their `ok` is
-- changed to, it stays as it is. Nor does it change where a responder is added whose id was there
-- before.
pub evaluate_completion-stays :
    (input : CompletionInput) (claim : ResponderResult → Bool) (again : ResponderResult)
    → has_id input.responders again.id ≡ true
    → (evaluate_completion (with_responders input (map (reclaimed claim) input.responders))
        ≡ evaluate_completion input)
      × (evaluate_completion (with_responders input (input.responders ++ again ∷ []))
          ≡ evaluate_completion input)
unfolding evaluate_completion gates dedup_by_id
evaluate_completion-stays input claim again h =
    let rs = dedup_after [] input.responders in
    (
      rw
          (
            dedup_after-reclaimed claim [] input.responders,
            length-reclaimed claim rs,
            ok_responders-reclaimed claim rs,
          )
          refl,
      rw (dedup_after-repeated [] input.responders again h) refl,
    )
