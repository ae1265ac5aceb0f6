-- ===== src/Atlas/SpendPolicy/Slots.antt =====
-- How many queue seeds src/atlas/spend-policy.ts lets through in a day.
use text.Mathlib.TextPositions.{eq_refl}
use atlas_cli.Prelude.{
  ℕ, zero, suc, ◌+◌, ◌-◌, true, false, ◌≡◌, arith, if◌then◌else◌, string_eq, leb,
}
use atlas_cli.Atlas.SpendPolicy.{
  SpendEnv, SpendState, brain_queue_cap, try_consume_brain_queue_slot, get_brain_queue_count,
}

-- How many of `n` attempts in a row are granted.
abbrev pub granted : ℕ → SpendEnv → SpendState → ℕ
granted zero env s = 0
granted (suc n) env s =
    let (ok, s') = try_consume_brain_queue_slot env s in
    let rest = granted n env s' in if ok then suc rest else rest

abbrev pub min : ℕ → ℕ → ℕ
min a b = if leb a b then a else b

-- One attempt: granted exactly below the cap, and counted when it is granted.
try_consume-count :
    (env : SpendEnv) (s : SpendState)
    → ((try_consume_brain_queue_slot env s).0
        ≡ (if leb (brain_queue_cap env) (get_brain_queue_count env s) then false else true))
      × (get_brain_queue_count env (try_consume_brain_queue_slot env s).1 ≡ (
          if leb (brain_queue_cap env) (get_brain_queue_count env s)
          then get_brain_queue_count env s
          else get_brain_queue_count env s + 1))
unfolding try_consume_brain_queue_slot get_brain_queue_count
try_consume-count env s = (ground (arith, eq_refl env.today), ground (arith, eq_refl env.today))

-- Of `n` attempts in a row on one day, as many are granted as the day's cap has slots left, or all.
-- A count of another day counts as none.
pub granted_lem :
    (n : ℕ) (env : SpendEnv) (s : SpendState)
    → granted n env s ≡ min n (brain_queue_cap env - get_brain_queue_count env s)
granted_lem zero env s = ground arith
granted_lem (suc n) env s =
    let (ok, count) = try_consume-count env s in
    ground (arith, ok, count, granted_lem n env (try_consume_brain_queue_slot env s).1)
