-- ===== src/Atlas/SpendPolicy/Gate.antt =====
-- Which model calls src/atlas/spend-policy.ts lets through, and how often it warns.
use text.Mathlib.TextEquality.{eq_iff}
use atlas_cli.Prelude.{
  ◌+◌, ◌≤◌, ◌<◌, String, true, false, List, [], ◌∷◌, length, ◌≡◌, ◌↔◌, ◌⊎◌, refl, ap, subst, ◌∙◌,
  arith, inl, inr, ◌==◌, string_eq,
}
use atlas_cli.Atlas.SpendPolicy.{
  SpendEnv, SpendState, allowed, is_paid_provider, paid_allowed, over_daily_cap, daily_token_cap,
  warn_over_cap_once, enforce_spend_policy,
}

-- A call passes the gate exactly when its provider is free, or paid providers are allowed and the
-- tokens used today are below the cap; and a call that is blocked changes no state.
pub enforce_spend_policy-allowed_iff :
    (env : SpendEnv) (provider caller : String) (s : SpendState)
    → (((enforce_spend_policy env provider caller s).0 ≡ allowed) ↔ (
        (is_paid_provider provider ≡ false)
        ⊎ ((paid_allowed env ≡ true) × (env.used < daily_token_cap env))))
      × (((enforce_spend_policy env provider caller s).1 ≡ s)
          ⊎ ((enforce_spend_policy env provider caller s).0 ≡ allowed))
unfolding enforce_spend_policy over_daily_cap
enforce_spend_policy-allowed_iff env provider caller s = (ground arith, ground arith)

-- A call of the gate.
pub record GateCall : Type 0 where
  pub env : SpendEnv
  pub provider : String
  pub caller : String

abbrev pub gate_calls : List GateCall → SpendState → SpendState
gate_calls [] s = s
gate_calls (c ∷ cs) s = gate_calls cs (enforce_spend_policy c.env c.provider c.caller s).1

abbrev pub AreOn : String → List GateCall → Type 0
AreOn today [] = Unit
AreOn today (c ∷ cs) = (c.env.today ≡ today) × AreOn today cs

-- At most one warning more, and none once the day is latched.
abbrev Warned : String → SpendState → SpendState → Type 0
Warned today s t =
    ((t.warned_date ≡ s.warned_date) × (t.warnings ≡ s.warnings))
    ⊎ ((s.warned_date == today) ≡ false)
      × (t.warned_date ≡ today)
      × (length t.warnings ≡ length s.warnings + 1)

gate_call-Warned :
    (c : GateCall) (s : SpendState)
    → Warned c.env.today s (enforce_spend_policy c.env c.provider c.caller s).1
unfolding enforce_spend_policy warn_over_cap_once
gate_call-Warned c s = ground arith

-- On one day, any number of calls by any callers adds at most one warning, and none where the day
-- has had its warning.
pub gate_warns_once :
    (today : String) (cs : List GateCall) (s : SpendState)
    → AreOn today cs
    → (length (gate_calls cs s).warnings ≤ length s.warnings + 1)
      × (s.warned_date ≡ today → (gate_calls cs s).warnings ≡ s.warnings)
gate_warns_once today [] s on = (omega arith, λ d. refl)
gate_warns_once today (c ∷ cs) s (at, on) =
    let t = (enforce_spend_policy c.env c.provider c.caller s).1 in
    let (less, latched) = gate_warns_once today cs t on in
    elim (gate_call-Warned c s) [
      | inl (date, same) ↦ (
        subst (λ x. length (gate_calls cs t).warnings ≤ length x + 1) same less,
        λ d. latched (date ∙ d) ∙ same,
      )
      | inr (fresh, date, one) ↦
          let still = latched (date ∙ at) in
          (
            omega (arith, ap length still, one),
            λ d. absurd (ground (arith, d, at, fresh, eq_iff s.warned_date c.env.today)),
          )
    ]
