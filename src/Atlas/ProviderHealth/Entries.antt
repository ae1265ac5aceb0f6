-- ===== src/Atlas/ProviderHealth/Entries.antt =====
-- What is stored of a provider by src/atlas/provider-health.ts.
use text.Mathlib.TextEquality.{eq_iff}
use mathlib.Core.Option.{some-injective}
use atlas_cli.Prelude.{
  ℕ, ◌≤◌, ◌⊎◌, String, true, false, none, some, List, [], ◌∷◌, ◌≡◌, refl, sym, ap, subst, ◌∙◌,
  arith, if◌then◌else◌, is_some, ◌==◌, string_eq, inl, inr, Bool-cases, Option-cases,
}
use atlas_cli.Atlas.ProviderHealth.{
  ProviderHealthState, healthy, degraded, dead, ProviderHealthEntry, HealthWorld, load_store,
  cooldown_active, revived, dead_entry, degraded_entry, is_provider_healthy_for_routing,
  get_provider_health, mark_provider_healthy, mark_provider_degraded, mark_provider_dead,
  record_provider_failure, set_entry, default_dead_cooldown_ms, default_degraded_cooldown_ms,
}
use atlas_cli.Atlas.ProviderHealth.Routing.{get-set_entry, failure-cases}

-- The calls that may change the store.
pub data HealthCall : Type 0 where
  check : ℕ → HealthCall
  succeed : HealthCall
  degrade kill : String → ℕ → HealthCall
  fail : String → HealthCall

abbrev pub call : String → HealthCall → HealthWorld → HealthWorld
call p (check now) w = (is_provider_healthy_for_routing p now w).1
call p succeed w = mark_provider_healthy p w
call p (degrade reason cooldown) w = mark_provider_degraded p reason cooldown w
call p (kill reason cooldown) w = mark_provider_dead p reason cooldown w
call p (fail error) w = (record_provider_failure p error w).1

-- A provider, what is called of it, and when.
pub record TimedCall : Type 0 where
  pub provider : String
  pub what : HealthCall
  pub at : ℕ

abbrev pub calls : List TimedCall → HealthWorld → HealthWorld
calls [] w = w
calls (c ∷ cs) w = calls cs (call c.provider c.what (record w { clock = c.at }))

-- The fields of an entry agree with its state.
abbrev pub IsConsistent : ProviderHealthEntry → Type 0
IsConsistent e = elim e.state [
  | healthy ↦ (e.consecutive_failures ≡ 0) × (e.cooldown_until ≡ none) × (e.reason ≡ none)
  | degraded ↦
      (1 ≤ e.consecutive_failures) × (is_some e.cooldown_until ≡ true) × (is_some e.reason ≡ true)
  | dead ↦
      (2 ≤ e.consecutive_failures) × (is_some e.cooldown_until ≡ true) × (is_some e.reason ≡ true)
]

-- A call sets the entry of its own provider to a consistent one, or changes nothing.
pub data Effect (p : String) (w : HealthWorld) : HealthWorld → Type 0 where
  idle : Effect p w w
  sets : (e : ProviderHealthEntry) → IsConsistent e → e.provider ≡ p → Effect p w (set_entry p e w)

-- A check changes nothing but an entry that it finds dead past its cooldown.
check-cases :
    (p : String) (now : ℕ) (w : HealthWorld)
    → ((is_provider_healthy_for_routing p now w).1 ≡ w)
      ⊎ ((entry : ProviderHealthEntry) × (get_provider_health p w ≡ some entry)
          × ((is_provider_healthy_for_routing p now w).1 ≡ set_entry p (revived entry) w))
unfolding is_provider_healthy_for_routing get_provider_health
check-cases p now w = elim (Option-cases (get_provider_health p w)) [
  | inl e ↦ inl (ground arith)
  | inr (entry, e) ↦ by_state entry e entry.state refl
]
  where
    by_state :
        (entry : ProviderHealthEntry)
        → get_provider_health p w ≡ some entry
        → (s : ProviderHealthState) → entry.state ≡ s
        → ((is_provider_healthy_for_routing p now w).1 ≡ w)
          ⊎ ((x : ProviderHealthEntry) × (get_provider_health p w ≡ some x)
              × ((is_provider_healthy_for_routing p now w).1 ≡ set_entry p (revived x) w))
    by_state entry e healthy s = inl (ground arith)
    by_state entry e degraded s = inl (ground arith)
    by_state entry e dead s = elim (Bool-cases (cooldown_active entry now)) [
      | inl active ↦ inl (ground arith)
      | inr past ↦ inr (entry, e, ground arith)
    ]

call-Effect :
    (p : String) (c : HealthCall) (w : HealthWorld)
    → ((e : ProviderHealthEntry) → get_provider_health p w ≡ some e → e.provider ≡ p)
    → Effect p w (call p c w)
unfolding mark_provider_healthy mark_provider_degraded mark_provider_dead
call-Effect p (check now) w h = elim (check-cases p now w) [
  | inl same ↦ subst (Effect p w) (sym same) idle
  | inr (entry, e, made) ↦
      subst (Effect p w) (sym made) (sets (revived entry) (refl, refl, refl) (h entry e))
]
call-Effect p succeed w h = sets _ (refl, refl, refl) refl
call-Effect p (degrade reason cooldown) w h =
    sets (degraded_entry p reason cooldown w) (omega arith, refl, refl) refl
call-Effect p (kill reason cooldown) w h =
    sets (dead_entry p reason cooldown w) (omega arith, refl, refl) refl
call-Effect p (fail error) w h = elim (failure-cases p error w) [
  | inl e ↦
      subst (λ x. Effect p w x.1) (sym e)
        (sets (dead_entry p error default_dead_cooldown_ms w) (omega arith, refl, refl) refl)
  | inr e ↦
      subst (λ x. Effect p w x.1) (sym e)
        (sets (degraded_entry p error default_degraded_cooldown_ms w) (omega arith, refl, refl)
          refl)
]

-- Every stored entry stands under its own provider and is consistent.
abbrev pub IsWellFormed : HealthWorld → Type 0
IsWellFormed w =
    (q : String) (e : ProviderHealthEntry)
    → get_provider_health q w ≡ some e
    → (e.provider ≡ q) × IsConsistent e

Effect-IsWellFormed :
    (p : String) (w v : HealthWorld) → IsWellFormed w → Effect p w v → IsWellFormed v
Effect-IsWellFormed p w _ h idle q e there = h q e there
Effect-IsWellFormed p w _ h (sets new good own) q e there = elim (Bool-cases (p == q)) [
  | inl same ↦
      let is_new : new ≡ e = some-injective _ _ (
        sym
          (get-set_entry p q new w ∙ ap (λ b. if b then some new else get_provider_health q w) same)
        ∙ there) in
      (
        subst (λ x. x.provider ≡ q) is_new (own ∙ (eq_iff p q).0 same),
        subst IsConsistent is_new good,
      )
  | inr other ↦ h q e (
      sym
        (get-set_entry p q new w ∙ ap (λ b. if b then some new else get_provider_health q w) other)
      ∙ there)
]

Effect-others :
    (p q : String) (w v : HealthWorld)
    → (p == q) ≡ false
    → Effect p w v
    → get_provider_health q v ≡ get_provider_health q w
Effect-others p q w _ h idle = refl
Effect-others p q w _ h (sets e good own) =
    get-set_entry p q e w ∙ ap (λ b. if b then some e else get_provider_health q w) h

get-later :
    (q : String) (w : HealthWorld) (at : ℕ)
    → get_provider_health q (record w { clock = at }) ≡ get_provider_health q w
unfolding get_provider_health load_store
get-later q w at = elim (Option-cases w.file) [ inl e ↦ ground arith | inr (s, e) ↦ ground arith ]

later-IsWellFormed :
    (w : HealthWorld) (at : ℕ) → IsWellFormed w → IsWellFormed (record w { clock = at })
later-IsWellFormed w at h q e there = h q e (sym (get-later q w at) ∙ there)

-- From a well-formed store, any sequence of checks, successes, marks and failures, at any times,
-- leaves a well-formed one: every entry stands under its own provider, a healthy one has no
-- failures, no cooldown and no reason, a degraded one has at least one failure, a dead one at least
-- two, and both have a cooldown and a reason.
pub calls-IsWellFormed :
    (cs : List TimedCall) (w : HealthWorld) → IsWellFormed w → IsWellFormed (calls cs w)
calls-IsWellFormed [] w h = h
calls-IsWellFormed (c ∷ cs) w h =
    let v : HealthWorld = record w { clock = c.at } in
    let k = later-IsWellFormed w c.at h in
    calls-IsWellFormed cs (call c.provider c.what v) (
      Effect-IsWellFormed c.provider v (call c.provider c.what v) k
        (call-Effect c.provider c.what v (λ e there. (k c.provider e there).0)))

-- None of these calls is about the provider `q`.
abbrev pub AreOthers : String → List TimedCall → Type 0
AreOthers q [] = Unit
AreOthers q (c ∷ cs) = ((c.provider == q) ≡ false) × AreOthers q cs

-- From a well-formed store, calls about other providers leave a provider's entry as it is, the
-- checks that revive a dead provider included.
pub calls-others :
    (q : String) (cs : List TimedCall) (w : HealthWorld)
    → IsWellFormed w
    → AreOthers q cs
    → get_provider_health q (calls cs w) ≡ get_provider_health q w
calls-others q [] w h o = refl
calls-others q (c ∷ cs) w h (other, others) =
    let v : HealthWorld = record w { clock = c.at } in
    let k = later-IsWellFormed w c.at h in
    let effect = call-Effect c.provider c.what v (λ e there. (k c.provider e there).0) in
    calls-others q cs (call c.provider c.what v) (Effect-IsWellFormed c.provider v _ k effect)
      others
    ∙ Effect-others c.provider q v _ other effect
    ∙ get-later q w c.at
