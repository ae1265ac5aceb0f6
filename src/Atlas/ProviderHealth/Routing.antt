-- ===== src/Atlas/ProviderHealth/Routing.antt =====
-- When src/atlas/provider-health.ts lets a provider be chosen.
use text.Mathlib.TextPositions.{eq_refl}
use atlas_cli.Prelude.{
  ℕ, ◌+◌, ◌≤◌, ◌⊎◌, String, true, false, some, ◌≡◌, refl, sym, ap, subst, ◌∙◌, arith, if◌then◌else◌,
  leb, ◌==◌, string_eq, inl, inr, Bool-cases, Option-cases,
}
use atlas_cli.Prelude.Dict.{put, get-put, get-put_self}
use atlas_cli.Atlas.ProviderHealth.{
  degraded, dead, ProviderHealthEntry, HealthWorld, load_store, save_store, cooldown_active,
  failures_of, is_auth_error, is_rate_error, is_network_error, is_provider_healthy_for_routing,
  get_provider_health, mark_provider_degraded, mark_provider_dead, record_provider_failure,
  set_entry, revived, dead_entry, degraded_entry, default_dead_cooldown_ms,
  default_degraded_cooldown_ms,
}

-- What is stored under a provider, and that nothing else is touched.
pub get-set_entry :
    (p q : String) (e : ProviderHealthEntry) (w : HealthWorld)
    → get_provider_health q (set_entry p e w) ≡ (if p == q then some e else get_provider_health q w)
unfolding get_provider_health save_store load_store
get-set_entry p q e w = get-put (load_store w).providers p q e

-- A provider marked dead is refused until its cooldown has passed, and chosen from then on, with
-- its entry then cleared of failures; a provider marked degraded is refused and chosen at the same
-- times.
pub cooldown_routing :
    (p reason : String) (cooldown now : ℕ) (w : HealthWorld)
    → ((is_provider_healthy_for_routing p now (mark_provider_dead p reason cooldown w)).0
        ≡ leb (w.clock + cooldown) now)
      × ((is_provider_healthy_for_routing p now (mark_provider_degraded p reason cooldown w)).0
          ≡ leb (w.clock + cooldown) now)
      × ((w.clock + cooldown) ≤ now
          → failures_of (
              get_provider_health p
                (is_provider_healthy_for_routing p now (mark_provider_dead p reason cooldown w)).1)
            ≡ 0)
unfolding is_provider_healthy_for_routing mark_provider_dead mark_provider_degraded cooldown_active
    get_provider_health load_store save_store
cooldown_routing p reason cooldown now w =
    let store = (load_store w).providers in
    let killed = dead_entry p reason cooldown w in
    let dead_there = get-put_self store p killed in
    let degraded_there = get-put_self store p (degraded_entry p reason cooldown w) in
    let revived_there = get-put_self (put store p killed) p (revived killed) in
    (
      ground (arith, dead_there),
      ground (arith, degraded_there),
      λ h. ground (arith, h, dead_there, revived_there),
    )

-- A failure marks the provider dead or degraded.
pub failure-cases :
    (p error : String) (w : HealthWorld)
    → (record_provider_failure p error w
        ≡ (dead, mark_provider_dead p error default_dead_cooldown_ms w))
      ⊎ (record_provider_failure p error w
          ≡ (degraded, mark_provider_degraded p error default_degraded_cooldown_ms w))
unfolding record_provider_failure
failure-cases p error w = elim (Bool-cases (is_auth_error error)) [
  | inl auth ↦ inl (rw (auth, record_provider_failure) refl)
  | inr other ↦ elim (Bool-cases (is_rate_error error)) [
    | inl rate ↦ inr (rw (other, rate, record_provider_failure) refl)
    | inr another ↦ elim (Bool-cases (is_network_error error)) [
      | inl network ↦ elim (Bool-cases (leb 1 (failures_of (get_provider_health p w)))) [
        | inl again ↦ inl (rw (other, another, network, again, record_provider_failure) refl)
        | inr first ↦ inr (rw (other, another, network, first, record_provider_failure) refl)
      ]
      | inr unknown ↦ inr (rw (other, another, unknown, record_provider_failure) refl)
    ]
  ]
]

counted :
    (p : String) (e : ProviderHealthEntry) (w : HealthWorld)
    → 1 ≤ e.consecutive_failures
    → 1 ≤ failures_of (get_provider_health p (set_entry p e w))
counted p e w h =
    let there : get_provider_health p (set_entry p e w) ≡ some e =
      get-set_entry p p e w ∙ ap (λ b. if b then some e else get_provider_health p w) (eq_refl p) in
    subst (λ o. 1 ≤ failures_of o) (sym there) h

failure_counted :
    (p error : String) (w : HealthWorld)
    → 1 ≤ failures_of (get_provider_health p (record_provider_failure p error w).1)
unfolding mark_provider_dead mark_provider_degraded
failure_counted p error w = elim (failure-cases p error w) [
  | inl e ↦
      subst (λ x. 1 ≤ failures_of (get_provider_health p x.1)) (sym e)
        (counted p (dead_entry p error default_dead_cooldown_ms w) w (omega arith))
  | inr e ↦
      subst (λ x. 1 ≤ failures_of (get_provider_health p x.1)) (sym e)
        (counted p (degraded_entry p error default_degraded_cooldown_ms w) w (omega arith))
]

-- The clock is no part of the file.
later_health :
    (p : String) (w : HealthWorld) (later : ℕ)
    → failures_of (get_provider_health p (record w { clock = later }))
      ≡ failures_of (get_provider_health p w)
unfolding get_provider_health load_store
later_health p w later = elim (Option-cases w.file) [
  | inl e ↦ ground arith
  | inr (s, e) ↦ ground arith
]

escalated_by :
    (p error : String) (w : HealthWorld)
    → 1 ≤ failures_of (get_provider_health p w)
    → is_network_error error ≡ true
    → is_rate_error error ≡ false
    → (record_provider_failure p error w).0 ≡ dead
unfolding record_provider_failure
escalated_by p error w k n r = ground arith

-- Any failure followed by a network failure of the same provider that is no rate-limit failure,
-- with no other call of the store in between, marks it dead, however much later and whatever the
-- first failure was.
pub network_failure_escalates :
    (p first second : String) (later : ℕ) (w : HealthWorld)
    → is_network_error second ≡ true
    → is_rate_error second ≡ false
    → (record_provider_failure p second
        (record (record_provider_failure p first w).1 { clock = later })).0
      ≡ dead
network_failure_escalates p first second later w n r =
    let v = (record_provider_failure p first w).1 in
    escalated_by p second (record v { clock = later })
      (subst (λ x. 1 ≤ x) (sym (later_health p v later)) (failure_counted p first w)) n r
