-- ===== src/Atlas/ProviderHealth.antt =====
-- src/atlas/provider-health.ts. A stored time is what `Date.parse` makes of its text, in
-- milliseconds, and `none` for NaN.
use atlas_cli.Prelude.{
  ℕ, ◌+◌, ◌*◌, String, Bool, true, false, not, Option, none, some, List, [], ◌∷◌, if◌then◌else◌,
  leb, ltb, or_else,
}
use atlas_cli.Prelude.Regex.{test, caseless, any_of, sequence, optional, one, is_dot}
use atlas_cli.Prelude.Dict.{Dict, get, put, values}
pub mod Routing
pub mod Entries

pub data ProviderHealthState : Type 0 where
  healthy degraded dead : ProviderHealthState

abbrev pub Stamp : Type 0
Stamp = Option ℕ

pub record ProviderHealthEntry : Type 0 where
  pub provider : String
  pub state : ProviderHealthState
  pub updated_at : Stamp
  pub cooldown_until : Option Stamp
  pub reason : Option String
  pub consecutive_failures : ℕ

pub record ProviderHealthStore : Type 0 where
  pub updated_at : Stamp
  pub providers : Dict ProviderHealthEntry

-- The file, `none` where it is missing or is not JSON, and the clock.
pub record HealthWorld : Type 0 where
  pub file : Option ProviderHealthStore
  pub clock : ℕ

abbrev pub default_dead_cooldown_ms : ℕ
default_dead_cooldown_ms = 5 * 60 * 1000

abbrev pub default_degraded_cooldown_ms : ℕ
default_degraded_cooldown_ms = 60 * 1000

abbrev pub fail_threshold_dead : ℕ
fail_threshold_dead = 2

unfoldable pub load_store : HealthWorld → ProviderHealthStore
load_store w = or_else w.file (record { updated_at = some w.clock; providers = [] })

unfoldable pub save_store : ProviderHealthStore → HealthWorld → HealthWorld
save_store store w = record w { file = some (record store { updated_at = some w.clock }) }

unfoldable pub cooldown_active : ProviderHealthEntry → ℕ → Bool
cooldown_active entry now = elim entry.cooldown_until [
  | none ↦ false
  | some stamp ↦ elim stamp [ none ↦ false | some until ↦ ltb now until ]
]

-- `store.providers[provider] = entry; saveStore(store)`
abbrev pub set_entry : String → ProviderHealthEntry → HealthWorld → HealthWorld
set_entry provider entry w =
    let store = load_store w in
    save_store (record store { providers = put store.providers provider entry }) w

-- An entry that a check finds dead past its cooldown.
abbrev pub revived : ProviderHealthEntry → ProviderHealthEntry
revived entry = record entry {
  state = healthy;
  consecutive_failures = 0;
  cooldown_until = none;
  reason = none;
}

unfoldable pub is_provider_healthy_for_routing : String → ℕ → HealthWorld → Bool × HealthWorld
unfolding load_store save_store cooldown_active
is_provider_healthy_for_routing provider now w = elim (get (load_store w).providers provider) [
  | none ↦ (true, w)
  | some entry ↦ elim entry.state [
    | healthy ↦ (true, w)
    | degraded ↦ (not (cooldown_active entry now), w)
    | dead ↦
        if cooldown_active entry now
        then (false, w)
        else (true, set_entry provider (revived entry) w)
  ]
]

unfoldable pub get_provider_health : String → HealthWorld → Option ProviderHealthEntry
unfolding load_store
get_provider_health provider w = get (load_store w).providers provider

unfoldable pub list_provider_health : HealthWorld → List ProviderHealthEntry
unfolding load_store
list_provider_health w = values (load_store w).providers

abbrev pub failures_of : Option ProviderHealthEntry → ℕ
failures_of none = 0
failures_of (some entry) = entry.consecutive_failures

unfoldable pub mark_provider_healthy : String → HealthWorld → HealthWorld
unfolding load_store save_store
mark_provider_healthy provider w =
    set_entry provider
      (record {
        provider = provider;
        state = healthy;
        updated_at = some w.clock;
        cooldown_until = none;
        reason = none;
        consecutive_failures = 0;
      })
      w

abbrev pub degraded_entry : String → String → ℕ → HealthWorld → ProviderHealthEntry
degraded_entry provider reason cooldown_ms w = record {
  provider = provider;
  state = degraded;
  updated_at = some w.clock;
  cooldown_until = some (some (w.clock + cooldown_ms));
  reason = some reason;
  consecutive_failures = failures_of (get_provider_health provider w) + 1;
}

abbrev pub dead_entry : String → String → ℕ → HealthWorld → ProviderHealthEntry
dead_entry provider reason cooldown_ms w = record {
  provider = provider;
  state = dead;
  updated_at = some w.clock;
  cooldown_until = some (some (w.clock + cooldown_ms));
  reason = some reason;
  consecutive_failures = failures_of (get_provider_health provider w) + fail_threshold_dead;
}

unfoldable pub mark_provider_degraded : String → String → ℕ → HealthWorld → HealthWorld
unfolding load_store save_store get_provider_health
mark_provider_degraded provider reason cooldown_ms w =
    set_entry provider (degraded_entry provider reason cooldown_ms w) w

unfoldable pub mark_provider_dead : String → String → ℕ → HealthWorld → HealthWorld
unfolding load_store save_store get_provider_health
mark_provider_dead provider reason cooldown_ms w =
    set_entry provider (dead_entry provider reason cooldown_ms w) w

-- `/401|403|unauth|invalid.?api.?key/i`
pub is_auth_error : String → Bool
is_auth_error =
    let gap = optional (one is_dot) in
    test (
      any_of (
        caseless "401"
        ∷ caseless "403"
        ∷ caseless "unauth"
        ∷ sequence (caseless "invalid" ∷ gap ∷ caseless "api" ∷ gap ∷ caseless "key" ∷ [])
        ∷ []))

-- `/429|rate.?limit/i`
unfoldable pub is_rate_error : String → Bool
is_rate_error = test (
    any_of (
      caseless "429"
      ∷ sequence (caseless "rate" ∷ optional (one is_dot) ∷ caseless "limit" ∷ [])
      ∷ []))

-- `/timeout|timed out|ECONNREFUSED|ENOTFOUND|network/i`
unfoldable pub is_network_error : String → Bool
is_network_error = test (
    any_of (
      caseless "timeout"
      ∷ caseless "timed out"
      ∷ caseless "econnrefused"
      ∷ caseless "enotfound"
      ∷ caseless "network"
      ∷ []))

unfoldable pub record_provider_failure :
    String → String → HealthWorld → ProviderHealthState × HealthWorld
unfolding mark_provider_dead mark_provider_degraded get_provider_health
record_provider_failure provider error w =
    let to_dead : ProviderHealthState × HealthWorld =
      (dead, mark_provider_dead provider error default_dead_cooldown_ms w) in
    let to_degraded : ProviderHealthState × HealthWorld =
      (degraded, mark_provider_degraded provider error default_degraded_cooldown_ms w) in
    if is_auth_error error
    then to_dead
    else if is_rate_error error
    then to_degraded
    else if is_network_error error
    then if leb 1 (failures_of (get_provider_health provider w)) then to_dead else to_degraded
    else to_degraded
