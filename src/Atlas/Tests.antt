-- ===== src/Atlas/Tests.antt =====
-- The guards of src/atlas at small inputs.
use atlas_cli.Prelude.{
  none, true, false, ◌<◌, ◌≤◌, ◌≡◌, ◌↔◌, ◌⊎◌, refl, none, some, List, [], ◌∷◌, arith, leb,
}
use atlas_cli.Prelude.Dict.{get}
use atlas_cli.Prelude.Regex.{test}
use atlas_cli.Atlas.ProviderHealth.{
  HealthWorld, failures_of, load_store, is_provider_healthy_for_routing, get_provider_health,
  mark_provider_dead, mark_provider_degraded, is_network_error, is_rate_error,
}
use atlas_cli.Atlas.ProviderHealth.Routing.{cooldown_routing}
use atlas_cli.Atlas.ProviderHealth.Entries.{TimedCall, check, fail, IsWellFormed}
use atlas_cli.Atlas.InstanceLease.{
  InstanceLease, LeaseWorld, readonly, writer, acquire_instance_lease, acquire_from, holder,
}
use atlas_cli.Atlas.InstanceLease.Exclusion.{IsHeld, IsOwnedBy, writer_is_alone}
use atlas_cli.Atlas.InstanceLease.Race.{two_writers}
use atlas_cli.Atlas.InstanceLease.Exclusion
use atlas_cli.Atlas.SpendPolicy.{
  SpendEnv, SpendState, allowed, enforce_spend_policy, is_paid_provider, paid_allowed,
  daily_token_cap,
}
use atlas_cli.Atlas.SpendPolicy.Gate.{GateCall, enforce_spend_policy-allowed_iff}

abbrev no_file : HealthWorld
no_file = record { file = none; clock = 1000 }

empty_store : IsWellFormed no_file
unfolding get_provider_health load_store get
empty_store q e h = cc

cooldown_routing_example :
    ((is_provider_healthy_for_routing "groq" 1500 (mark_provider_dead "groq" "401" 1000 no_file)).0
      ≡ leb 2000 1500)
    × ((is_provider_healthy_for_routing "groq" 1500
          (mark_provider_degraded "groq" "401" 1000 no_file)).0
        ≡ leb 2000 1500)
    × (2000 ≤ 1500
        → failures_of (
            get_provider_health "groq"
              (is_provider_healthy_for_routing "groq" 1500
                (mark_provider_dead "groq" "401" 1000 no_file)).1)
          ≡ 0)
cooldown_routing_example = cooldown_routing "groq" "401" 1000 1500 no_file

network_text : is_network_error "socket Timeout" ≡ true
unfolding is_network_error test
network_text = refl

other_text : is_rate_error "socket Timeout" ≡ false
unfolding is_rate_error test
other_text = refl

abbrev two_calls : List TimedCall
two_calls =
    record { provider = "groq"; what = fail "401"; at = 2000 }
    ∷ record { provider = "groq"; what = check 900000; at = 900000 }
    ∷ []

abbrev lease : InstanceLease
lease = record { instance_id = "a"; pid = 10; started_at = some 0; heartbeat_at = some 0 }

abbrev leased : LeaseWorld
leased = record { file = some lease; clock = 0; runs = λ pid. true }

abbrev lease_calls : List Exclusion.TimedCall
lease_calls =
    record { instance_id = "b"; pid = 11; what = Exclusion.acquire 60000; at = 10000 }
    ∷ record { instance_id = "a"; pid = 10; what = Exclusion.heartbeat; at = 20000 }
    ∷ []

writer_is_alone_example :
    IsHeld "a" 10 20000 (Exclusion.calls lease_calls leased)
    × ((acquire_instance_lease "b" 60000 11
          (record (Exclusion.calls lease_calls leased) { clock = 70000 })).0.mode
        ≡ readonly)
    × ((acquire_instance_lease "b" 60000 11
          (record (Exclusion.calls lease_calls leased) { clock = 70000 })).1
        ≡ record (Exclusion.calls lease_calls leased) { clock = 70000 })
writer_is_alone_example =
    writer_is_alone "a" "b" 10 0 60000 60000 11 70000 lease_calls leased
      (record { lease = lease; there = refl; by = refl; process = refl; beat = refl; alive = refl })
      ((omega arith, (refl, omega arith)), ((omega arith, tt), tt)) refl (omega arith) (omega arith)

abbrev unleased : LeaseWorld
unleased = record { file = none; clock = 0; runs = λ pid. true }

free_first : holder none "a" 60000 unleased ≡ none
unfolding holder
free_first = refl

free_second : holder none "b" 60000 unleased ≡ none
unfolding holder
free_second = refl

two_writers_example :
    let (answer, v) = acquire_from none "a" 60000 10 unleased in
    let (raced, u) = acquire_from none "b" 60000 11 v in
    let (late, u') = acquire_instance_lease "b" 60000 11 v in
    ((answer.mode ≡ writer) × IsOwnedBy "a" 10 v)
    × ((raced.mode ≡ writer) × IsOwnedBy "b" 11 u)
    × ((late.mode ≡ readonly) × (u' ≡ v))
two_writers_example =
    two_writers "a" "b" 60000 60000 10 11 unleased free_first free_second refl refl (omega arith)

abbrev env : SpendEnv
env = record {
  pause = none;
  pause_file = false;
  allow_paid = some " YES ";
  daily_token_cap_raw = some "1000";
  policy_cap = 500000;
  brain_queue_cap_raw = none;
  used = 1000;
  today = "2026-07-01";
}

abbrev start : SpendState
start = record { warned_date = ""; queue_day = ""; queue_count = 0; warnings = [] }

enforce_spend_policy-allowed_iff_example :
    (((enforce_spend_policy env "openai" "swarm" start).0 ≡ allowed) ↔ (
      (is_paid_provider "openai" ≡ false)
      ⊎ ((paid_allowed env ≡ true) × (1000 < daily_token_cap env))))
    × (((enforce_spend_policy env "openai" "swarm" start).1 ≡ start)
        ⊎ ((enforce_spend_policy env "openai" "swarm" start).0 ≡ allowed))
enforce_spend_policy-allowed_iff_example =
    enforce_spend_policy-allowed_iff env "openai" "swarm" start

abbrev free_calls : List GateCall
free_calls =
    record { env = env; provider = "groq"; caller = "x" }
    ∷ record { env = env; provider = "groq"; caller = "y" }
    ∷ []
