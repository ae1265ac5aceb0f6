-- ===== src/Atlas/InstanceLease.antt =====
-- src/atlas/instance-lease.ts: the lease file that makes one Atlas process of a machine the writer.
-- A stored time is what `Date.parse` makes of its text, and `none` for NaN.
use atlas_cli.Prelude.{
  ℕ, ◌+◌, String, Bool, true, false, not, ◌&&◌, Option, none, some, if◌then◌else◌, ltb, ◌==◌, ℕ_eq,
  string_eq,
}
pub mod Exclusion
pub mod Race

pub data InstanceLeaseMode : Type 0 where
  writer readonly : InstanceLeaseMode

pub record InstanceLease : Type 0 where
  pub instance_id : String
  pub pid : ℕ
  pub started_at : Option ℕ
  pub heartbeat_at : Option ℕ

-- `reason` names the holder's `pid` and identifier, which its text is made of.
pub record InstanceLeaseResult : Type 0 where
  pub mode : InstanceLeaseMode
  pub instance_id : String
  pub reason : Option (ℕ × String)

-- The file, `none` where it is missing or is not JSON; the clock; whether `process.kill(pid, 0)`
-- finds a process.
pub record LeaseWorld : Type 0 where
  pub file : Option InstanceLease
  pub clock : ℕ
  pub runs : ℕ → Bool

abbrev pub is_process_alive : ℕ → LeaseWorld → Bool
is_process_alive pid w = ltb 0 pid && w.runs pid

abbrev pub is_lease_fresh : InstanceLease → ℕ → LeaseWorld → Bool
is_lease_fresh lease ttl_ms w = elim lease.heartbeat_at [
  | none ↦ false
  | some hb ↦ ltb w.clock (hb + ttl_ms)
]

-- The lease that another instance holds, if that one is alive and the lease is fresh.
unfoldable pub holder : Option InstanceLease → String → ℕ → LeaseWorld → Option InstanceLease
holder none instance_id ttl_ms w = none
holder (some existing) instance_id ttl_ms w =
    if not (existing.instance_id == instance_id)
      && (is_process_alive existing.pid w && is_lease_fresh existing ttl_ms w)
    then some existing
    else none

abbrev pub own_start : Option InstanceLease → String → ℕ → Option ℕ
own_start none instance_id now = some now
own_start (some existing) instance_id now =
    if existing.instance_id == instance_id then existing.started_at else some now

-- `acquireInstanceLease` behind its `readLease()`, by the process `pid`.
unfoldable pub acquire_from :
    Option InstanceLease → String → ℕ → ℕ → LeaseWorld → InstanceLeaseResult × LeaseWorld
unfolding holder
acquire_from existing instance_id ttl_ms pid w = elim (holder existing instance_id ttl_ms w) [
  | some other ↦ (
    record {
      mode = readonly;
      instance_id = instance_id;
      reason = some (other.pid, other.instance_id);
    },
    w,
  )
  | none ↦ (
    record { mode = writer; instance_id = instance_id; reason = none },
    record w {
      file = some (record {
        instance_id = instance_id;
        pid = pid;
        started_at = own_start existing instance_id w.clock;
        heartbeat_at = some w.clock;
      });
    },
  )
]

unfoldable pub acquire_instance_lease :
    String → ℕ → ℕ → LeaseWorld → InstanceLeaseResult × LeaseWorld
unfolding acquire_from
acquire_instance_lease instance_id ttl_ms pid w = acquire_from w.file instance_id ttl_ms pid w

abbrev is_own : InstanceLease → String → ℕ → Bool
is_own existing instance_id pid = existing.instance_id == instance_id && existing.pid == pid

unfoldable pub heartbeat_instance_lease : String → ℕ → LeaseWorld → Bool × LeaseWorld
heartbeat_instance_lease instance_id pid w = elim w.file [
  | none ↦ (false, w)
  | some existing ↦
      if is_own existing instance_id pid
      then (true, record w { file = some (record existing { heartbeat_at = some w.clock }) })
      else (false, w)
]

-- `unlinked` is whether the file could be removed; a failure is ignored.
unfoldable pub release_instance_lease : Bool → String → ℕ → LeaseWorld → LeaseWorld
release_instance_lease unlinked instance_id pid w = elim w.file [
  | none ↦ w
  | some existing ↦
      if is_own existing instance_id pid && unlinked then record w { file = none } else w
]

abbrev pub default_lease_ttl_ms : ℕ
default_lease_ttl_ms = 60000
