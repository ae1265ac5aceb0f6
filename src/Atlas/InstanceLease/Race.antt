-- ===== src/Atlas/InstanceLease/Race.antt =====
-- Two acquires of src/atlas/instance-lease.ts at the same time, each of which reads the lease and
-- then writes it.
use atlas_cli.Prelude.{
  ℕ, ◌<◌, String, false, true, Option, none, some, ◌≡◌, refl, sym, ap, subst, ◌∙◌, arith, ◌==◌,
  string_eq,
}
use atlas_cli.Atlas.InstanceLease.{
  writer, readonly, InstanceLease, InstanceLeaseResult, LeaseWorld, is_process_alive, own_start,
  holder, acquire_from, acquire_instance_lease,
}
use atlas_cli.Atlas.InstanceLease.Exclusion.{IsHeld, IsOwnedBy, refused}

-- What an acquire answers and writes that has read a lease which holds it up in nothing.
abbrev granted : Option InstanceLease → String → ℕ → LeaseWorld → InstanceLeaseResult × LeaseWorld
granted existing id pid w = (
  record { mode = writer; instance_id = id; reason = none },
  record w {
    file = some (record {
      instance_id = id;
      pid = pid;
      started_at = own_start existing id w.clock;
      heartbeat_at = some w.clock;
    });
  },
)

acquire_from-free :
    (existing : Option InstanceLease) (id : String) (ttl pid : ℕ) (w : LeaseWorld)
    → holder existing id ttl w ≡ none
    → acquire_from existing id ttl pid w ≡ granted existing id pid w
unfolding acquire_from
acquire_from-free existing id ttl pid w e = rw (e, acquire_from)

-- Who holds an instance up depends on the clock and the processes, not on the file as it is later.
holder_by_read :
    (existing file : Option InstanceLease) (id : String) (ttl : ℕ) (w : LeaseWorld)
    → holder existing id ttl (record w { file = file }) ≡ holder existing id ttl w
unfolding holder
holder_by_read none file id ttl w = refl
holder_by_read (some existing) file id ttl w = refl

-- The read of the lease and its write are two steps. Where the lease that is read holds neither of
-- two different instances up, and the process of the first is alive: the first is told that it is
-- the writer and has the lease; if the second has read before that write, it is told so too, and
-- its lease is the one that stays; if it reads after it, at the same time, with any ttl but zero,
-- it is read-only and the first keeps the lease.
pub two_writers :
    (first second : String) (ttl ttl' pid pid' : ℕ) (w : LeaseWorld)
    → holder w.file first ttl w ≡ none
    → holder w.file second ttl' w ≡ none
    → (second == first) ≡ false
    → is_process_alive pid w ≡ true
    → 0 < ttl'
    → let (answer, v) = acquire_from w.file first ttl pid w in
      let (raced, u) = acquire_from w.file second ttl' pid' v in
      let (late, u') = acquire_instance_lease second ttl' pid' v in
      ((answer.mode ≡ writer) × IsOwnedBy first pid v)
      × ((raced.mode ≡ writer) × IsOwnedBy second pid' u)
      × ((late.mode ≡ readonly) × (u' ≡ v))
two_writers first second ttl ttl' pid pid' w free free' other alive long =
    let v = (granted w.file first pid w).1 in
    let raced =
      acquire_from-free w.file second ttl' pid' v
        (holder_by_read w.file v.file second ttl' w ∙ free') in
    let held : IsHeld first pid w.clock v = record {
      lease = _;
      there = refl;
      by = refl;
      process = refl;
      beat = refl;
      alive = alive;
    } in
    let (mode, same) =
      refused first second pid w.clock ttl' pid' v held other (omega (arith, long)) in
    subst
      (λ x.
        ((x.0.mode ≡ writer) × IsOwnedBy first pid x.1)
        × (((acquire_from w.file second ttl' pid' x.1).0.mode ≡ writer)
            × IsOwnedBy second pid' (acquire_from w.file second ttl' pid' x.1).1)
        × (((acquire_instance_lease second ttl' pid' x.1).0.mode ≡ readonly)
            × ((acquire_instance_lease second ttl' pid' x.1).1 ≡ x.1)))
      (sym (acquire_from-free w.file first ttl pid w free))
      (
        (refl, (_, refl, refl, refl)),
        (
          ap (λ x. x.0.mode) raced,
          subst (λ x. IsOwnedBy second pid' x.1) (sym raced) (_, refl, refl, refl),
        ),
        (mode, same),
      )
