-- ===== src/Atlas/InstanceLease/Exclusion.antt =====
-- Who is the writer under src/atlas/instance-lease.ts.
use text.Mathlib.TextEquality.{eq_iff}
use atlas_cli.Prelude.{
  ℕ, ◌+◌, ◌<◌, ◌≤◌, String, Bool, true, false, ◌&&◌, some, List, [], ◌∷◌, ◌≡◌, refl, sym, subst,
  arith, if◌then◌else◌, ◌==◌, ℕ_eq, string_eq, inl, inr, Bool-cases,
}
use atlas_cli.Atlas.InstanceLease.{
  readonly, InstanceLease, LeaseWorld, is_process_alive, holder, acquire_from,
  acquire_instance_lease, heartbeat_instance_lease, release_instance_lease,
}

-- A call by a process, and what is done between calls.
pub data LeaseCall : Type 0 where
  acquire : ℕ → LeaseCall
  heartbeat : LeaseCall
  release : Bool → LeaseCall

pub record TimedCall : Type 0 where
  pub instance_id : String
  pub pid : ℕ
  pub what : LeaseCall
  pub at : ℕ

abbrev pub call : TimedCall → LeaseWorld → LeaseWorld
call c w =
    let v : LeaseWorld = record w { clock = c.at } in
    elim c.what [
      | acquire ttl_ms ↦ (acquire_instance_lease c.instance_id ttl_ms c.pid v).1
      | heartbeat ↦ (heartbeat_instance_lease c.instance_id c.pid v).1
      | release unlinked ↦ release_instance_lease unlinked c.instance_id c.pid v
    ]

abbrev pub calls : List TimedCall → LeaseWorld → LeaseWorld
calls [] w = w
calls (c ∷ cs) w = calls cs (call c w)

-- The calls come while the lease is fresh: those of other instances before the last heartbeat is
-- `ttl` old, with a `ttl` at least as long, and the holder's own are heartbeats, with no gap of
-- `ttl`.
abbrev pub Fits : String → ℕ → String → LeaseCall → Type 0
Fits id ttl other (acquire ttl_ms) = ((other == id) ≡ false) × (ttl ≤ ttl_ms)
Fits id ttl other heartbeat = Unit
Fits id ttl other (release unlinked) = (other == id) ≡ false

abbrev pub IsTimelyCall : String → ℕ → ℕ → ℕ → TimedCall → Type 0
IsTimelyCall id pid ttl last c = (c.at < last + ttl) × Fits id ttl c.instance_id c.what

-- When the holder's heartbeat last was.
abbrev pub last_beat : String → ℕ → ℕ → TimedCall → ℕ
last_beat id pid last c = elim c.what [
  | acquire ttl_ms ↦ last
  | heartbeat ↦ if c.instance_id == id && c.pid == pid then c.at else last
  | release unlinked ↦ last
]

abbrev pub AreTimely : String → ℕ → ℕ → ℕ → List TimedCall → Type 0
AreTimely id pid ttl last [] = Unit
AreTimely id pid ttl last (c ∷ cs) =
    IsTimelyCall id pid ttl last c × AreTimely id pid ttl (last_beat id pid last c) cs

-- The instance holds the lease, with its last heartbeat at `last`.
pub record IsHeld (id : String) (pid last : ℕ) (w : LeaseWorld) : Type 0 where
  pub lease : InstanceLease
  pub there : w.file ≡ some lease
  pub by : lease.instance_id ≡ id
  pub process : lease.pid ≡ pid
  pub beat : lease.heartbeat_at ≡ some last
  pub alive : is_process_alive pid w ≡ true

abbrev pub IsOwnedBy : String → ℕ → LeaseWorld → Type 0
IsOwnedBy id pid w =
    (lease : InstanceLease) × (w.file ≡ some lease) × (lease.instance_id ≡ id) × (lease.pid ≡ pid)

-- Another instance that acquires while the lease is held and fresh is read-only, and changes
-- nothing.
pub refused :
    (id other : String) (pid last ttl other_pid : ℕ) (w : LeaseWorld)
    → IsHeld id pid last w
    → (other == id) ≡ false
    → w.clock < last + ttl
    → ((acquire_instance_lease other ttl other_pid w).0.mode ≡ readonly)
      × ((acquire_instance_lease other ttl other_pid w).1 ≡ w)
unfolding acquire_instance_lease acquire_from holder
refused id other pid last ttl other_pid w h o t =
    let there = h.there in
    let beat = h.beat in
    let process = h.process in
    let by = h.by in
    let alive = h.alive in
    (
      ground (arith, eq_iff h.lease.instance_id other, eq_iff other id),
      ground (arith, eq_iff h.lease.instance_id other, eq_iff other id),
    )

-- The clock is no part of the file.
tick :
    (id : String) (pid last at : ℕ) (w : LeaseWorld)
    → IsHeld id pid last w
    → IsHeld id pid last (record w { clock = at })
tick id pid last at w h = record {
  lease = h.lease;
  there = h.there;
  by = h.by;
  process = h.process;
  beat = h.beat;
  alive = h.alive;
}

unchanged :
    (id : String) (pid last : ℕ) (v w : LeaseWorld)
    → v ≡ w
    → IsHeld id pid last w
    → IsHeld id pid last v
unchanged id pid last v w e h = subst (IsHeld id pid last) (sym e) h

release-others :
    (unlinked : Bool) (id other : String) (pid last other_pid : ℕ) (w : LeaseWorld)
    → IsHeld id pid last w
    → (other == id) ≡ false
    → release_instance_lease unlinked other other_pid w ≡ w
unfolding release_instance_lease
release-others unlinked id other pid last other_pid w h o =
    let there = h.there in
    let by = h.by in ground (arith, eq_iff h.lease.instance_id other, eq_iff other id)

heartbeat-others :
    (id other : String) (pid last other_pid : ℕ) (w : LeaseWorld)
    → IsHeld id pid last w
    → (other == id && other_pid == pid) ≡ false
    → (heartbeat_instance_lease other other_pid w).1 ≡ w
unfolding heartbeat_instance_lease
heartbeat-others id other pid last other_pid w h o =
    let there = h.there in
    let by = h.by in
    let process = h.process in ground (arith, eq_iff h.lease.instance_id other, eq_iff other id)

heartbeat-own :
    (id other : String) (pid last other_pid : ℕ) (w : LeaseWorld) (h : IsHeld id pid last w)
    → (other == id && other_pid == pid) ≡ true
    → (heartbeat_instance_lease other other_pid w).1
      ≡ record w { file = some (record h.lease { heartbeat_at = some w.clock }) }
unfolding heartbeat_instance_lease
heartbeat-own id other pid last other_pid w h o =
    let there = h.there in
    let by = h.by in
    let process = h.process in ground (arith, eq_iff h.lease.instance_id other, eq_iff other id)

call-IsHeld :
    (id : String) (pid last ttl : ℕ) (c : TimedCall) (w : LeaseWorld)
    → IsHeld id pid last w
    → IsTimelyCall id pid ttl last c
    → IsHeld id pid (last_beat id pid last c) (call c w)
call-IsHeld id pid last ttl c w h (soon, fits) = by_call c.what fits
  where
    v : LeaseWorld
    v = record w { clock = c.at }

    k : IsHeld id pid last v
    k = tick id pid last c.at w h

    by_call :
        (what : LeaseCall)
        → Fits id ttl c.instance_id what
        → IsHeld id pid
            (last_beat id pid last (record c { what = what }))
            (call (record c { what = what }) w)
    by_call (acquire ttl_ms) (other, long) =
        unchanged id pid last _ v
          (refused id c.instance_id pid last ttl_ms c.pid v k other (omega (arith, soon, long))).1 k
    by_call heartbeat _ = elim (Bool-cases (c.instance_id == id && c.pid == pid)) [
      | inl own ↦
          subst
            (λ b.
              IsHeld id pid (if b then c.at else last)
                (heartbeat_instance_lease c.instance_id c.pid v).1)
            (sym own)
            (subst (IsHeld id pid c.at)
              (sym (heartbeat-own id c.instance_id pid last c.pid v k own))
              (record {
                lease = record k.lease { heartbeat_at = some c.at };
                there = refl;
                by = k.by;
                process = k.process;
                beat = refl;
                alive = k.alive;
              }))
      | inr other ↦
          subst
            (λ b.
              IsHeld id pid (if b then c.at else last)
                (heartbeat_instance_lease c.instance_id c.pid v).1)
            (sym other)
            (unchanged id pid last _ v (heartbeat-others id c.instance_id pid last c.pid v k other)
              k)
    ]
    by_call (release unlinked) other =
        unchanged id pid last _ v
          (release-others unlinked id c.instance_id pid last c.pid v k other) k

abbrev pub last_beats : String → ℕ → ℕ → List TimedCall → ℕ
last_beats id pid last [] = last
last_beats id pid last (c ∷ cs) = last_beats id pid (last_beat id pid last c) cs

calls-IsHeld :
    (id : String) (pid last ttl : ℕ) (cs : List TimedCall) (w : LeaseWorld)
    → IsHeld id pid last w
    → AreTimely id pid ttl last cs
    → IsHeld id pid (last_beats id pid last cs) (calls cs w)
calls-IsHeld id pid last ttl [] w h t = h
calls-IsHeld id pid last ttl (c ∷ cs) w h (first, rest) =
    calls-IsHeld id pid (last_beat id pid last c) ttl cs (call c w)
      (call-IsHeld id pid last ttl c w h first) rest

-- As long as the process of the instance that holds the lease is alive and its heartbeats come less
-- than `ttl` apart, the lease stays with it through any acquires, heartbeats and releases of other
-- instances whose own `ttl` is no shorter; and the next such acquire is read-only and writes
-- nothing.
pub writer_is_alone :
    (id other : String) (pid last ttl other_ttl other_pid at : ℕ) (cs : List TimedCall)
    (w : LeaseWorld)
    → IsHeld id pid last w
    → AreTimely id pid ttl last cs
    → (other == id) ≡ false
    → at < last_beats id pid last cs + ttl
    → ttl ≤ other_ttl
    → IsHeld id pid (last_beats id pid last cs) (calls cs w)
      × ((acquire_instance_lease other other_ttl other_pid
            (record (calls cs w) { clock = at })).0.mode
          ≡ readonly)
      × ((acquire_instance_lease other other_ttl other_pid (record (calls cs w) { clock = at })).1
          ≡ record (calls cs w) { clock = at })
writer_is_alone id other pid last ttl other_ttl other_pid at cs w h t o soon long =
    let k = calls-IsHeld id pid last ttl cs w h t in
    let (mode, same) =
      refused id other pid (last_beats id pid last cs) other_ttl other_pid _ (tick id pid _ at _ k)
        o (omega (arith, soon, long)) in
    (k, mode, same)
