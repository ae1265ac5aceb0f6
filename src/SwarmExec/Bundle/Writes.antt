-- ===== src/SwarmExec/Bundle/Writes.antt =====
-- What writing a bundle leaves, where the disk may refuse any of the writes.
use text.Mathlib.TextEquality.{eq_iff}
use atlas_cli.Prelude.{
  ℕ, zero, suc, ◌+◌, ◌≤◌, ◌<◌, String, Option, some, ◌≡◌, ◌≢◌, refl, sym, ap, subst, ◌∙◌, arith,
  or_else, Bool-cases, inl, inr, ◌==◌, string_eq,
}
use atlas_cli.Prelude.Dict.{Dict, get, put, get-put, get-put_self}
use atlas_cli.Prelude.Action.{Result, ok, thrown}
use atlas_cli.ExecGraph.Refinement.Ensures.{After, Ensures, Ensures-pure, Ensures-bind, Ensures-pre}
use atlas_cli.SwarmExec.Bundle.{
  RunBundleInput, RunDir, json, RunStore, empty_dir, BundlePlatform, WrittenBundle, StoreAct,
  dir_at, write_atomic, artifact_filenames, bundle_of, run_dir, write_artifacts, written_of,
  write_run_bundle, read_bundle, WriteFailure, complete_bundle,
}

-- A directory of the store after `used` writes to `dir`, which have made it `d`.
record Reached (start : RunStore) (dir : String) (d : RunDir) (used : ℕ) (s : RunStore)
    : Type 0 where
  there : dir_at s dir ≡ d
  others : (other : String) → other ≢ dir → dir_at s other ≡ dir_at start other
  room : s.room + used ≡ start.room

-- The store after a write that failed: no bundle has changed.
record Stopped (start : RunStore) (dir : String) (s : RunStore) : Type 0 where
  bundle : (dir_at s dir).bundle ≡ (dir_at start dir).bundle
  others : (other : String) → other ≢ dir → dir_at s other ≡ dir_at start other
  small : start.room < 7

-- What the artifacts of an input make of a directory.
abbrev with_artifacts : RunBundleInput → RunDir → RunDir
with_artifacts input d = record d {
  result = some input.result;
  trace = some input.trace;
  provider_health = some input.provider_health;
  evidence_manifest = some (input.evidence_tokens, artifact_filenames);
  responder_summary = some input.responders;
}

-- A complete run is in its six files.
abbrev pub whole : RunBundleInput → RunDir → RunDir
whole input d = record (with_artifacts input d) { bundle = json (bundle_of input) }

get-put_other : (m : Dict RunDir) (k j : String) (v : RunDir) → j ≢ k → get (put m k v) j ≡ get m j
get-put_other m k j v apart = get-put m k j v ∙ elim (Bool-cases (k == j)) [
  | inl same ↦ absurd (apart (sym ((eq_iff k j).0 same)))
  | inr other ↦ ground (arith, other)
]

module _ (start : RunStore) (dir : String) where
  abbrev Step : {A : Type 0} → RunDir → RunDir → ℕ → StoreAct A → Type 0
  Step d d' used m =
      Ensures (Reached start dir d used) (λ a s. Reached start dir d' (suc used) s)
        (Stopped start dir) m

  written :
      (d : RunDir) (used : ℕ) (change : RunDir → RunDir)
      → used ≤ 6
      → d.bundle ≡ (dir_at start dir).bundle
      → (runs : Dict RunDir) (room : ℕ)
      → Reached start dir d used (record { runs = runs; room = room })
      → After
          (λ a s. Reached start dir (change d) (suc used) s)
          (Stopped start dir)
          (write_atomic dir change (record { runs = runs; room = room }))
  unfolding write_atomic dir_at
  written d used change few same runs zero h = record {
    bundle = ap (λ x. x.bundle) h.there ∙ same;
    others = h.others;
    small = omega (arith, h.room);
  }
  written d used change few same runs (suc n) h = record {
    there = rw (get-put_self runs dir) (ap change h.there);
    others = λ other apart.
        ap (λ o. or_else o empty_dir) (get-put_other runs dir other _ apart) ∙ h.others other apart;
    room = omega (arith, h.room);
  }

  write_atomic-Step :
      (d : RunDir) (used : ℕ) (change : RunDir → RunDir)
      → used ≤ 6
      → d.bundle ≡ (dir_at start dir).bundle
      → Step d (change d) used (write_atomic dir change)
  write_atomic-Step d used change few same = record {
    at = λ s h. written d used change few same s.runs s.room h;
  }

  write_artifacts-Ensures :
      (input : RunBundleInput)
      → let d = dir_at start dir in
        Ensures
          (Reached start dir d 1)
          (λ a s. Reached start dir (with_artifacts input d) 6 s)
          (Stopped start dir)
          (write_artifacts dir input)
  unfolding write_artifacts
  write_artifacts-Ensures input =
      Ensures-bind _ _ (write_atomic-Step _ 1 _ (omega arith) refl) λ u1.
        Ensures-bind _ _ (write_atomic-Step _ 2 _ (omega arith) refl) λ u2.
          Ensures-bind _ _ (write_atomic-Step _ 3 _ (omega arith) refl) λ u3.
            Ensures-bind _ _ (write_atomic-Step _ 4 _ (omega arith) refl)
              λ u4. write_atomic-Step _ 5 _ (omega arith) refl

module _ ⦃bp : BundlePlatform⦄ (root : Option String) (input : RunBundleInput)
    (start : RunStore) where
  begun : (dir : String) → Reached start dir (dir_at start dir) 0 start
  begun dir = record { there = refl; others = λ other apart. refl; room = omega arith }

  write_run_bundle-Ensures :
      let dir = run_dir root input.run_id in
      Ensures
        (λ s. s ≡ start)
        (λ w s.
          (w ≡ written_of root input) × Reached start dir (whole input (dir_at start dir)) 7 s)
        (Stopped start dir)
        (write_run_bundle root input)
  unfolding write_run_bundle
  write_run_bundle-Ensures =
      let dir = run_dir root input.run_id in
      Ensures-bind _ _
        (Ensures-pre _ (λ s e. subst (Reached start dir (dir_at start dir) 0) (sym e) (begun dir))
          (write_atomic-Step start dir (dir_at start dir) 0 (λ d. d) (omega arith) refl))
        λ u1. Ensures-bind _ _ (write_artifacts-Ensures start dir input) λ u2.
          Ensures-bind _ _ (write_atomic-Step start dir _ 6 _ (omega arith) refl)
            λ u3. Ensures-pure _ (λ s h. (refl, h))

  landed :
      (x : Result WriteFailure WrittenBundle × RunStore)
      → let dir = run_dir root input.run_id in
        After
          (λ w t.
            (w ≡ written_of root input) × Reached start dir (whole input (dir_at start dir)) 7 t)
          (Stopped start dir)
          x
        → After
            (λ w t. (w ≡ written_of root input) × (dir_at t dir ≡ whole input (dir_at start dir)))
            (λ t.
              (read_bundle root input.run_id t ≡ read_bundle root input.run_id start)
              × (start.room < 7))
            x
          × ((other : String) → other ≢ dir → dir_at x.1 other ≡ dir_at start other)
  unfolding read_bundle
  landed (ok w, t) h = ((h.0, h.1.there), h.1.others)
  landed (thrown e, t) h = ((ap complete_bundle h.bundle, h.small), h.others)

  -- Where the write returns, the six files of the run's directory are those of the input. Where it
  -- throws, the disk did not take seven writes, and what is read of the run's bundle is what was
  -- read before. No other directory changes either way.
  pub write_run_bundle_lands_last :
      let dir = run_dir root input.run_id in
      let r = write_run_bundle root input start in
      After
        (λ w t. (w ≡ written_of root input) × (dir_at t dir ≡ whole input (dir_at start dir)))
        (λ t.
          (read_bundle root input.run_id t ≡ read_bundle root input.run_id start)
          × (start.room < 7))
        r
      × ((other : String) → other ≢ dir → dir_at r.1 other ≡ dir_at start other)
  write_run_bundle_lands_last =
      landed (write_run_bundle root input start) (write_run_bundle-Ensures.at start refl)
