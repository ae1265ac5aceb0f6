-- ===== src/ExecGraph/Ledger/Lookup.antt =====
-- Tasks found by their idempotency key, as `appendEvent` of src/exec-graph/ledger.ts looks for
-- them.
use text.Mathlib.TextEquality.{eq_iff}
use text.Mathlib.TextPositions.{eq_refl}
use atlas_cli.Prelude.{
  String, ◌≡◌, subst, Bool, true, none, some, [], ◌∷◌, find, arith, if◌then◌else◌, ◌==◌, string_eq,
  Bool-cases, inl, inr,
}
use atlas_cli.Prelude.Dict.{Dict, get, put, values}
use atlas_cli.ExecGraph.Contracts.{Task, task_created}
use atlas_cli.ExecGraph.Ledger.{GraphSnapshot, find_by_key, apply_payload, is_safe_key}
use atlas_cli.ExecGraph.Ledger.Keyed.{Keyed}

module _ {ℓ} {V : Type ℓ} (p : V → Bool) where
  -- A value that is found in a keyed map stands under its id.
  get-find :
      (id : V → String) (m : Dict V) (v : V)
      → Keyed id m
      → find p (values m) ≡ some v
      → get m (id v) ≡ some v
  unfolding get
  get-find id [] v k h = cc
  get-find id ((j, w) ∷ m) v k h = elim (Bool-cases (p w)) [
    | inl hit ↦
        let same : w ≡ v = cc (rw hit at h) in
        subst (λ x. (if j == id x then some w else get m (id x)) ≡ some x) same
          (rw (k.0, eq_refl j))
    | inr miss ↦
        let there = get-find id m v k.3 (rw miss at h) in
        ground (arith, there, k.2, eq_iff j (id v))
  ]

  find-put :
      (m : Dict V) (k : String) (v : V)
      → find p (values m) ≡ none
      → p v ≡ true
      → find p (values (put m k v)) ≡ some v
  unfolding put
  find-put [] k v h t = rw t
  find-put ((j, w) ∷ m) k v h t = elim (Bool-cases (p w)) [
    | inl hit ↦ cc (rw hit at h)
    | inr miss ↦ elim (Bool-cases (j == k)) [
      | inl same ↦ rw (same, t)
      | inr other ↦ rw (other, miss) (find-put m k v (rw miss at h) t)
    ]
  ]

pub get-found :
    (g : GraphSnapshot) (key : String) (old : Task)
    → Keyed (λ t. t.id) g.tasks
    → find_by_key g key ≡ some old
    → get g.tasks old.id ≡ some old
unfolding find_by_key
get-found g key old k f = get-find (λ t. t.idempotency_key == key) (λ t. t.id) g.tasks old k f

-- A task that is added is the one that is found by its key.
pub found-created :
    (g : GraphSnapshot) (t : Task)
    → is_safe_key t.id ≡ true
    → find_by_key g t.idempotency_key ≡ none
    → find_by_key (apply_payload g (task_created t)) t.idempotency_key ≡ some t
unfolding find_by_key apply_payload
found-created g t safe f =
    rw safe (find-put (λ u. u.idempotency_key == t.idempotency_key) g.tasks t.id t f (eq_refl _))
