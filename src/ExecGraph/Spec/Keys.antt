-- ===== src/ExecGraph/Spec/Keys.antt =====
-- No two tasks of a graph have the same idempotency key.
use text.Mathlib.TextEquality.{eq_iff}
use atlas_cli.Prelude.{
  String, ◌≡◌, ◌≢◌, refl, sym, subst, ap, ◌∙◌, ◌⊎◌, inl, inr, none, some, [], ◌∷◌, find, Bool-cases,
  false, ◌==◌, string_eq, Bool,
}
use atlas_cli.Prelude.Dict.{Dict, get, values}
use atlas_cli.ExecGraph.Contracts.{Task, Payload, task_created, Runtime}
use atlas_cli.ExecGraph.Ledger.{GraphSnapshot, find_by_key}
use atlas_cli.ExecGraph.Ledger.Replay.{IsGraph}
use atlas_cli.ExecGraph.Spec.{Role, Changes, here, next}
use atlas_cli.ExecGraph.Spec.Preserves.{Changes-IsGraph}
use atlas_cli.ExecGraph.Spec.Origin.{Origin, kept, born, changed, attached, given, Change-Origin}

abbrev pub HasUniqueKeys : GraphSnapshot → Type 0
HasUniqueKeys g =
    (i j : String) (s t : Task)
    → get g.tasks i ≡ some s
    → get g.tasks j ≡ some t
    → s.idempotency_key ≡ t.idempotency_key
    → i ≡ j

-- A search that finds nothing passed over every value.
find-none {ℓ} :
    {V : Type ℓ} (p : V → Bool) (m : Dict V) (k : String) (v : V)
    → find p (values m) ≡ none
    → get m k ≡ some v
    → p v ≡ false
unfolding get
find-none p [] k v h at = cc
find-none p ((j, w) ∷ m) k v h at = elim (Bool-cases (p w)) [
  | inl hit ↦ cc (rw hit at h)
  | inr miss ↦ elim (Bool-cases (j == k)) [
    | inl same ↦ subst (λ x. p x ≡ false) (cc (rw (same, get) at at)) miss
    | inr other ↦ find-none p m k v (rw miss at h) (rw (other, get) at at)
  ]
]

pub fresh_key :
    (g : GraphSnapshot) (key id : String) (t : Task)
    → find_by_key g key ≡ none
    → get g.tasks id ≡ some t
    → t.idempotency_key ≢ key
unfolding find_by_key
fresh_key g key id t h at e =
    let miss = find-none (λ t. t.idempotency_key == key) g.tasks id t h at in
    cc (miss, (eq_iff t.idempotency_key key).1 e)

module _ ⦃rt : Runtime⦄ (role : Role) where
  -- What a step leaves under an id: the new task, or one with the key of the task that was there.
  abbrev Rooted : GraphSnapshot → Payload → String → Task → Type 0
  Rooted g p id t =
      ((p ≡ task_created t) × (t.id ≡ id) × (find_by_key g t.idempotency_key ≡ none))
      ⊎ ((old : Task) × (get g.tasks id ≡ some old) × (t.idempotency_key ≡ old.idempotency_key))

  rooted :
      (g : GraphSnapshot) (p : Payload) (id : String) (t : Task)
      → Origin role g p id t
      → Rooted g p id t
  rooted g p id t (kept at) = inr (t, at, refl)
  rooted g p id t (born n k a b) = inl (a, b, k)
  rooted g p id t (changed task tr at m e) = inr (task, at, ap (λ x. x.idempotency_key) e)
  rooted g p id t (attached task ev at e) = inr (task, at, ap (λ x. x.idempotency_key) e)
  rooted g p id t (given task owner at m e) = inr (task, at, ap (λ x. x.idempotency_key) e)

  created_injective : {s t : Task} → task_created s ≡ task_created t → s ≡ t
  created_injective e = cc

  unique_step :
      (g : GraphSnapshot) (p : Payload) (i j : String) (s t : Task)
      → HasUniqueKeys g
      → Rooted g p i s
      → Rooted g p j t
      → s.idempotency_key ≡ t.idempotency_key
      → i ≡ j
  unique_step g p i j s t u (inl a) (inl b) e =
      sym a.1 ∙ ap (λ x. x.id) (created_injective (sym a.0 ∙ b.0)) ∙ b.1
  unique_step g p i j s t u (inl a) (inr b) e =
      absurd (fresh_key g s.idempotency_key j b.0 a.2 b.1 (sym b.2 ∙ sym e))
  unique_step g p i j s t u (inr a) (inl b) e =
      absurd (fresh_key g t.idempotency_key i a.0 b.2 a.1 (sym a.2 ∙ e))
  unique_step g p i j s t u (inr a) (inr b) e = u i j a.0 b.0 a.1 b.1 (sym a.2 ∙ e ∙ b.2)

  pub Changes-HasUniqueKeys :
      {g h : GraphSnapshot} → IsGraph g → HasUniqueKeys g → Changes role g h → HasUniqueKeys h
  Changes-HasUniqueKeys v u here i j s t a b = u i j s t a b
  Changes-HasUniqueKeys v u (next {h = k} q c step) i j s t a b =
      let w = Changes-IsGraph role v c in
      unique_step k q i j s t (Changes-HasUniqueKeys v u c)
        (rooted k q i s (Change-Origin role k q i s w step a))
        (rooted k q j t (Change-Origin role k q j t w step b))
