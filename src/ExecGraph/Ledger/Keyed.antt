-- ===== src/ExecGraph/Ledger/Keyed.antt =====
-- The maps of a snapshot: each value stands under its own id, no id twice, and the array on disk
-- gives the map back.
use text.Mathlib.TextEquality.{eq_iff}
use atlas_cli.Prelude.{
  String, ◌≡◌, refl, sym, ap, ◌∙◌, inl, inr, true, false, none, some, [], ◌∷◌, ◌++◌, foldl, arith,
  ◌==◌, string_eq, Bool-cases,
}
use atlas_cli.Prelude.Dict.{Dict, get, put, values, get-put}
use atlas_cli.ExecGraph.Ledger.{is_safe_key, put_safe}
use mathlib.Core.List.{append_assoc, append-nil}

module _ {ℓ} {V : Type ℓ} (id : V → String) where
  abbrev pub Keyed : Dict V → Type ℓ
  Keyed [] = Unit
  Keyed ((k, v) ∷ m) = (id v ≡ k) × (is_safe_key k ≡ true) × (get m k ≡ none) × Keyed m

  -- No key of the second map is in the first.
  abbrev Apart : Dict V → Dict V → Type ℓ
  Apart acc [] = Unit
  Apart acc ((k, v) ∷ m) = (get acc k ≡ none) × Apart acc m

  put-absent : (m : Dict V) (k : String) (v : V) → get m k ≡ none → put m k v ≡ m ++ (k, v) ∷ []
  unfolding get put
  put-absent [] k v h = refl
  put-absent ((j, w) ∷ m) k v h = ground (arith, put-absent m k v)

  get-concat :
      (m : Dict V) (k j : String) (v : V)
      → get m j ≡ none
      → (k == j) ≡ false
      → get (m ++ (k, v) ∷ []) j ≡ none
  unfolding get
  get-concat [] k j v h e = ground arith
  get-concat ((i, w) ∷ m) k j v h e = ground (arith, get-concat m k j v)

  -- The key of a map's entry is another than one that the map does not have.
  Apart-concat :
      (acc m : Dict V) (k : String) (v : V)
      → Apart acc m
      → get m k ≡ none
      → Apart (acc ++ (k, v) ∷ []) m
  unfolding get
  Apart-concat acc [] k v a h = tt
  Apart-concat acc ((j, w) ∷ m) k v a h = elim (Bool-cases (j == k)) [
    | inl same ↦ absurd (cc (rw (same, get) at h))
    | inr other ↦ (
      get-concat acc k j v a.0 (ground (arith, eq_iff j k, eq_iff k j)),
      Apart-concat acc m k v a.1 (rw (other, get) at h),
    )
  ]

  fold-values :
      (acc m : Dict V) → Keyed m → Apart acc m → foldl (put_safe id) acc (values m) ≡ acc ++ m
  fold-values acc [] h a = sym (append-nil acc)
  fold-values acc ((k, v) ∷ m) h a =
      let step : put_safe id acc v ≡ acc ++ (k, v) ∷ [] = rw (h.0, h.1) (put-absent acc k v a.0) in
      ap (λ x. foldl (put_safe id) x (values m)) step
      ∙ fold-values (acc ++ (k, v) ∷ []) m h.3 (Apart-concat acc m k v a.1 h.2)
      ∙ append_assoc acc ((k, v) ∷ []) m

  Apart-nil : (m : Dict V) → Apart [] m
  unfolding get
  Apart-nil [] = tt
  Apart-nil ((k, v) ∷ m) = (refl, Apart-nil m)

  -- Reading the array that a keyed map was written as gives the map.
  pub fold-values-eq_self : (m : Dict V) → Keyed m → foldl (put_safe id) [] (values m) ≡ m
  fold-values-eq_self m h = fold-values [] m h (Apart-nil m)

  pub put-Keyed :
      (m : Dict V) (k : String) (v : V)
      → Keyed m
      → id v ≡ k
      → is_safe_key k ≡ true
      → Keyed (put m k v)
  unfolding get put
  put-Keyed [] k v h e s = (e, s, refl, tt)
  put-Keyed ((j, w) ∷ m) k v h e s = elim (Bool-cases (j == k)) [
    | inl same ↦ rw same (e ∙ sym ((eq_iff j k).0 same), h.1, h.2, h.3)
    | inr other ↦ rw other (
      h.0,
      h.1,
      rw (get-put m k j v) (ground (arith, eq_iff j k, eq_iff k j, h.2)),
      put-Keyed m k v h.3 e s,
    )
  ]

  -- What stands under a key has it for its id.
  pub get-id : (m : Dict V) (k : String) (v : V) → Keyed m → get m k ≡ some v → id v ≡ k
  unfolding get
  get-id [] k v h e = cc
  get-id ((j, w) ∷ m) k v h e = elim (Bool-cases (j == k)) [
    | inl same ↦ cc (h.0, (eq_iff j k).0 same, rw (same, get) at e)
    | inr other ↦ get-id m k v h.3 (rw (other, get) at e)
  ]
