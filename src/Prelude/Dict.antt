-- ===== src/Prelude/Dict.antt =====
-- A JavaScript object used as a map from strings, as the list of its own properties in the order
-- of their insertion. Inherited properties are not looked up.
use Prim.Native.String.{String}
use mathlib.Core.Path.{◌≡◌, refl, subst}
use mathlib.Core.Logic.{inl, inr}
use mathlib.Core.Option.{Option, none, some}
use mathlib.Core.List.{List, [], ◌∷◌, map}
use native.Mathlib.Omega.{arith}
use text.Mathlib.TextEquality.{eq_iff}
use text.Mathlib.TextPositions.{eq_refl}
use atlas_cli.Prelude.Tests.{◌==◌, string_eq, if◌then◌else◌, Bool-cases}
use atlas_cli.Prelude.Lists.{All}

abbrev pub Dict {ℓ} : Type ℓ → Type ℓ
Dict V = List (String × V)

module _ {ℓ} {V : Type ℓ} where
  -- `m[k]`, with `none` for `undefined`
  unfoldable pub get : Dict V → String → Option V
  get [] k = none
  get ((j, v) ∷ m) k = if j == k then some v else get m k

  -- `{ ...m, [k]: v }`: an old property keeps its place
  unfoldable pub put : Dict V → String → V → Dict V
  put [] k v = (k, v) ∷ []
  put ((j, w) ∷ m) k v = if j == k then (j, v) ∷ m else (j, w) ∷ put m k v

  -- `Object.values(m)`
  abbrev pub values : Dict V → List V
  values = map (λ e. e.1)

  pub get-put :
      (m : Dict V) (k j : String) (v : V) → get (put m k v) j ≡ (if k == j then some v else get m j)
  unfolding get put
  get-put [] k j v = refl
  get-put ((i, w) ∷ m) k j v = ground (arith, eq_iff k j, eq_iff i k, eq_iff i j, get-put m k j v)

  pub get-put_self : (m : Dict V) (k : String) (v : V) → get (put m k v) k ≡ some v
  get-put_self m k v = simp (get-put, eq_refl)

  -- Every value satisfies `P`.
  module _ {κ} (P : V → Type κ) where
    pub All-put :
        (m : Dict V) (k : String) (v : V) → All P (values m) → P v → All P (values (put m k v))
    unfolding put
    All-put [] k v h p = (p, tt)
    All-put ((j, w) ∷ m) k v h p = elim (Bool-cases (j == k)) [
      | inl same ↦ rw same (p, h.1)
      | inr other ↦ rw other (h.0, All-put m k v h.1 p)
    ]

    pub get-All : (m : Dict V) (k : String) (v : V) → All P (values m) → get m k ≡ some v → P v
    unfolding get
    get-All [] k v h e = cc
    get-All ((j, w) ∷ m) k v h e = elim (Bool-cases (j == k)) [
      | inl same ↦ subst P (cc (rw (same, get) at e)) h.0
      | inr other ↦ get-All m k v h.1 (rw (other, get) at e)
    ]
