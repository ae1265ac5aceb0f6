-- ===== src/Prelude/Action.antt =====
-- A call that reads and writes a state and may throw. What was written before a throw stays
-- written, so the state comes back beside the error too.
use mathlib.Core.Path.{◌≡◌, ap}
use mathlib.Core.Bool.{Bool, true, false}
use mathlib.Core.Option.{Option, none, some}

pub data Result {ℓ} (E A : Type ℓ) : Type ℓ where
  ok : A → Result E A
  thrown : E → Result E A

abbrev pub Action {ℓ} : Type ℓ → Type ℓ → Type ℓ → Type ℓ
Action S E A = S → Result E A × S

module _ {ℓ} {S E A : Type ℓ} where
  unfoldable pub pure : A → Action S E A
  pure a s = (ok a, s)

  unfoldable pub throw : E → Action S E A
  throw e s = (thrown e, s)

  unfoldable pub gets : (S → A) → Action S E A
  gets f s = (ok (f s), s)

  -- a pure call that may throw
  unfoldable pub lift : Result E A → Action S E A
  lift r s = (r, s)

  -- `if (!o) throw e`
  unfoldable pub or_throw : Option A → E → Action S E A
  unfolding pure throw
  or_throw none e = throw e
  or_throw (some a) e = pure a

-- `if (b) throw e;`
unfoldable pub throw_if {ℓ} : {S E : Type ℓ} → Bool → E → Action S E Unit
throw_if true e s = (thrown e, s)
throw_if false e s = (ok tt, s)

module _ {ℓ} {S E A B : Type ℓ} where
  abbrev pub continue : Result E A → (A → Action S E B) → Action S E B
  continue (ok a) f s = f a s
  continue (thrown e) f s = (thrown e, s)

  infixl 5 ◌>>=◌ ◌>>◌
  -- Opening this opens the other ways to build a call.
  unfoldable pub ◌>>=◌ : Action S E A → (A → Action S E B) → Action S E B
  unfolding pure throw gets lift or_throw throw_if
  ◌>>=◌ m f s = let (r, s') = m s in continue r f s'

  abbrev pub ◌>>◌ : Action S E A → Action S E B → Action S E B
  m >> k = m >>= λ _. k

  -- A call that returns hands its value and its state on.
  pub bind-ok :
      (m : Action S E A) (f : A → Action S E B) (s s' : S) (a : A)
      → m s ≡ (ok a, s')
      → (m >>= f) s ≡ f a s'
  unfolding ◌>>=◌
  bind-ok m f s s' a e = ap (λ x. continue x.0 f x.1) e
