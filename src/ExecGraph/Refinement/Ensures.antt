-- ===== src/ExecGraph/Refinement/Ensures.antt =====
-- Total correctness of a call: from a world with `P` it returns a value with `Q`, or throws and
-- leaves a world with `R`; one rule for each way to build a call.
use atlas_cli.Prelude.{◌≡◌, refl, Bool, true, false, Option, none, some, if◌then◌else◌}
use atlas_cli.Prelude.Action.{
  Result, ok, thrown, Action, pure, throw, gets, lift, or_throw, continue, ◌>>=◌,
}

abbrev pub After {ℓ} : {S E A : Type ℓ} → (A → S → Type ℓ) → (S → Type ℓ) → Result E A × S → Type ℓ
After Q R (ok a, s) = Q a s
After Q R (thrown e, s) = R s

pub record Ensures {ℓ} {S E A : Type ℓ} (P : S → Type ℓ) (Q : A → S → Type ℓ) (R : S → Type ℓ)
    (m : Action S E A) : Type ℓ where
  pub at : (s : S) → P s → After Q R (m s)

module _ {ℓ} {S E A : Type ℓ} {P : S → Type ℓ} {Q : A → S → Type ℓ} {R : S → Type ℓ} where
  pub Ensures-pure : (a : A) → ((s : S) → P s → Q a s) → Ensures {E = E} P Q R (pure a)
  unfolding pure
  Ensures-pure a h = record { at = h }

  pub Ensures-throw : (e : E) → ((s : S) → P s → R s) → Ensures P Q R (throw e)
  unfolding throw
  Ensures-throw e h = record { at = h }

  pub Ensures-gets : (f : S → A) → ((s : S) → P s → Q (f s) s) → Ensures {E = E} P Q R (gets f)
  unfolding gets
  Ensures-gets f h = record { at = h }

  pub Ensures-if :
      (b : Bool) (m n : Action S E A)
      → (b ≡ true → Ensures P Q R m)
      → (b ≡ false → Ensures P Q R n)
      → Ensures P Q R (if b then m else n)
  Ensures-if true m n hm hn = hm refl
  Ensures-if false m n hm hn = hn refl

  pub Ensures-or_throw :
      (o : Option A) (e : E)
      → ((a : A) → o ≡ some a → (s : S) → P s → Q a s)
      → ((s : S) → P s → R s)
      → Ensures P Q R (or_throw o e)
  unfolding or_throw
  Ensures-or_throw none e h t = record { at = t }
  Ensures-or_throw (some a) e h t = record { at = h a refl }

  pub Ensures-lift :
      (r : Result E A)
      → ((a : A) → r ≡ ok a → (s : S) → P s → Q a s)
      → ((s : S) → P s → R s)
      → Ensures P Q R (lift r)
  unfolding lift
  Ensures-lift (ok a) h t = record { at = h a refl }
  Ensures-lift (thrown e) h t = record { at = t }

module _ {ℓ} {S E A B : Type ℓ} {Q : A → S → Type ℓ} {T : B → S → Type ℓ} {R : S → Type ℓ} where
  continue-After :
      (r : Result E A) (s : S) (f : A → Action S E B)
      → After Q R (r, s)
      → ((a : A) → Ensures (Q a) T R (f a))
      → After T R (continue r f s)
  continue-After (ok a) s f h k = (k a).at s h
  continue-After (thrown e) s f h k = h

  pub Ensures-bind :
      {P : S → Type ℓ} (m : Action S E A) (f : A → Action S E B)
      → Ensures P Q R m
      → ((a : A) → Ensures (Q a) T R (f a))
      → Ensures P T R (m >>= f)
  unfolding ◌>>=◌
  Ensures-bind m f h k = record { at = λ s p. continue-After (m s).0 (m s).1 f (h.at s p) k }

module _ {ℓ} {S E A : Type ℓ} {Q T : A → S → Type ℓ} where
  After-weaken :
      (R : S → Type ℓ) (x : Result E A × S)
      → ((a : A) (s : S) → Q a s → T a s)
      → After Q R x
      → After T R x
  After-weaken R (ok a, s) f h = f a s h
  After-weaken R (thrown e, s) f h = h

  pub Ensures-weaken :
      {P R : S → Type ℓ} (m : Action S E A)
      → ((a : A) (s : S) → Q a s → T a s)
      → Ensures P Q R m
      → Ensures P T R m
  Ensures-weaken m f h = record { at = λ s p. After-weaken _ (m s) f (h.at s p) }

module _ {ℓ} {S E A : Type ℓ} {P : S → Type ℓ} {Q : A → S → Type ℓ} {R : S → Type ℓ} where
  pub Ensures-pre :
      {P' : S → Type ℓ} (m : Action S E A)
      → ((s : S) → P' s → P s)
      → Ensures P Q R m
      → Ensures P' Q R m
  Ensures-pre m f h = record { at = λ s p. h.at s (f s p) }

  -- What holds of the state before the call may choose the proof.
  pub Ensures-choose :
      (m : Action S E A) → ((s : S) → P s → (Ensures (λ s'. s' ≡ s) Q R m)) → Ensures P Q R m
  Ensures-choose m f = record { at = λ s p. (f s p).at s refl }

  -- A fact that does not depend on the state.
  pub Ensures-given :
      {F : Type ℓ} (m : Action S E A) → (F → Ensures P Q R m) → Ensures (λ s. F × P s) Q R m
  Ensures-given m f = record { at = λ s h. (f h.0).at s h.1 }

-- A call that keeps a property of the state, however it ends.
pub After-state {ℓ} :
    {S E A : Type ℓ} (R : S → Type ℓ) (x : Result E A × S) → After (λ a s. R s) R x → R x.1
After-state R (ok a, s) h = h
After-state R (thrown e, s) h = h
