-- ===== src/ExecGraph/Refinement/Basics.antt =====
-- Calls that keep the files in step and the graph within reach, and the small ones among them.
use atlas_cli.Prelude.{ℕ, String, ◌≡◌, refl, sym, subst, Bool, true, false, Option, none}
use atlas_cli.Prelude.Action.{gets, pure, throw, throw_if, ◌>>◌, ◌>>=◌}
use atlas_cli.ExecGraph.Contracts.{NewLedgerEvent, Runtime, payload_schema}
use atlas_cli.ExecGraph.Transitions.{Failure, readonly_mode}
use atlas_cli.ExecGraph.Ledger.{GraphSnapshot, World, Act, duplicate_of, read_graph, append_event}
use atlas_cli.ExecGraph.Api.{assert_writable, draw, parsed, now_or}
use atlas_cli.ExecGraph.Spec.{Role, Change}
use atlas_cli.ExecGraph.Refinement.Ensures.{
  Ensures, Ensures-pure, Ensures-throw, Ensures-gets, Ensures-if, Ensures-bind, Ensures-choose,
  Ensures-pre,
}
use atlas_cli.ExecGraph.Refinement.Appends.{Reached, Holds, draw-Reached, append_event-Reached}

module _ ⦃rt : Runtime⦄ (role : Role) (start : GraphSnapshot) where
  abbrev pub Keeps : {A : Type 0} → Act A → Type 0
  Keeps m = Ensures (Reached role start) (λ a w. Reached role start w) (Reached role start) m

  pub Holds-self : (w : World) → Reached role start w → Holds role start (read_graph w) w
  Holds-self w h = record { here = h; reads = refl }

  pub Keeps-bind :
      {A B : Type 0} (m : Act A) (f : A → Act B)
      → Keeps m
      → ((a : A) → Keeps (f a))
      → Keeps (m >>= f)
  Keeps-bind m f h k = Ensures-bind m f h k

  pub Keeps-pure : {A : Type 0} (a : A) → Keeps (pure a)
  Keeps-pure a = Ensures-pure a (λ w h. h)

  pub Keeps-throw : {A : Type 0} (e : Failure) → Keeps (throw {A = A} e)
  Keeps-throw e = Ensures-throw e (λ w h. h)

  pub Keeps-gets : {A : Type 0} (f : World → A) → Keeps (gets f)
  Keeps-gets f = Ensures-gets f (λ w h. h)

  -- Behind a guard its test has failed.
  pub Keeps-throw_if :
      {A : Type 0} (b : Bool) (e : Failure) (m : Act A)
      → (b ≡ false → Keeps m)
      → Keeps (throw_if b e >> m)
  unfolding throw_if ◌>>=◌
  Keeps-throw_if true e m h = record { at = λ w r. r }
  Keeps-throw_if false e m h = h refl

  pub assert_writable-Keeps : Keeps assert_writable
  unfolding assert_writable
  assert_writable-Keeps = record {
    at = λ w h.
        (Ensures-if w.readonly _ _ (λ e. Keeps-throw readonly_mode) (λ e. Keeps-pure tt)).at w h;
  }

  pub now_or-Keeps : (ts : Option String) → Keeps (now_or ts)
  unfolding now_or
  now_or-Keeps ts = record { at = λ w h. h }

  pub draw-Keeps : (uuid : ℕ → String) (prefix : String) → Keeps (draw uuid prefix)
  unfolding draw
  draw-Keeps uuid prefix = record { at = λ w h. draw-Reached role start w _ h }

  pub parsed-Keeps : {A : Type 0} (valid : Bool) (a : A) → Keeps (parsed valid a)
  unfolding parsed
  parsed-Keeps true a = Keeps-pure a
  parsed-Keeps false a = Keeps-throw _

  -- An append of a payload that is a step of any graph without a duplicate of it.
  pub append_event-Keeps :
      (input : NewLedgerEvent)
      → ((g : GraphSnapshot)
          → duplicate_of g input.payload ≡ none
          → payload_schema input.payload ≡ true
          → Change role g input.payload)
      → Keeps (append_event input)
  append_event-Keeps input c = Ensures-choose _ λ w h.
      Ensures-pre _ (λ s e. subst (Holds role start (read_graph w)) (sym e) (Holds-self w h))
        (append_event-Reached role start (read_graph w) input (c (read_graph w)))
