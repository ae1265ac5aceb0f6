-- ===== src/Hands/Assist/Verbatim.antt =====
-- What a supervised run fills in.
use Prim.Native.String.{◌++◌ as ◌⊕◌}
use atlas_cli.Prelude.{
  string_eq, includes, ℕ, ◌+◌, Bool, true, false, not, ◌&&◌, ◌||◌, Option, none, some, List, [],
  ◌∷◌, ◌++◌, ◌≡◌, ◌↔◌, ◌⊎◌, inl, inr, ◌∙◌, ◌==◌, refl, sym, subst, ap, arith, Bool-cases,
  Option-cases, if◌then◌else◌, is_empty,
}
use atlas_cli.Hands.Contract.{
  BrowserAction, navigate, read_value, fill_field, select_option, browser_action_schema,
}
use atlas_cli.Hands.Assist.Pack.{
  FieldEntry, FieldType, text, select, AssistPlatform, denied_input_types, denied_autocomplete,
  validate_pack,
}
use atlas_cli.Hands.Assist.Capability.{Approvals, is_valid_capability, consume_capability}
use atlas_cli.Hands.Assist.Session.{
  RunAssistInput, FieldAnswer, PageElement, AssistEnv, is_field_denied, fill_action, read_back,
  fill_fields, filling_result, halted_at, AssistRun, AssistHaltReason, fill_mismatch,
  mutating_request, submit_attempt, consumed_capability, own_session, given_session, context_of,
  assist_with_pack, run_supervised_assist,
}
use atlas_cli.Hands.Assist.Approval.{in_foreground, turned_away, behind_gates}

-- What an approved field asks for: that its value, as it stands, is chosen where the field is a
-- select, and else typed in, after which the element next to the label is read.
abbrev pub entry_of : FieldEntry → List BrowserAction
entry_of f = elim f.type [
  | select ↦ select_option f.label f.value ∷ []
  | text ↦
      fill_field f.label f.value
      ∷ read_value (
          "[aria-label=\"" ⊕ f.label ⊕ "\"], label:has-text(\"" ⊕ f.label
          ⊕ "\") + input, label:has-text(\"" ⊕ f.label ⊕ "\") + textarea")
      ∷ []
]

abbrev pub entries_of : List FieldEntry → List BrowserAction
entries_of [] = []
entries_of (f ∷ fs) = entry_of f ++ entries_of fs

-- All that an approved pack lets a run do.
abbrev pub script : RunAssistInput → List BrowserAction
script input =
    if input.has_session
    then entries_of input.pack.fields
    else navigate input.pack.origin ∷ entries_of input.pack.fields

-- The loop's own actions, where it does not stop.
abbrev steps : List FieldEntry → List BrowserAction
steps [] = []
steps (f ∷ fs) = fill_action f ∷ (read_back f ++ steps fs)

fill_action-verbatim : (f : FieldEntry) → fill_action f ∷ read_back f ≡ entry_of f
fill_action-verbatim f = by_type f.type
  where
    by_type :
        (t : FieldType)
        → let g : FieldEntry = record f { type = t } in fill_action g ∷ read_back g ≡ entry_of g
    by_type select = refl
    by_type text = refl

steps-verbatim : (fs : List FieldEntry) → steps fs ≡ entries_of fs
steps-verbatim [] = refl
steps-verbatim (f ∷ fs) =
    ap (λ l. fill_action f ∷ (read_back f ++ l)) (steps-verbatim fs)
    ∙ ap (λ l. l ++ entries_of fs) (fill_action-verbatim f)

-- The first actions of a script.
abbrev pub IsStart : List BrowserAction → List BrowserAction → Type 0
IsStart actions whole = (rest : List BrowserAction) × (actions ++ rest ≡ whole)

IsStart-append : (xs as' bs : List BrowserAction) → IsStart as' bs → IsStart (xs ++ as') (xs ++ bs)
IsStart-append [] as' bs h = h
IsStart-append (x ∷ xs) as' bs h =
    let (rest, e) = IsStart-append xs as' bs h in (rest, ap (λ l. x ∷ l) e)

fill_fields-IsStart :
    (answers : ℕ → FieldAnswer) (i : ℕ) (fs : List FieldEntry)
    → IsStart (fill_fields answers i fs).actions (steps fs)
unfolding fill_fields
fill_fields-IsStart answers i [] = ([], refl)
fill_fields-IsStart answers i (f ∷ fs) = elim (Bool-cases (is_field_denied (answers i).element)) [
  | inl denied ↦ (steps (f ∷ fs), ground (arith, denied))
  | inr allowed ↦ elim (Bool-cases (browser_action_schema (fill_action f))) [
    | inr bad ↦ (steps (f ∷ fs), ground (arith, allowed, bad))
    | inl good ↦ elim (Bool-cases (answers i).fills) [
      | inr not_filled ↦ (read_back f ++ steps fs, ground (arith, allowed, good, not_filled))
      | inl filled ↦
          let (rest, e) =
            IsStart-append (read_back f) _ _ (fill_fields-IsStart answers (i + 1) fs) in
          (rest, ground (arith, allowed, good, filled, e))
    ]
  ]
]

-- The page was read, and what it has under the label is an input element with a type or an
-- autocomplete that is denied.
abbrev pub IsDeniedInput : Option PageElement → Type 0
IsDeniedInput none = ⊥
IsDeniedInput (some e) =
    (e.tag ≡ "input")
    × ((includes denied_input_types e.input_type ≡ true)
        ⊎ (includes denied_autocomplete e.autocomplete ≡ true))

not_denied_iff :
    (a b c : Bool)
    → ((if a then (if b then true else c) else false) ≡ false)
      ↔ ((a ≡ true) × ((b ≡ true) ⊎ (c ≡ true)) → ⊥)
not_denied_iff false b c = (λ h (x, y). cc, λ h. refl)
not_denied_iff true true c = (λ h x. cc, λ h. absurd (h (refl, inl refl)))
not_denied_iff true false true = (λ h x. cc, λ h. absurd (h (refl, inr refl)))
not_denied_iff true false false = (λ h (x, y). elim y [ inl z ↦ cc | inr z ↦ cc ], λ h. refl)

is_field_denied_iff : (o : Option PageElement) → (is_field_denied o ≡ false) ↔ (IsDeniedInput o → ⊥)
unfolding is_field_denied
is_field_denied_iff none = (λ h x. x, λ h. refl)
is_field_denied_iff (some e) =
    let typed = includes denied_input_types e.input_type in
    let completed = includes denied_autocomplete e.autocomplete in
    let same = string_eq.same_iff e.tag "input" in
    let shut = not_denied_iff (e.tag == "input") typed completed in
    (
      λ h (tag, either). shut.0 h (same.1 tag, either),
      λ h. shut.1 (λ (tag, either). h (same.0 tag, either)),
    )

-- No denied input was seen, the action that fills the field is one of the schema, and the driver
-- does not throw on it. That the page was read, or has the field, is not asked.
abbrev pub IsFilled : FieldAnswer → FieldEntry → Type 0
IsFilled answer f =
    (IsDeniedInput answer.element → ⊥)
    × (browser_action_schema (fill_action f) ≡ true)
    × (answer.fills ≡ true)

abbrev pub AllFilled : (ℕ → FieldAnswer) → ℕ → List FieldEntry → Type 0
AllFilled answers i [] = Unit
AllFilled answers i (f ∷ fs) = IsFilled (answers i) f × AllFilled answers (i + 1) fs

fill_fields-none_iff :
    (answers : ℕ → FieldAnswer) (i : ℕ) (fs : List FieldEntry)
    → ((fill_fields answers i fs).halt ≡ none) ↔ AllFilled answers i fs
unfolding fill_fields
fill_fields-none_iff answers i [] = (λ h. tt, λ h. refl)
fill_fields-none_iff answers i (f ∷ fs) =
    ground (arith, is_field_denied_iff (answers i).element, fill_fields-none_iff answers (i + 1) fs)

AllFilled-steps :
    (answers : ℕ → FieldAnswer) (i : ℕ) (fs : List FieldEntry)
    → AllFilled answers i fs
    → (fill_fields answers i fs).actions ≡ steps fs
unfolding fill_fields
AllFilled-steps answers i [] h = refl
AllFilled-steps answers i (f ∷ fs) h =
    let allowed = (is_field_denied_iff (answers i).element).1 h.0.0 in
    ground (arith, allowed, h.0, AllFilled-steps answers (i + 1) fs h.1)

module _ ⦃pl : AssistPlatform⦄ where
  -- The gates of a run: a foreground, a capability that is valid, and a pack that is.
  abbrev pub PassesGates : RunAssistInput → AssistEnv → Approvals → Type 0
  PassesGates input env s =
      (in_foreground input env ≡ true)
      × (is_valid_capability input.capability s ≡ true)
      × (validate_pack input.pack (context_of input) env.now ≡ none)

  pack-IsStart :
      (input : RunAssistInput) (env : AssistEnv)
      → let actions = (assist_with_pack input env).actions in
        (actions ≡ [])
        ⊎ ((validate_pack input.pack (context_of input) env.now ≡ none)
            × IsStart actions (script input))
  unfolding assist_with_pack own_session given_session
  pack-IsStart input env =
      let (rest, e) =
        subst (IsStart (fill_fields env.answers 0 input.pack.fields).actions)
          (steps-verbatim input.pack.fields)
          (fill_fields-IsStart env.answers 0 input.pack.fields) in
      elim (Option-cases (validate_pack input.pack (context_of input) env.now)) [
        | inr (error, bad) ↦ inl (ground (arith, bad))
        | inl good ↦ elim (Bool-cases input.has_session) [
          | inl given ↦ inr (good, (rest, ground (arith, good, given, e)))
          | inr own ↦ elim (Bool-cases env.launches) [
            | inr down ↦ inl (ground (arith, good, own, down))
            | inl up ↦ inr (good, (rest, ground (arith, good, own, up, e)))
          ]
        ]
      ]

  -- The driver of a run is given no action, or the run has passed its gates and the driver is given
  -- the first actions of the script of its pack: to open the origin, where the session is the run's
  -- own, and then for each field in order to choose or to type in its value as it stands under its
  -- label, a text field being read back after it.
  pub run_fills_verbatim :
      (input : RunAssistInput) (env : AssistEnv) (s : Approvals)
      → let actions = (run_supervised_assist input env s).0.actions in
        (actions ≡ []) ⊎ (PassesGates input env s × IsStart actions (script input))
  run_fills_verbatim input env s =
      elim (Bool-cases (in_foreground input env && is_valid_capability input.capability s)) [
        | inr barred ↦ inl (turned_away input env s barred)
        | inl through ↦
            let seen : in_foreground input env ≡ true = ground (arith, through) in
            let good : is_valid_capability input.capability s ≡ true = ground (arith, through) in
            subst
              (λ r. (r.actions ≡ []) ⊎ (PassesGates input env s × IsStart r.actions (script input)))
              (sym (behind_gates input env s seen good))
              (elim (pack-IsStart input env) [
                | inl nothing ↦ inl nothing
                | inr (valid, start) ↦ inr ((seen, good, valid), start)
              ])
      ]

-- The run returns, and says that it completed.
abbrev pub is_complete : AssistRun → Bool
is_complete run = elim run.result [ none ↦ false | some r ↦ r.completed ]

-- The run has a session: it was given one, or one can be launched and closed.
abbrev pub has_page : RunAssistInput → AssistEnv → Bool
has_page input env = input.has_session || (env.launches && env.closes)

module _ ⦃pl : AssistPlatform⦄ where
  pack-complete_iff :
      (input : RunAssistInput) (env : AssistEnv)
      → (is_complete (assist_with_pack input env) ≡ true) ↔ (
          (validate_pack input.pack (context_of input) env.now ≡ none)
          × (has_page input env ≡ true)
          × AllFilled env.answers 0 input.pack.fields)
  unfolding assist_with_pack own_session given_session filling_result halted_at
  pack-complete_iff input env = ground (arith, fill_fields-none_iff env.answers 0 input.pack.fields)

  barred_is_incomplete :
      (input : RunAssistInput) (env : AssistEnv) (s : Approvals)
      → (in_foreground input env && is_valid_capability input.capability s) ≡ false
      → is_complete (run_supervised_assist input env s).0 ≡ false
  unfolding run_supervised_assist halted_at
  barred_is_incomplete input env s h = ground (arith, h)

  -- A run returns that it completed exactly when it passes its gates, has a session, and for every
  -- field of its pack no input element with a denied type or autocomplete was seen under its label,
  -- the action that fills it passes the schema of actions, and the driver takes it without a throw.
  -- A field that the page does not have or that cannot be read, and an element that is no input, is
  -- not denied.
  pub run_completes_iff :
      (input : RunAssistInput) (env : AssistEnv) (s : Approvals)
      → (is_complete (run_supervised_assist input env s).0 ≡ true) ↔ (
          PassesGates input env s
          × (has_page input env ≡ true)
          × AllFilled env.answers 0 input.pack.fields)
  run_completes_iff input env s =
      elim (Bool-cases (in_foreground input env && is_valid_capability input.capability s)) [
        | inr barred ↦ (
          λ h. absurd (ground (arith, h, barred_is_incomplete input env s barred)),
          λ ((seen, good, valid), page, all). absurd (ground (arith, seen, good, barred)),
        )
        | inl through ↦
            let seen : in_foreground input env ≡ true = ground (arith, through) in
            let good : is_valid_capability input.capability s ≡ true = ground (arith, through) in
            let same = behind_gates input env s seen good in
            let pack = pack-complete_iff input env in
            (
              λ h.
                  let (valid, page, all) = pack.0 (subst (λ r. is_complete r ≡ true) same h) in
                  ((seen, good, valid), page, all),
              λ ((seen', good', valid), page, all).
                  subst (λ r. is_complete r ≡ true) (sym same) (pack.1 (valid, page, all)),
            )
      ]

-- The halts that the documentation speaks of and that no run reports.
abbrev pub is_watched : Option AssistHaltReason → Bool
is_watched none = false
is_watched (some reason) = elim reason [
  | fill_mismatch ↦ true
  | mutating_request ↦ true
  | submit_attempt ↦ true
  | consumed_capability ↦ true
  | _ ↦ false
]

fill_fields-unwatched :
    (answers : ℕ → FieldAnswer) (i : ℕ) (fs : List FieldEntry)
    → is_watched (fill_fields answers i fs).halt ≡ false
unfolding fill_fields
fill_fields-unwatched answers i [] = refl
fill_fields-unwatched answers i (f ∷ fs) = ground (arith, fill_fields-unwatched answers (i + 1) fs)

-- The run's result, if it returns one, names no request, and none of those halts.
abbrev pub is_quiet : AssistRun → Bool
is_quiet run = elim run.result [
  | none ↦ true
  | some r ↦ is_empty r.mutating_requests && not (is_watched r.halt_reason)
]

module _ ⦃pl : AssistPlatform⦄ where
  pack_is_quiet :
      (input : RunAssistInput) (env : AssistEnv) → is_quiet (assist_with_pack input env) ≡ true
  unfolding assist_with_pack own_session given_session filling_result halted_at
  pack_is_quiet input env = ground (arith, fill_fields-unwatched env.answers 0 input.pack.fields)

  -- No run reports a request that changes something, an attempt to submit, a value that reads back
  -- as another, or a capability that was consumed between the two gates.
  pub run_reports_no_request :
      (input : RunAssistInput) (env : AssistEnv) (s : Approvals)
      → is_quiet (run_supervised_assist input env s).0 ≡ true
  unfolding run_supervised_assist consume_capability halted_at
  run_reports_no_request input env s = ground (arith, pack_is_quiet input env)
