-- ===== src/Hands/Assist/Session.antt =====
-- src/hands/supervised-assist.ts: the filling of a form from an approved pack. The details of a
-- halt are left out.
use Prim.Native.String.{◌++◌ as ◌⊕◌}
use atlas_cli.Prelude.{
  ℕ, ◌+◌, String, Bool, true, false, not, ◌&&◌, Option, none, some, List, [], ◌∷◌, ◌++◌, length,
  filter, if◌then◌else◌, includes, ◌==◌, ℕ_eq, string_eq,
}
use atlas_cli.Hands.Contract.{
  BrowserAction, navigate, read_value, fill_field, select_option, browser_action_schema,
}
use atlas_cli.Hands.Assist.Pack.{
  FieldEntry, text, select, ApprovedAnswerPack, AssistPlatform, PackContext, denied_input_types,
  denied_autocomplete, validate_pack,
}
use atlas_cli.Hands.Assist.Capability.{
  Capability, Approvals, is_valid_capability, consume_capability,
}

pub data AssistHaltReason : Type 0 where
  no_foreground invalid_capability consumed_capability pack_validation_failed : AssistHaltReason
  denied_field_type field_not_found fill_mismatch mutating_request submit_attempt : AssistHaltReason
  driver_error : AssistHaltReason

pub record AssistFieldResult : Type 0 where
  pub label : String
  pub success : Bool

pub record AssistResult : Type 0 where
  pub completed : Bool
  pub halted : Bool
  pub halt_reason : Option AssistHaltReason
  pub fields_attempted : ℕ
  pub fields_filled : ℕ
  pub field_results : List AssistFieldResult
  pub mutating_requests : List String

pub record RunAssistInput : Type 0 where
  pub pack : ApprovedAnswerPack
  pub capability : Capability
  pub current_origin : String
  pub current_form_fingerprint : String
  pub action_plan_hash : String
  pub has_session : Bool
  pub skip_tty_check : Bool

-- The element under a label, in lower case: its tag, type and autocomplete.
pub record PageElement : Type 0 where
  pub tag : String
  pub input_type : String
  pub autocomplete : String

-- What the page answers for one field: its element (none: it is not there or cannot be read), and
-- whether the driver fills it.
pub record FieldAnswer : Type 0 where
  pub element : Option PageElement
  pub fills : Bool

-- Whether there is a terminal, the time, whether a session can be launched and closed, and the
-- answers for the fields by their positions.
pub record AssistEnv : Type 0 where
  pub tty : Bool
  pub now : ℕ
  pub launches : Bool
  pub closes : Bool
  pub answers : ℕ → FieldAnswer

unfoldable pub is_field_denied : Option PageElement → Bool
is_field_denied none = false
is_field_denied (some e) =
    if e.tag == "input"
    then if includes denied_input_types e.input_type
      then true
      else includes denied_autocomplete e.autocomplete
    else false

abbrev pub fill_action : FieldEntry → BrowserAction
fill_action f = elim f.type [
  | select ↦ select_option f.label f.value
  | text ↦ fill_field f.label f.value
]

-- The value is read back, and not compared.
abbrev pub read_back : FieldEntry → List BrowserAction
read_back f = elim f.type [
  | select ↦ []
  | text ↦
      read_value (
        "[aria-label=\"" ⊕ f.label ⊕ "\"], label:has-text(\"" ⊕ f.label
        ⊕ "\") + input, label:has-text(\"" ⊕ f.label ⊕ "\") + textarea")
      ∷ []
]

-- What a loop over fields has done: the actions that the driver was given, why it halted, if it
-- did, and the results.
pub record Filling : Type 0 where
  pub actions : List BrowserAction
  pub halt : Option AssistHaltReason
  pub results : List AssistFieldResult

abbrev field_result : FieldEntry → Bool → AssistFieldResult
field_result f success = record { label = f.label; success = success }

-- `for (const field of input.pack.fields)`, from field number `i` on; an action that its schema
-- refuses makes the driver throw.
unfoldable pub fill_fields : (ℕ → FieldAnswer) → ℕ → List FieldEntry → Filling
fill_fields answers i [] = record { actions = []; halt = none; results = [] }
fill_fields answers i (f ∷ fs) =
    let rest = fill_fields answers (i + 1) fs in
    if is_field_denied (answers i).element
    then record { actions = []; halt = some denied_field_type; results = field_result f false ∷ [] }
    else if not (browser_action_schema (fill_action f))
    then record { actions = []; halt = some driver_error; results = [] }
    else if not (answers i).fills
    then record {
      actions = fill_action f ∷ [];
      halt = some field_not_found;
      results = field_result f false ∷ [];
    }
    else record {
      actions = fill_action f ∷ (read_back f ++ rest.actions);
      halt = rest.halt;
      results = field_result f true ∷ rest.results;
    }

abbrev pub filled_count : List AssistFieldResult → ℕ
filled_count results = length (filter (λ r. r.success) results)

-- A field that the driver did not fill is counted once more than it is reported.
abbrev extra_count : Option AssistHaltReason → ℕ
extra_count none = 0
extra_count (some reason) = elim reason [ field_not_found ↦ 1 | _ ↦ 0 ]

abbrev is_none : Option AssistHaltReason → Bool
is_none none = true
is_none (some reason) = false

unfoldable pub filling_result : Filling → AssistResult
filling_result f = record {
  completed = is_none f.halt;
  halted = not (is_none f.halt);
  halt_reason = f.halt;
  fields_attempted = length f.results + extra_count f.halt;
  fields_filled = filled_count f.results;
  field_results = f.results;
  mutating_requests = [];
}

unfoldable pub halted_at : AssistHaltReason → AssistResult
halted_at reason = record {
  completed = false;
  halted = true;
  halt_reason = some reason;
  fields_attempted = 0;
  fields_filled = 0;
  field_results = [];
  mutating_requests = [];
}

-- A run's result, none where it rejects, and the actions that the driver was given.
pub record AssistRun : Type 0 where
  pub result : Option AssistResult
  pub actions : List BrowserAction

abbrev pub stopped_at : AssistHaltReason → AssistRun
stopped_at reason = record { result = some (halted_at reason); actions = [] }

-- `finally { if (isOwnSession) await session.close(); }`
abbrev pub closing : Bool → AssistRun → AssistRun
closing closes run = record run { result = if closes then run.result else none }

unfoldable pub own_session : AssistEnv → ApprovedAnswerPack → AssistRun
own_session env p =
    if not env.launches
    then closing env.closes (stopped_at driver_error)
    else let filling = fill_fields env.answers 0 p.fields in
      closing env.closes (record {
        result = some (filling_result filling);
        actions = navigate p.origin ∷ filling.actions;
      })

unfoldable pub given_session : AssistEnv → ApprovedAnswerPack → AssistRun
given_session env p =
    let filling = fill_fields env.answers 0 p.fields in
    record { result = some (filling_result filling); actions = filling.actions }

abbrev pub context_of : RunAssistInput → PackContext
context_of input = record {
  current_origin = input.current_origin;
  current_form_fingerprint = input.current_form_fingerprint;
  action_plan_hash = input.action_plan_hash;
}

module _ ⦃ap : AssistPlatform⦄ where
  -- Behind the gates for the terminal and the capability.
  unfoldable pub assist_with_pack : RunAssistInput → AssistEnv → AssistRun
  assist_with_pack input env = elim (validate_pack input.pack (context_of input) env.now) [
    | some error ↦ stopped_at pack_validation_failed
    | none ↦ if input.has_session then given_session env input.pack else own_session env input.pack
  ]

  abbrev pub after_consuming : RunAssistInput → AssistEnv → Bool × Approvals → AssistRun × Approvals
  after_consuming input env (true, s) = (assist_with_pack input env, s)
  after_consuming input env (false, s) = (stopped_at consumed_capability, s)

  unfoldable pub run_supervised_assist :
      RunAssistInput → AssistEnv → Approvals → AssistRun × Approvals
  run_supervised_assist input env s =
      if not input.skip_tty_check && not env.tty
      then (stopped_at no_foreground, s)
      else if not (is_valid_capability input.capability s)
      then (stopped_at invalid_capability, s)
      else after_consuming input env (consume_capability input.capability s)
