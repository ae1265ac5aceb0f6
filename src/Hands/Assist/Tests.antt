-- ===== src/Hands/Assist/Tests.antt =====
-- Supervised assistance at small inputs.
use atlas_cli.Prelude.{true, false, some, List, [], ◌∷◌, ◌≡◌, ◌↔◌, ◌⊎◌, refl, is_present}
use atlas_cli.Prelude.Regex.{units}
use atlas_cli.Hands.Contract.{browser_action_schema}
use atlas_cli.Hands.Assist.Pack.{
  text, select, ApprovedAnswerPack, AssistPlatform, validate_pack, answer_pack_schema,
}
use atlas_cli.Hands.Assist.Capability.{
  symbol, Approvals, mint_capability, approved, request_approval,
}
use atlas_cli.Hands.Assist.Session.{
  RunAssistInput, FieldAnswer, AssistEnv, is_field_denied, fill_fields, filling_result,
  given_session, assist_with_pack, run_supervised_assist,
}
use atlas_cli.Hands.Assist.Approval.{
  AssistCall, approve, run, calls, IsTurnedAway, capability_serves_once,
}
use atlas_cli.Hands.Assist.Verbatim.{
  PassesGates, IsStart, script, is_complete, has_page, AllFilled, run_fills_verbatim,
  run_completes_iff,
}

instance abbrev assist_Eq : AssistPlatform
assist_Eq = record {
  compute_pack_hash = λ p. "0123456789ab";
  iso_of = λ t. "2026-07-01";
  time_of = λ s. some 1000;
}

abbrev pack : ApprovedAnswerPack
pack = record {
  version = 1;
  origin = "https://a.example";
  form_fingerprint = "form#1";
  fields =
      record { label = "Name"; value = "Ada"; type = text }
      ∷ record { label = "Country"; value = "AZ"; type = select }
      ∷ [];
  action_plan_hash = "p";
  created_at = "2026-07-01";
  expires_at = "2026-07-01";
  pack_hash = "0123456789ab";
}

abbrev none_consumed : Approvals
none_consumed = record { consumed = []; next = 0 }

abbrev after_approval : Approvals
after_approval = record { consumed = []; next = 1 }

abbrev input : RunAssistInput
input = record {
  pack = pack;
  capability = symbol 0 "assist-approval";
  current_origin = "https://a.example";
  current_form_fingerprint = "form#1";
  action_plan_hash = "p";
  has_session = true;
  skip_tty_check = false;
}

abbrev found : FieldAnswer
found = record {
  element = some (record { tag = "input"; input_type = "text"; autocomplete = "" });
  fills = true;
}

abbrev env : AssistEnv
env = record { tty = true; now = 10; launches = true; closes = true; answers = λ i. found }

is_approved :
    (request_approval pack true (some (units " 01234567 ")) none_consumed).0
    ≡ approved (symbol 0 "assist-approval")
unfolding request_approval mint_capability
is_approved = refl

abbrev between : List AssistCall
between = approve pack true (some (units "01234567")) ∷ run input env ∷ []

capability_serves_once_example :
    let later = calls between (run_supervised_assist input env after_approval).1 in
    IsTurnedAway (run_supervised_assist input env later).0
    × ((run_supervised_assist input env later).1 ≡ later)
capability_serves_once_example =
    capability_serves_once input input env env between after_approval refl refl

run_fills_verbatim_example :
    ((run_supervised_assist input env after_approval).0.actions ≡ [])
    ⊎ (PassesGates input env after_approval
        × IsStart (run_supervised_assist input env after_approval).0.actions (script input))
run_fills_verbatim_example = run_fills_verbatim input env after_approval

run_completes_iff_example :
    (is_complete (run_supervised_assist input env after_approval).0 ≡ true) ↔ (
      PassesGates input env after_approval
      × (has_page input env ≡ true)
      × AllFilled env.answers 0 pack.fields)
run_completes_iff_example = run_completes_iff input env after_approval

completes : is_complete (assist_with_pack input env) ≡ true
unfolding assist_with_pack validate_pack answer_pack_schema is_present given_session fill_fields
    is_field_denied browser_action_schema filling_result
completes = refl

-- The first field is not filled, and two are counted as attempted.
abbrev lost : AssistEnv
lost = record env { answers = λ i. record found { fills = false } }

counts_one_more : (filling_result (fill_fields lost.answers 0 pack.fields)).fields_attempted ≡ 2
unfolding filling_result fill_fields is_field_denied browser_action_schema is_present
counts_one_more = refl
