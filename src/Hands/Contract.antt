-- ===== src/Hands/Contract.antt =====
-- src/hands/contract.ts, src/hands/browser-actions.ts, src/hands/risk.ts, and what the adapter
-- reads of src/hands/hand-spec.ts and src/hands/registry.ts. The patterns are on UTF-16 code units.
use Prim.Native.String.{◌++◌ as ◌⊕◌}
use atlas_cli.Prelude.{
  String, Bool, true, false, not, ◌&&◌, ◌||◌, Option, none, some, is_some, List, [], ◌∷◌, length,
  every, is_empty, if◌then◌else◌, includes, leb, is_present, trim, string_eq,
}
use atlas_cli.Prelude.Dict.{Dict, get}
use atlas_cli.Prelude.Regex.{test, caseless, any_of, units}
use atlas_cli.ExecGraph.Contracts.{task_id_schema}

pub data DelegationRiskClass : Type 0 where
  low security production data_mutation high_blast_radius : DelegationRiskClass

pub data ReceiptKind : Type 0 where
  file_exists commit_exists file_contains command_output_match browser_action narrative :
      ReceiptKind

pub data BrowserAction : Type 0 where
  navigate read_text read_value : String → BrowserAction
  click fill_field select_option : String → String → BrowserAction

pub record BrowserActionResult : Type 0 where
  pub action : BrowserAction
  pub success : Bool
  pub value : Option String
  pub error : Option String

pub record Receipt : Type 0 where
  pub task_id : String
  pub hand_id : String
  pub submitted_by : String
  pub kind : ReceiptKind
  pub ref : Option String
  pub command : Option String
  pub expected_substring : Option String
  pub claimed_result : String
  pub artifacts : Option (List String)
  pub actions : Option (List BrowserAction)
  pub action_results : Option (List BrowserActionResult)

unfoldable pub browser_action_schema : BrowserAction → Bool
browser_action_schema (navigate url) = is_present url
browser_action_schema (read_text selector) = is_present selector
browser_action_schema (read_value selector) = is_present selector
browser_action_schema (click role name) = is_present role && is_present name
browser_action_schema (fill_field label value) = is_present label
browser_action_schema (select_option label value) = is_present label && is_present value

-- an optional field of which every value passes `p`
abbrev pub optional_field : {A : Type 0} → (A → Bool) → Option A → Bool
optional_field p none = true
optional_field p (some a) = p a

abbrev pub has_items : {A : Type 0} → Option (List A) → Bool
has_items none = false
has_items (some xs) = not (is_empty xs)

-- the receipts that cite a `ref`, and those with an expected substring
abbrev pub needs_ref : ReceiptKind → Bool
needs_ref file_exists = true
needs_ref commit_exists = true
needs_ref file_contains = true
needs_ref _ = false

abbrev pub needs_substring : ReceiptKind → Bool
needs_substring file_contains = true
needs_substring command_output_match = true
needs_substring _ = false

abbrev pub is_command : ReceiptKind → Bool
is_command command_output_match = true
is_command _ = false

abbrev pub is_browser : ReceiptKind → Bool
is_browser browser_action = true
is_browser _ = false

-- at least three code units behind `trim()`
unfoldable pub is_meaningful : String → Bool
is_meaningful s = leb 3 (length (trim (units s)))

-- `receiptSchema`
unfoldable pub receipt_schema : Receipt → Bool
unfolding browser_action_schema is_meaningful
receipt_schema r =
    (task_id_schema r.task_id
      && is_present r.hand_id
      && is_present r.submitted_by
      && is_present r.claimed_result)
    && (optional_field is_present r.ref
        && optional_field is_present r.command
        && optional_field is_present r.expected_substring
        && optional_field (every is_present) r.artifacts
        && optional_field (every browser_action_schema) r.actions
        && optional_field (every (λ x. browser_action_schema x.action)) r.action_results)
    && (not (needs_ref r.kind) || is_some r.ref)
    && (not (is_command r.kind) || is_some r.command)
    && (not (needs_substring r.kind) || is_some r.expected_substring)
    && (not (is_browser r.kind) || (has_items r.actions && has_items r.action_results))
    && (not (needs_substring r.kind) || optional_field is_meaningful r.expected_substring)

pub data Autonomy : Type 0 where
  foreground_only read_only_unattended : Autonomy

-- The fields of a `HandSpec` that the adapter reads.
pub record HandSpec : Type 0 where
  pub hand_id : String
  pub allowed_actions : List String
  pub autonomy : Autonomy

abbrev dunder_keys : List String
dunder_keys = "__proto__" ∷ "constructor" ∷ "prototype" ∷ []

-- `getHand` on the hands that the manifests declare: the static registry is empty
unfoldable pub get_hand : Dict HandSpec → String → Option HandSpec
get_hand manifests hand_id = if includes dunder_keys hand_id then none else get manifests hand_id

-- `DATA_MUTATION_RE`, `SECURITY_RE` and `PRODUCTION_RE`
pub is_data_mutation : String → Bool
is_data_mutation = test (
    any_of (
      caseless "write"
      ∷ caseless "mutat"
      ∷ caseless "delete"
      ∷ caseless "deploy"
      ∷ caseless "migrat"
      ∷ []))

pub is_security : String → Bool
is_security = test (
    any_of (
      caseless "secret"
      ∷ caseless "credential"
      ∷ caseless "token"
      ∷ caseless ".env"
      ∷ caseless "auth"
      ∷ caseless "rls"
      ∷ []))

pub is_production : String → Bool
is_production =
    test
      (any_of (caseless "prod" ∷ caseless "production" ∷ caseless "live" ∷ caseless "cloud" ∷ []))

abbrev joined : String → List String → String
joined s [] = s
joined s (t ∷ ts) = joined (s ⊕ " " ⊕ t) ts

unfoldable pub classify_risk : String → List String → DelegationRiskClass
classify_risk objective allowed_actions =
    let haystack = joined objective allowed_actions in
    if is_data_mutation haystack
    then data_mutation
    else if is_security haystack
    then security
    else if is_production haystack
    then production
    else low

abbrev pub needs_refuter : DelegationRiskClass → Bool
needs_refuter low = false
needs_refuter _ = true
