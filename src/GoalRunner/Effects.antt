-- ===== src/GoalRunner/Effects.antt =====
-- src/goal-runner/red-line.ts: the effects of a task, and those that it may not have.
use Prim.Native.String.{◌++◌ as ◌⊕◌}
use atlas_cli.Prelude.{
  String, Bool, true, false, Option, none, some, List, [], ◌∷◌, map, any, filter, if◌then◌else◌,
  ℕ_eq, string_eq, or_else,
}
use atlas_cli.Prelude.Dict.{Dict, get}
use atlas_cli.Hands.Contract.{HandSpec, get_hand}

-- `EffectKind`
pub data EffectKind : Type 0 where
  submit credentials upload payment consent_oauth live_db_apply deploy merge_to_main : EffectKind
  deletion money external_send mutating_http account_change auth_change : EffectKind
  legal_acceptance dns_mutation env_secret_mutation prod_data_write : EffectKind
  remote_vcs_mutation destructive_overwrite install_uninstall paid_api : EffectKind
  browser_navigate browser_read browser_fill browser_click browser_select : EffectKind
  read_file grep git_readonly analyze swarm_run unknown : EffectKind

pub data EffectClass : Type 0 where
  safe red_line : EffectClass

pub record TypedEffect : Type 0 where
  pub kind : EffectKind
  pub class : EffectClass

-- `RED_LINE_EFFECTS.has(kind)`
unfoldable pub is_red_line_effect : EffectKind → Bool
is_red_line_effect browser_navigate = false
is_red_line_effect browser_read = false
is_red_line_effect browser_fill = false
is_red_line_effect browser_click = false
is_red_line_effect browser_select = false
is_red_line_effect read_file = false
is_red_line_effect grep = false
is_red_line_effect git_readonly = false
is_red_line_effect analyze = false
is_red_line_effect swarm_run = false
is_red_line_effect unknown = false
is_red_line_effect _ = true

abbrev is_unknown : EffectKind → Bool
is_unknown unknown = true
is_unknown _ = false

unfoldable pub classify_effect : EffectKind → EffectClass
unfolding is_red_line_effect
classify_effect kind =
    if is_unknown kind then red_line else if is_red_line_effect kind then red_line else safe

-- `ACTION_TO_EFFECT`
abbrev pub action_to_effect : Dict EffectKind
action_to_effect =
    ("browser-navigate", browser_navigate)
    ∷ ("browser-read", browser_read)
    ∷ ("browser-fill", browser_fill)
    ∷ ("browser-click", browser_click)
    ∷ ("browser-select", browser_select)
    ∷ ("browser-submit", submit)
    ∷ ("read-file", read_file)
    ∷ ("grep", grep)
    ∷ ("git-readonly", git_readonly)
    ∷ ("write-scoped-code", destructive_overwrite)
    ∷ ("deploy", deploy)
    ∷ ("credential-access", credentials)
    ∷ ("upload", upload)
    ∷ ("payment", payment)
    ∷ ("command-exec", unknown)
    ∷ ("command-readonly", read_file)
    ∷ ("swarm-run", swarm_run)
    ∷ ("analyze", analyze)
    ∷ []

abbrev pub effect_of : String → TypedEffect
effect_of action =
    let kind = or_else (get action_to_effect action) unknown in
    record { kind = kind; class = classify_effect kind }

-- `deriveEffectsFromHand`: `none` where there is no such hand, and the call throws
unfoldable pub derive_effects_from_hand : Dict HandSpec → String → Option (List TypedEffect)
derive_effects_from_hand manifests hand_id = elim (get_hand manifests hand_id) [
  | none ↦ none
  | some hand ↦ some (map effect_of hand.allowed_actions)
]

abbrev pub is_red : TypedEffect → Bool
is_red e = elim e.class [ red_line ↦ true | safe ↦ false ]

unfoldable pub has_red_line : List TypedEffect → Bool
has_red_line effects = any is_red effects

abbrev pub effect_name : EffectKind → String
effect_name submit = "submit"
effect_name credentials = "credentials"
effect_name upload = "upload"
effect_name payment = "payment"
effect_name consent_oauth = "consent-oauth"
effect_name live_db_apply = "live-db-apply"
effect_name deploy = "deploy"
effect_name merge_to_main = "merge-to-main"
effect_name deletion = "deletion"
effect_name money = "money"
effect_name external_send = "external-send"
effect_name mutating_http = "mutating-http"
effect_name account_change = "account-change"
effect_name auth_change = "auth-change"
effect_name legal_acceptance = "legal-acceptance"
effect_name dns_mutation = "dns-mutation"
effect_name env_secret_mutation = "env-secret-mutation"
effect_name prod_data_write = "prod-data-write"
effect_name remote_vcs_mutation = "remote-vcs-mutation"
effect_name destructive_overwrite = "destructive-overwrite"
effect_name install_uninstall = "install-uninstall"
effect_name paid_api = "paid-api"
effect_name browser_navigate = "browser-navigate"
effect_name browser_read = "browser-read"
effect_name browser_fill = "browser-fill"
effect_name browser_click = "browser-click"
effect_name browser_select = "browser-select"
effect_name read_file = "read-file"
effect_name grep = "grep"
effect_name git_readonly = "git-readonly"
effect_name analyze = "analyze"
effect_name swarm_run = "swarm-run"
effect_name unknown = "unknown"

-- `xs.join(', ')`
abbrev joined : List String → String
joined [] = ""
joined (s ∷ []) = s
joined (s ∷ t ∷ ts) = s ⊕ ", " ⊕ joined (t ∷ ts)

unfoldable pub red_line_reason : List TypedEffect → String
red_line_reason effects =
    "Red-line effects detected: " ⊕ joined (map (λ e. effect_name e.kind) (filter is_red effects))
