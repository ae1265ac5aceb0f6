-- ===== src/Hands/Verifier.antt =====
-- src/hands/verifier.ts and src/hands/refuter.ts. The texts of the reasons are constructors.
use atlas_cli.Prelude.{
  ℕ, String, Bool, true, false, not, ◌&&◌, ◌||◌, Option, none, some, List, [], ◌∷◌, every, any,
  if◌then◌else◌, includes, is_space, trim, is_empty, is_present, ◌==◌, string_eq, ℕ_eq,
}
use atlas_cli.Prelude.Regex.{test, literal, caseless, any_of, units, is_alnum, matches_somewhere}
use atlas_cli.Hands.Contract.{
  DelegationRiskClass, needs_refuter, file_exists, commit_exists, file_contains,
  command_output_match, browser_action, narrative, BrowserActionResult, Receipt, has_items,
}

pub data VerifyReason : Type 0 where
  narrative_only missing_ref protected_path missing_substring missing_command not_allowlisted :
      VerifyReason
  no_actions no_action_results action_failed value_missing check_failed mismatch confirmed :
      VerifyReason

pub record VerifyResult : Type 0 where
  pub verified : Bool
  pub reason : VerifyReason

-- What the file system and git answer at one time, `none` where the call throws: whether a path
-- exists, the text of a file, what `git cat-file -t` prints of an object, trimmed, and what a
-- command, split into its words, prints.
pub record Disk : Type 0 where
  pub exists : String → Option Bool
  pub read : String → Option String
  pub object_type : String → Option String
  pub run : List (List ℕ) → Option String

abbrev pub rejected_for : VerifyReason → VerifyResult
rejected_for reason = record { verified = false; reason = reason }

abbrev pub passed : Bool → VerifyResult
passed b = if b then record { verified = true; reason = confirmed } else rejected_for mismatch

abbrev pub present : Option String → Option String
present none = none
present (some s) = if is_present s then some s else none

-- `PROTECTED_PATH_RE`
unfoldable pub is_protected_path : String → Bool
is_protected_path = test (
    any_of (
      caseless ".env"
      ∷ caseless "secret"
      ∷ caseless "credential"
      ∷ caseless ".pem"
      ∷ caseless "id_rsa"
      ∷ caseless "id_ed25519"
      ∷ caseless "id_ecdsa"
      ∷ caseless ".pfx"
      ∷ caseless ".p12"
      ∷ caseless ".jks"
      ∷ caseless "service-account"
      ∷ []))

abbrev is_word : ℕ → Bool
is_word c = is_alnum c || c == 95

-- `^prefix\b`, for a prefix that ends in a letter
abbrev starts_with_word : List ℕ → List ℕ → Bool
starts_with_word [] [] = true
starts_with_word [] (c ∷ cs) = not (is_word c)
starts_with_word (p ∷ ps) [] = false
starts_with_word (p ∷ ps) (c ∷ cs) = p == c && starts_with_word ps cs

abbrev readonly_commands : List String
readonly_commands =
    "node dist/cli.js graph verify" ∷ "node dist/cli.js graph status" ∷ "git log" ∷ "git show"
    ∷ "git status" ∷ "git rev-parse" ∷ "git ls-files" ∷ "git cat-file" ∷ []

-- `SHELL_METACHAR_RE`: & | ; ` $ ( ) > <
abbrev is_metachar : ℕ → Bool
is_metachar c = includes (38 ∷ 124 ∷ 59 ∷ 96 ∷ 36 ∷ 40 ∷ 41 ∷ 62 ∷ 60 ∷ []) c

pub is_allowlisted_command : String → Bool
is_allowlisted_command command =
    let trimmed = trim (units command) in
    not (any is_metachar trimmed) && any (λ p. starts_with_word (units p) trimmed) readonly_commands

abbrev add_to_word : ℕ → List ℕ → List (List ℕ) → List (List ℕ)
add_to_word c [] words = (c ∷ []) ∷ words
add_to_word c (d ∷ ds) [] = (c ∷ []) ∷ []
add_to_word c (d ∷ ds) (word ∷ words) =
    if is_space d then (c ∷ []) ∷ word ∷ words else (c ∷ word) ∷ words

-- `split(/\s+/)` of a trimmed text
pub words_of : List ℕ → List (List ℕ)
words_of [] = []
words_of (c ∷ cs) = let rest = words_of cs in if is_space c then rest else add_to_word c cs rest

-- `text.includes(part)`
unfoldable pub contains : String → String → Bool
contains text part = matches_somewhere (literal part) (units text)

-- the end of a check that reads: a call that throws fails it
abbrev pub checked : {A : Type 0} → Option A → (A → Bool) → VerifyResult
checked none test = rejected_for check_failed
checked (some a) test = passed (test a)

abbrev value_contains : String → BrowserActionResult → Bool
value_contains part r = elim r.value [ none ↦ false | some v ↦ contains v part ]

unfoldable pub verify_file_exists : Disk → Receipt → VerifyResult
verify_file_exists disk r = elim (present r.ref) [
  | none ↦ rejected_for missing_ref
  | some ref ↦
      if is_protected_path ref
      then rejected_for protected_path
      else checked (disk.exists ref) (λ there. there)
]

unfoldable pub verify_commit_exists : Disk → Receipt → VerifyResult
verify_commit_exists disk r = elim (present r.ref) [
  | none ↦ rejected_for missing_ref
  | some ref ↦
      if is_protected_path ref
      then rejected_for protected_path
      else checked (disk.object_type ref) (λ out. out == "commit")
]

unfoldable pub verify_file_contains : Disk → Receipt → VerifyResult
verify_file_contains disk r = elim (present r.ref) [
  | none ↦ rejected_for missing_ref
  | some ref ↦
      if is_protected_path ref
      then rejected_for protected_path
      else elim (present r.expected_substring) [
        | none ↦ rejected_for missing_substring
        | some part ↦ checked (disk.read ref) (λ contents. contains contents part)
      ]
]

-- `receipt.ref && isProtectedPath(receipt.ref)`
abbrev pub cites_protected : Option String → Bool
cites_protected none = false
cites_protected (some ref) = is_protected_path ref

unfoldable pub verify_command : Disk → Receipt → VerifyResult
verify_command disk r = elim (present r.command) [
  | none ↦ rejected_for missing_command
  | some command ↦
      if is_protected_path command
      then rejected_for protected_path
      else if cites_protected (present r.ref)
      then rejected_for protected_path
      else if not (is_allowlisted_command command)
      then rejected_for not_allowlisted
      else elim (present r.expected_substring) [
        | none ↦ rejected_for missing_substring
        | some part ↦
            checked (disk.run (words_of (trim (units command)))) (λ out. contains out part)
      ]
]

-- The checks on the results, behind those for their presence.
abbrev verify_results : Option String → List BrowserActionResult → VerifyResult
verify_results expected results =
    if not (every (λ x. x.success) results) then rejected_for action_failed else elim expected [
      | none ↦ passed true
      | some part ↦
          if any (value_contains part) results then passed true else rejected_for value_missing
    ]

unfoldable pub verify_browser_action : Receipt → VerifyResult
verify_browser_action r =
    if not (has_items r.actions) then rejected_for no_actions else elim r.action_results [
      | none ↦ rejected_for no_action_results
      | some results ↦
          if is_empty results
          then rejected_for no_action_results
          else verify_results (present r.expected_substring) results
    ]

unfoldable pub verify : Disk → Receipt → VerifyResult
unfolding verify_file_exists verify_commit_exists verify_file_contains verify_command
    verify_browser_action
verify disk r = elim r.kind [
  | narrative ↦ rejected_for narrative_only
  | file_exists ↦ verify_file_exists disk r
  | commit_exists ↦ verify_commit_exists disk r
  | file_contains ↦ verify_file_contains disk r
  | command_output_match ↦ verify_command disk r
  | browser_action ↦ verify_browser_action r
]

pub record RefuterResult : Type 0 where
  pub triggered : Bool
  pub passed : Bool

abbrev same_verdict : Bool → Bool → Bool
same_verdict true b = b
same_verdict false b = not b

-- `runRefuter`: a second check, on the disk as it is then.
unfoldable pub run_refuter : Disk → DelegationRiskClass → Receipt → Bool → RefuterResult
run_refuter disk risk r primary =
    if not (needs_refuter risk)
    then record { triggered = false; passed = true }
    else record { triggered = true; passed = same_verdict primary (verify disk r).verified }
