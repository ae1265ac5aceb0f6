-- ===== src/GoalRunner/RedLine.antt =====
-- src/goal-runner/red-line.ts: the keywords that a command may not have, and the vote of a model on
-- it. Texts are lists of UTF-16 code units.
use atlas_cli.Prelude.{
  ℕ, ◌+◌, String, Bool, true, false, ◌&&◌, ◌||◌, Option, none, some, List, [], ◌∷◌, ◌++◌, map, ◌-◌,
  if◌then◌else◌, ◌==◌, ℕ_eq, string_eq, trim,
}
use atlas_cli.Prelude.Regex.{units, between, literal, matches_somewhere}
use atlas_cli.GoalRunner.Effects.{
  EffectKind, credentials, deletion, merge_to_main, payment, prod_data_write,
}
pub mod Keywords

-- `toLowerCase()`, as far as the letters of the roots go: ASCII, Cyrillic, and the two other signs
-- whose lower case has a letter of the roots (U+0130 and U+212A). Then `replace(/ё/g, 'е')`.
abbrev lower_unit : ℕ → List ℕ
lower_unit c =
    if between 65 90 c || between 0x410 0x42f c
    then (c + 32) ∷ []
    else if c == 0x401
    then 0x451 ∷ []
    else if c == 0x130
    then 0x69 ∷ 0x307 ∷ []
    else if c == 0x212a
    then 0x6b ∷ []
    else c ∷ []

abbrev plain_e : ℕ → ℕ
plain_e c = if c == 0x451 then 0x435 else c

unfoldable pub normalize_ru : List ℕ → List ℕ
normalize_ru [] = []
normalize_ru (c ∷ cs) = map plain_e (lower_unit c) ++ normalize_ru cs

pub record KeywordCategory : Type 0 where
  pub category : String
  pub effect : EffectKind
  pub roots : List String

abbrev pub keyword_categories : List KeywordCategory
keyword_categories =
    record {
      category = "credentials";
      effect = credentials;
      roots =
          "credential" ∷ "api key" ∷ "password" ∷ "secret key" ∷ "private key" ∷ "auth token"
          ∷ "access token" ∷ "секрет" ∷ "парол" ∷ "учетн" ∷ [];
    }
    ∷ record {
      category = "payment";
      effect = payment;
      roots =
          "payment" ∷ "pay for" ∷ "transfer money" ∷ "send money" ∷ "wire transfer" ∷ "оплат"
          ∷ "платеж" ∷ "деньг" ∷ "денег" ∷ "переведи" ∷ "перевест" ∷ [];
    }
    ∷ record {
      category = "prod-database";
      effect = prod_data_write;
      roots =
          "prod db" ∷ "production database" ∷ "drop table" ∷ "drop database" ∷ "truncate table"
          ∷ "продакшн" ∷ "миграци" ∷ "боевая база" ∷ "боевой базе" ∷ "боевую базу" ∷ [];
    }
    ∷ record {
      category = "merge";
      effect = merge_to_main;
      roots =
          "merge to main" ∷ "merge to master" ∷ "force push" ∷ "push to main" ∷ "push to master"
          ∷ "мерж" ∷ "влей" ∷ "влить" ∷ "запуш" ∷ "пуш в мейн" ∷ "пуш в мастер" ∷ [];
    }
    ∷ record {
      category = "deletion";
      effect = deletion;
      roots =
          "delete all" ∷ "rm -rf" ∷ "wipe" ∷ "destroy" ∷ "purge" ∷ "удал" ∷ "уничтож" ∷ "очист"
          ∷ "стере" ∷ "сотри" ∷ "снес" ∷ [];
    }
    ∷ []

pub record Match : Type 0 where
  pub category : String
  pub effect : EffectKind
  pub root : String

-- `normalized.includes(root)`
abbrev pub contains_root : List ℕ → String → Bool
contains_root normalized root = matches_somewhere (literal root) normalized

abbrev first_root : List ℕ → String → EffectKind → List String → Option Match
first_root normalized category effect [] = none
first_root normalized category effect (root ∷ roots) =
    let rest = first_root normalized category effect roots in
    if contains_root normalized root
    then some (record { category = category; effect = effect; root = root })
    else rest

abbrev first_match : List ℕ → List KeywordCategory → Option Match
first_match normalized [] = none
first_match normalized (c ∷ cs) = elim (first_root normalized c.category c.effect c.roots) [
  | some m ↦ some m
  | none ↦ first_match normalized cs
]

-- `classifyCommandText`: `none` where no root matches
unfoldable pub classify_command_text : List ℕ → Option Match
classify_command_text text = first_match (normalize_ru text) keyword_categories

pub data Vote : Type 0 where
  allow block : Vote

-- `toUpperCase()`, as far as the letters of the two words go: ASCII, and U+1E98, whose upper case
-- begins with a W
abbrev upper : List ℕ → List ℕ
upper [] = []
upper (c ∷ cs) =
    if between 97 122 c
    then (c - 32) ∷ upper cs
    else if c == 0x1e98
    then 0x57 ∷ 0x30a ∷ upper cs
    else c ∷ upper cs

abbrev starts : List ℕ → List ℕ → Bool
starts [] cs = true
starts (p ∷ ps) [] = false
starts (p ∷ ps) (c ∷ cs) = p == c && starts ps cs

-- `parseClassifierVote`: `none` where it throws
unfoldable pub parse_classifier_vote : List ℕ → Option Vote
parse_classifier_vote raw =
    let normalized = upper (trim raw) in
    if starts (units "ALLOW") normalized
    then some allow
    else if starts (units "BLOCK") normalized
    then some block
    else none

-- Why a command is blocked.
pub data Refusal : Type 0 where
  keyword_floor : Match → Refusal
  classifier classifier_error : Refusal

-- The end of `checkRedLineWithClassifier`, behind the keyword floor.
unfoldable pub vote_on : Bool → Option (List ℕ) → Option Match → Option Refusal
unfolding parse_classifier_vote
vote_on enabled reply (some m) = some (keyword_floor m)
vote_on false reply none = none
vote_on true none none = some classifier_error
vote_on true (some raw) none = elim (parse_classifier_vote raw) [
  | none ↦ some classifier_error
  | some allow ↦ none
  | some block ↦ some classifier
]

-- `checkRedLineWithClassifier`: whether the vote is switched on, and what the model replies, `none`
-- where the call throws. The result is `none` where the command is let through.
unfoldable pub check_red_line_with_classifier : Bool → Option (List ℕ) → List ℕ → Option Refusal
check_red_line_with_classifier enabled reply text =
    vote_on enabled reply (classify_command_text text)
