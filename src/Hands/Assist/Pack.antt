-- ===== src/Hands/Assist/Pack.antt =====
-- src/hands/assist-contract.ts: an answer pack and its validation. The details of an error are left
-- out.
use atlas_cli.Prelude.{
  ℕ, zero, suc, ◌+◌, ◌*◌, String, Bool, false, not, ◌&&◌, Option, none, some, List, [], ◌∷◌, every,
  is_empty, if◌then◌else◌, leb, nat_eq, ◌==◌, ℕ_eq, string_eq, is_present, or_else,
}
use atlas_cli.Prelude.Regex.{units}

pub data FieldType : Type 0 where
  text select : FieldType

pub record FieldEntry : Type 0 where
  pub label : String
  pub value : String
  pub type : FieldType

pub record ApprovedAnswerPack : Type 0 where
  pub version : ℕ
  pub origin : String
  pub form_fingerprint : String
  pub fields : List FieldEntry
  pub action_plan_hash : String
  pub created_at : String
  pub expires_at : String
  pub pack_hash : String

-- SHA-256 of a pack's canonical JSON without its hash, and dates: `toISOString`, and `getTime` of a
-- text read as a date, none where that is NaN.
pub record AssistPlatform : Type 0 where
  pub compute_pack_hash : ApprovedAnswerPack → String
  pub iso_of : ℕ → String
  pub time_of : String → Option ℕ

abbrev pub denied_input_types : List String
denied_input_types = "password" ∷ "file" ∷ "hidden" ∷ []

abbrev pub denied_autocomplete : List String
denied_autocomplete =
    "current-password" ∷ "new-password" ∷ "cc-number" ∷ "cc-exp" ∷ "cc-csc" ∷ "cc-name" ∷ "cc-type"
    ∷ "one-time-code" ∷ "webauthn" ∷ []

abbrev pub field_entry_schema : FieldEntry → Bool
field_entry_schema f = is_present f.label

unfoldable pub answer_pack_schema : ApprovedAnswerPack → Bool
answer_pack_schema p =
    nat_eq p.version 1
    && is_present p.origin
    && is_present p.form_fingerprint
    && not (is_empty p.fields)
    && every field_entry_schema p.fields
    && is_present p.action_plan_hash

-- The first eight code units of a hash.
abbrev take : ℕ → List ℕ → List ℕ
take zero cs = []
take (suc n) [] = []
take (suc n) (c ∷ cs) = c ∷ take n cs

abbrev pub short_hash : String → List ℕ
short_hash pack_hash = take 8 (units pack_hash)

pub record CreatePackInput : Type 0 where
  pub origin : String
  pub form_fingerprint : String
  pub fields : List FieldEntry
  pub action_plan_hash : String
  pub ttl_ms : Option ℕ

abbrev pub default_ttl_ms : ℕ
default_ttl_ms = 30 * 60 * 1000

pub data PackValidationError : Type 0 where
  expired hash_mismatch origin_mismatch form_mismatch plan_mismatch : PackValidationError
  schema_invalid field_not_in_pack : PackValidationError

pub record PackContext : Type 0 where
  pub current_origin : String
  pub current_form_fingerprint : String
  pub action_plan_hash : String

module _ ⦃ap : AssistPlatform⦄ where
  unfoldable pub create_answer_pack : CreatePackInput → ℕ → ApprovedAnswerPack
  create_answer_pack input now =
      let base : ApprovedAnswerPack = record {
        version = 1;
        origin = input.origin;
        form_fingerprint = input.form_fingerprint;
        fields = input.fields;
        action_plan_hash = input.action_plan_hash;
        created_at = ap.iso_of now;
        expires_at = ap.iso_of (now + or_else input.ttl_ms default_ttl_ms);
        pack_hash = "";
      } in
      record base { pack_hash = ap.compute_pack_hash base }

  -- `new Date(expiresAt).getTime() <= now`, which is false for NaN
  abbrev pub is_expired : ApprovedAnswerPack → ℕ → Bool
  is_expired p now = elim (ap.time_of p.expires_at) [ none ↦ false | some t ↦ leb t now ]

  -- `validatePack`: none where it is valid
  unfoldable pub validate_pack : ApprovedAnswerPack → PackContext → ℕ → Option PackValidationError
  validate_pack p context now =
      if not (answer_pack_schema p)
      then some schema_invalid
      else if is_expired p now
      then some expired
      else if not (ap.compute_pack_hash p == p.pack_hash)
      then some hash_mismatch
      else if not (p.origin == context.current_origin)
      then some origin_mismatch
      else if not (p.form_fingerprint == context.current_form_fingerprint)
      then some form_mismatch
      else if not (p.action_plan_hash == context.action_plan_hash)
      then some plan_mismatch
      else none
