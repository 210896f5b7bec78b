-- ===== src/Glossary.antt =====
-- Glossary entries and their validation in crates/linguamesh-domain/src/lib.rs.
pub mod Consistency
pub mod Csv
pub mod Roundtrip
mod Tests
use Prim.Native.String.{String}
use linguamesh_core.Base.{
  ℕ, Bool, true, false, ◌&&◌, ◌||◌, not, Option, none, some, List, [], ◌∷◌, Text, codes, len,
  length, is_empty, any, trim, contains_char, text_eq, ℤ, pos, Result, ok, err, ◌>>=◌, ◌>>◌,
  reject_if, for_each, ltb, if◌then◌else◌,
}
use linguamesh_core.Profile.Credential.{looks_like_credential}

abbrev pub max_glossary_entries : ℕ
max_glossary_entries = 256

abbrev pub max_glossary_term_bytes : ℕ
max_glossary_term_bytes = 512

abbrev pub max_glossary_note_bytes : ℕ
max_glossary_note_bytes = 2048

pub record GlossaryEntry : Type 0 where
  pub source_term : Text
  pub target_term : Text
  pub source_locale : Option Text
  pub target_locale : Option Text
  pub case_sensitive : Bool
  pub whole_word : Bool
  pub immutable : Bool
  pub domain : Option Text
  pub priority : ℤ
  pub notes : Option Text
  pub enabled : Bool

pub record Glossary : Type 0 where
  pub entries : List GlossaryEntry

pub data GlossaryError : Type 0 where
  too_many_entries conflicting_entries : GlossaryError
  invalid_glossary_field credential_in_glossary : String → GlossaryError

unfoldable pub validate_glossary_text : Text → ℕ → String → Result (Unit {0}) GlossaryError
validate_glossary_text value max_bytes field = do
  reject_if (is_empty (trim value) || ltb max_bytes (len value) || contains_char 0 value)
      (invalid_glossary_field field)
  reject_if (looks_like_credential value) (credential_in_glossary field)

-- `if let Some(text)`.
abbrev pub validate_optional : Option Text → ℕ → String → Result (Unit {0}) GlossaryError
validate_optional none max_bytes field = ok tt
validate_optional (some value) max_bytes field = validate_glossary_text value max_bytes field

-- `GlossaryEntry::validate`.
unfoldable pub validate_entry : GlossaryEntry → Result (Unit {0}) GlossaryError
validate_entry entry = do
  validate_glossary_text entry.source_term max_glossary_term_bytes "source term"
  validate_glossary_text entry.target_term max_glossary_term_bytes "target term"
  validate_optional entry.source_locale 64 "source locale"
  validate_optional entry.target_locale 64 "target locale"
  validate_optional entry.domain 128 "domain"
  validate_optional entry.notes max_glossary_note_bytes "notes"

-- `GlossaryEntry::new`.
unfoldable pub new_entry : Text → Text → Result GlossaryEntry GlossaryError
new_entry source_term target_term = do
  let entry : GlossaryEntry = record {
    source_term = source_term;
    target_term = target_term;
    source_locale = none;
    target_locale = none;
    case_sensitive = true;
    whole_word = true;
    immutable = false;
    domain = none;
    priority = pos 0;
    notes = none;
    enabled = true;
  }
  validate_entry entry
  ok entry

abbrev pub bool_eq : Bool → Bool → Bool
bool_eq true b = b
bool_eq false b = not b

abbrev pub option_eq : Option Text → Option Text → Bool
option_eq none none = true
option_eq none (some t) = false
option_eq (some s) none = false
option_eq (some s) (some t) = text_eq s t

-- The test of the inner loop of `Glossary::validate`.
unfoldable pub is_conflict : GlossaryEntry → GlossaryEntry → Bool
is_conflict left right = not (
    not right.enabled
    || not (text_eq left.source_term right.source_term)
    || not (bool_eq left.case_sensitive right.case_sensitive)
    || not (option_eq left.source_locale right.source_locale)
    || not (option_eq left.target_locale right.target_locale)
    || not (option_eq left.domain right.domain)
    || text_eq left.target_term right.target_term)

-- The two loops over the pairs of entries.
unfoldable pub reject_conflicts : List GlossaryEntry → Result (Unit {0}) GlossaryError
reject_conflicts [] = ok tt
reject_conflicts (left ∷ rest) = do
  reject_if (left.enabled && any (is_conflict left) rest) conflicting_entries
  reject_conflicts rest

-- `Glossary::validate`.
unfoldable pub validate_glossary : Glossary → Result (Unit {0}) GlossaryError
validate_glossary glossary = do
  reject_if (ltb max_glossary_entries (length glossary.entries)) too_many_entries
  for_each validate_entry glossary.entries
  reject_conflicts glossary.entries

-- `Glossary::new`.
unfoldable pub new_glossary : List GlossaryEntry → Result Glossary GlossaryError
new_glossary entries = do
  let glossary : Glossary = record { entries = entries }
  validate_glossary glossary
  ok glossary
