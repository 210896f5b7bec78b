-- ===== src/Glossary/Tests.antt =====
-- The glossary's theorems at concrete inputs.
use linguamesh_core.Base.{
  ◌≡◌, ◌≤◌, ◌<◌, ◌⊎◌, refl, true, false, none, List, [], ◌∷◌, All, codes, Text, length, pos, Result,
  ok, err,
}
use linguamesh_core.Glossary.{
  GlossaryEntry, Glossary, too_many_entries, conflicting_entries, validate_entry, validate_glossary,
  new_glossary,
}
use linguamesh_core.Glossary.Csv.{csv_rows, glossary_csv_header, parse_csv_records}
use linguamesh_core.Glossary.Roundtrip.{parse_csv_records-csv_rows}
use linguamesh_core.Glossary.Consistency.{
  IsClean, IsConsistent, new_glossary-IsConsistent, validate_glossary_refuses,
}

abbrev entry : GlossaryEntry
entry = record {
  source_term = codes "cloud";
  target_term = codes "nube";
  source_locale = none;
  target_locale = none;
  case_sensitive = true;
  whole_word = true;
  immutable = false;
  domain = none;
  priority = pos 0;
  notes = none;
  enabled = true;
}

abbrev other : GlossaryEntry
other = record entry { target_term = codes "Cloud" }

abbrev glossary : Glossary
glossary = record { entries = entry ∷ entry ∷ [] }

abbrev clash : Glossary
clash = record { entries = entry ∷ other ∷ [] }

accepted : new_glossary (entry ∷ entry ∷ []) ≡ ok glossary
unfolding new_glossary validate_glossary validate_entry
    linguamesh_core.Glossary.validate_glossary_text linguamesh_core.Base.trim
    linguamesh_core.Profile.Credential.looks_like_credential
    linguamesh_core.Profile.Credential.contains_credential_token
    linguamesh_core.Profile.Credential.match_suffixes
    linguamesh_core.Profile.Credential.contains_bearer_token
    linguamesh_core.Glossary.reject_conflicts linguamesh_core.Glossary.is_conflict
accepted = refl

valid_entry : validate_entry entry ≡ ok tt
unfolding validate_entry linguamesh_core.Glossary.validate_glossary_text linguamesh_core.Base.trim
    linguamesh_core.Profile.Credential.looks_like_credential
    linguamesh_core.Profile.Credential.contains_credential_token
    linguamesh_core.Profile.Credential.match_suffixes
    linguamesh_core.Profile.Credential.contains_bearer_token
valid_entry = refl

valid_other : validate_entry other ≡ ok tt
unfolding validate_entry linguamesh_core.Glossary.validate_glossary_text linguamesh_core.Base.trim
    linguamesh_core.Profile.Credential.looks_like_credential
    linguamesh_core.Profile.Credential.contains_credential_token
    linguamesh_core.Profile.Credential.match_suffixes
    linguamesh_core.Profile.Credential.contains_bearer_token
valid_other = refl

refused : validate_glossary clash ≡ err conflicting_entries
unfolding validate_glossary validate_entry linguamesh_core.Glossary.validate_glossary_text
    linguamesh_core.Base.trim linguamesh_core.Profile.Credential.looks_like_credential
    linguamesh_core.Profile.Credential.contains_credential_token
    linguamesh_core.Profile.Credential.match_suffixes
    linguamesh_core.Profile.Credential.contains_bearer_token
    linguamesh_core.Glossary.reject_conflicts linguamesh_core.Glossary.is_conflict
refused = refl

new_glossary-IsConsistent_example :
    (glossary.entries ≡ entry ∷ entry ∷ [])
    × (2 ≤ 256)
    × All IsClean (entry ∷ entry ∷ [])
    × IsConsistent (entry ∷ entry ∷ [])
new_glossary-IsConsistent_example = new_glossary-IsConsistent (entry ∷ entry ∷ []) glossary accepted

validate_glossary_refuses_example :
    ((validate_glossary clash ≡ ok tt) × (2 ≤ 256) × IsConsistent clash.entries)
    ⊎ ((validate_glossary clash ≡ err too_many_entries) × (256 < 2))
    ⊎ ((validate_glossary clash ≡ err conflicting_entries)
        × (2 ≤ 256)
        × (¬ IsConsistent clash.entries))
validate_glossary_refuses_example = validate_glossary_refuses clash (valid_entry, (valid_other, tt))

abbrev rows : List (List Text)
rows = (codes "a,b" ∷ codes "say \"hi\"" ∷ []) ∷ ([] ∷ codes "x" ∷ []) ∷ []

parse_csv_records-csv_rows_example :
    parse_csv_records (csv_rows (glossary_csv_header ∷ rows)) ≡ ok (glossary_csv_header ∷ rows)
parse_csv_records-csv_rows_example = parse_csv_records-csv_rows rows ((λ e. cc), ((λ e. cc), tt))
