-- ===== src/Glossary/Csv.antt =====
-- The records of a CSV glossary in crates/linguamesh-domain/src/lib.rs: the writer of rows and the
-- parser. The parser's loop takes one character at a time, with the next one in view.
use linguamesh_core.Base.{
  ℕ, Bool, true, false, ◌&&◌, ◌||◌, not, List, [], ◌∷◌, ◌++◌, Text, codes, is_empty, any, Result,
  ok, err, ◌==◌, if◌then◌else◌,
}

pub data CsvError : Type 0 where
  malformed_csv : CsvError

abbrev pub needs_quotes : ℕ → Bool
needs_quotes c = c == b',' || c == b'"' || c == 10 || c == 13

-- The loop of `append_csv_field` over a quoted value.
abbrev pub double_quotes : Text → Text
double_quotes [] = []
double_quotes (c ∷ s) = let rest = c ∷ double_quotes s in if c == b'"' then b'"' ∷ rest else rest

-- `append_csv_field`, what it appends.
unfoldable pub csv_field : Text → Text
csv_field value =
    if any needs_quotes value then b'"' ∷ (double_quotes value ++ (b'"' ∷ [])) else value

-- The loop of `to_csv` over the columns of a row, and the newline behind it.
abbrev pub csv_columns : List Text → Text
csv_columns [] = 10 ∷ []
csv_columns (value ∷ values) = b',' ∷ (csv_field value ++ csv_columns values)

unfoldable pub csv_row : List Text → Text
csv_row [] = 10 ∷ []
csv_row (value ∷ values) = csv_field value ++ csv_columns values

abbrev pub csv_rows : List (List Text) → Text
csv_rows [] = []
csv_rows (row ∷ rows) = csv_row row ++ csv_rows rows

abbrev pub glossary_csv_header : List Text
glossary_csv_header =
    codes "source_term"
    ∷ codes "target_term"
    ∷ codes "source_locale"
    ∷ codes "target_locale"
    ∷ codes "case_sensitive"
    ∷ codes "whole_word"
    ∷ codes "immutable"
    ∷ codes "domain"
    ∷ codes "priority"
    ∷ codes "notes"
    ∷ codes "enabled"
    ∷ []

-- The variables of `parse_csv_records`.
pub record CsvParser : Type 0 where
  pub records : List (List Text)
  pub current : List Text
  pub field : Text
  pub quoted : Bool
  pub closed_quote : Bool
  pub at_field_start : Bool

-- What an iteration does: it fails, goes on, or goes on behind the next character.
pub data CsvStep : Type 0 where
  fails : CsvStep
  goes_on skips : CsvParser → CsvStep

abbrev pub push_char : CsvParser → ℕ → CsvParser
push_char p c = record p { field = p.field ++ (c ∷ []) }

abbrev pub end_field : CsvParser → CsvParser
end_field p = record p {
  current = p.current ++ (p.field ∷ []);
  field = [];
  closed_quote = false;
  at_field_start = true;
}

abbrev pub end_record : CsvParser → CsvParser
end_record p = record p {
  records = p.records ++ ((p.current ++ (p.field ∷ [])) ∷ []);
  current = [];
  field = [];
  closed_quote = false;
  at_field_start = true;
}

abbrev pub peeks : ℕ → Text → Bool
peeks c [] = false
peeks c (d ∷ s) = d == c

abbrev pub quoted_step : CsvParser → ℕ → Text → CsvStep
quoted_step p c rest =
    if c == b'"' && peeks b'"' rest
    then skips (push_char p b'"')
    else if c == b'"'
    then goes_on (record p { quoted = false; closed_quote = true })
    else goes_on (push_char p c)

abbrev pub closed_step : CsvParser → ℕ → Text → CsvStep
closed_step p c rest =
    if c == b','
    then goes_on (end_field p)
    else if c == 10
    then goes_on (end_record p)
    else if c == 13 && peeks 10 rest
    then skips (end_record p)
    else fails

abbrev pub plain_step : CsvParser → ℕ → Text → CsvStep
plain_step p c rest =
    if c == b'"' && p.at_field_start
    then goes_on (record p { quoted = true })
    else if c == b','
    then goes_on (end_field p)
    else if c == 10
    then goes_on (end_record p)
    else if c == 13 && peeks 10 rest
    then skips (end_record p)
    else if c == b'"' || c == 13
    then fails
    else goes_on (record (push_char p c) { at_field_start = false })

abbrev pub csv_step : CsvParser → ℕ → Text → CsvStep
csv_step p c rest =
    if p.quoted
    then quoted_step p c rest
    else if p.closed_quote
    then closed_step p c rest
    else plain_step p c rest

-- Behind the loop.
abbrev pub csv_end : CsvParser → Result (List (List Text)) CsvError
csv_end p =
    if p.quoted
    then err malformed_csv
    else if not (is_empty p.field) || not (is_empty p.current)
    then ok (p.records ++ ((p.current ++ (p.field ∷ [])) ∷ []))
    else ok p.records

-- The loop; the Boolean says that the next character was taken already.
unfoldable pub csv_loop : Bool → CsvParser → Text → Result (List (List Text)) CsvError
csv_loop skipped p [] = csv_end p
csv_loop true p (c ∷ rest) = csv_loop false p rest
csv_loop false p (c ∷ rest) = elim (csv_step p c rest) [
  | fails ↦ err malformed_csv
  | goes_on p' ↦ csv_loop false p' rest
  | skips p' ↦ csv_loop true p' rest
]

abbrev pub strip_bom : Text → Text
strip_bom [] = []
strip_bom (c ∷ s) = if c == 0xFEFF then s else c ∷ s

abbrev pub csv_start : CsvParser
csv_start = record {
  records = [];
  current = [];
  field = [];
  quoted = false;
  closed_quote = false;
  at_field_start = true;
}

unfoldable pub parse_csv_records : Text → Result (List (List Text)) CsvError
unfolding csv_loop
parse_csv_records source = csv_loop false csv_start (strip_bom source)
