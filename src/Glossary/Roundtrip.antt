-- ===== src/Glossary/Roundtrip.antt =====
-- What the CSV writer of crates/linguamesh-domain/src/lib.rs writes, its parser reads.
use linguamesh_core.Base.{
  ◌≡◌, ◌≢◌, refl, ◌∙◌, ℕ, Bool, true, false, ◌&&◌, List, [], ◌∷◌, ◌++◌, All, Text, is_empty, any,
  ok, Bool-cases, or-eq-false, inl, inr, ◌==◌, arith,
}
use mathlib.Core.List.{append_assoc, append-nil}
use linguamesh_core.Glossary.Csv.{
  needs_quotes, double_quotes, csv_field, csv_columns, csv_row, csv_rows, glossary_csv_header,
  CsvParser, csv_loop, csv_start, parse_csv_records,
}

abbrev at_plain : List (List Text) → List Text → Text → Bool → CsvParser
at_plain rs cur f b = record {
  records = rs;
  current = cur;
  field = f;
  quoted = false;
  closed_quote = false;
  at_field_start = b;
}

abbrev in_quotes : List (List Text) → List Text → Text → Bool → CsvParser
in_quotes rs cur f b = record {
  records = rs;
  current = cur;
  field = f;
  quoted = true;
  closed_quote = false;
  at_field_start = b;
}

abbrev after_quotes : List (List Text) → List Text → Text → Bool → CsvParser
after_quotes rs cur f b = record {
  records = rs;
  current = cur;
  field = f;
  quoted = false;
  closed_quote = true;
  at_field_start = b;
}

-- A step over one character that needs no quotes.
plain_char :
    (rs : List (List Text)) (cur : List Text) (f : Text) (b : Bool) (c : ℕ) (rest : Text)
    → needs_quotes c ≡ false
    → csv_loop false (at_plain rs cur f b) (c ∷ rest)
      ≡ csv_loop false (at_plain rs cur (f ++ (c ∷ [])) false) rest
unfolding csv_loop
plain_char rs cur f b c rest h = ground arith

no_start : (v : Text) → (is_empty v && false) ≡ false
no_start v = ground arith

plain_field :
    (rs : List (List Text)) (cur : List Text) (v rest : Text) (f : Text) (b : Bool)
    → any needs_quotes v ≡ false
    → csv_loop false (at_plain rs cur f b) (v ++ rest)
      ≡ csv_loop false (at_plain rs cur (f ++ v) (is_empty v && b)) rest
plain_field rs cur [] rest f b h = rw append-nil
plain_field rs cur (d ∷ v) rest f b h =
    let (e, g) = or-eq-false _ _ h in
    plain_char rs cur f b d (v ++ rest) e
    ∙ (plain_field rs cur v rest (f ++ (d ∷ [])) false g ∙ rw (no_start v, append_assoc))

quoted_char :
    (rs : List (List Text)) (cur : List Text) (f : Text) (b : Bool) (c : ℕ) (rest : Text)
    → (c == b'"') ≡ false
    → csv_loop false (in_quotes rs cur f b) (c ∷ rest)
      ≡ csv_loop false (in_quotes rs cur (f ++ (c ∷ [])) b) rest
unfolding csv_loop
quoted_char rs cur f b c rest h = ground arith

quoted_quote :
    (rs : List (List Text)) (cur : List Text) (f : Text) (b : Bool) (c : ℕ) (rest : Text)
    → (c == b'"') ≡ true
    → csv_loop false (in_quotes rs cur f b) (b'"' ∷ c ∷ rest)
      ≡ csv_loop false (in_quotes rs cur (f ++ (c ∷ [])) b) rest
unfolding csv_loop
quoted_quote rs cur f b c rest h = ground arith

quoted_end :
    (rs : List (List Text)) (cur : List Text) (f : Text) (b : Bool) (c : ℕ) (rest : Text)
    → (c == b'"') ≡ false
    → csv_loop false (in_quotes rs cur f b) (b'"' ∷ c ∷ rest)
      ≡ csv_loop false (after_quotes rs cur f b) (c ∷ rest)
unfolding csv_loop
quoted_end rs cur f b c rest h = ground arith

quoted_field :
    (rs : List (List Text)) (cur : List Text) (v rest : Text) (c : ℕ) (f : Text) (b : Bool)
    → (c == b'"') ≡ false
    → csv_loop false (in_quotes rs cur f b) (double_quotes v ++ (b'"' ∷ c ∷ rest))
      ≡ csv_loop false (after_quotes rs cur (f ++ v) b) (c ∷ rest)
quoted_field rs cur [] rest c f b k = quoted_end rs cur f b c rest k ∙ rw append-nil
quoted_field rs cur (d ∷ v) rest c f b k = elim (Bool-cases (d == b'"')) [
  | inl e ↦ rw e (
      quoted_quote rs cur f b d (double_quotes v ++ (b'"' ∷ c ∷ rest)) e
      ∙ (quoted_field rs cur v rest c (f ++ (d ∷ [])) b k ∙ rw append_assoc))
  | inr e ↦ rw e (
      quoted_char rs cur f b d (double_quotes v ++ (b'"' ∷ c ∷ rest)) e
      ∙ (quoted_field rs cur v rest c (f ++ (d ∷ [])) b k ∙ rw append_assoc))
]

open_quote :
    (rs : List (List Text)) (cur : List Text) (v rest : Text)
    → csv_loop false (at_plain rs cur [] true) ((b'"' ∷ (v ++ (b'"' ∷ []))) ++ rest)
      ≡ csv_loop false (in_quotes rs cur [] true) (v ++ (b'"' ∷ rest))
unfolding csv_loop
open_quote rs cur v rest = rw append_assoc

after_comma :
    (rs : List (List Text)) (cur : List Text) (v rest : Text) (b : Bool)
    → csv_loop false (after_quotes rs cur v b) (b',' ∷ rest)
      ≡ csv_loop false (at_plain rs (cur ++ (v ∷ [])) [] true) rest
unfolding csv_loop
after_comma rs cur v rest b = refl

after_newline :
    (rs : List (List Text)) (cur : List Text) (v rest : Text) (b : Bool)
    → csv_loop false (after_quotes rs cur v b) (10 ∷ rest)
      ≡ csv_loop false (at_plain (rs ++ ((cur ++ (v ∷ [])) ∷ [])) [] [] true) rest
unfolding csv_loop
after_newline rs cur v rest b = refl

plain_comma :
    (rs : List (List Text)) (cur : List Text) (v rest : Text) (b : Bool)
    → csv_loop false (at_plain rs cur v b) (b',' ∷ rest)
      ≡ csv_loop false (at_plain rs (cur ++ (v ∷ [])) [] true) rest
unfolding csv_loop
plain_comma rs cur v rest b = refl

plain_newline :
    (rs : List (List Text)) (cur : List Text) (v rest : Text) (b : Bool)
    → csv_loop false (at_plain rs cur v b) (10 ∷ rest)
      ≡ csv_loop false (at_plain (rs ++ ((cur ++ (v ∷ [])) ∷ [])) [] [] true) rest
unfolding csv_loop
plain_newline rs cur v rest b = refl

rows_end : (rs : List (List Text)) → csv_loop false (at_plain rs [] [] true) [] ≡ ok rs
unfolding csv_loop
rows_end rs = refl

no_bom :
    (rows : List (List Text))
    → parse_csv_records (csv_rows (glossary_csv_header ∷ rows))
      ≡ csv_loop false csv_start (csv_rows (glossary_csv_header ∷ rows))
unfolding parse_csv_records csv_row csv_field
no_bom rows = refl

-- A field and the comma or the newline behind it, from the start of the field.
field_comma :
    (rs : List (List Text)) (cur : List Text) (v rest : Text)
    → csv_loop false (at_plain rs cur [] true) (csv_field v ++ (b',' ∷ rest))
      ≡ csv_loop false (at_plain rs (cur ++ (v ∷ [])) [] true) rest
unfolding csv_field
field_comma rs cur v rest = elim (Bool-cases (any needs_quotes v)) [
  | inl e ↦ rw e (
      open_quote rs cur (double_quotes v) (b',' ∷ rest)
      ∙ (quoted_field rs cur v rest b',' [] true refl ∙ after_comma rs cur v rest true))
  | inr e ↦ rw e (
      plain_field rs cur v (b',' ∷ rest) [] true e ∙ plain_comma rs cur v rest (is_empty v && true))
]

field_newline :
    (rs : List (List Text)) (cur : List Text) (v rest : Text)
    → csv_loop false (at_plain rs cur [] true) (csv_field v ++ (10 ∷ rest))
      ≡ csv_loop false (at_plain (rs ++ ((cur ++ (v ∷ [])) ∷ [])) [] [] true) rest
unfolding csv_field
field_newline rs cur v rest = elim (Bool-cases (any needs_quotes v)) [
  | inl e ↦ rw e (
      open_quote rs cur (double_quotes v) (10 ∷ rest)
      ∙ (quoted_field rs cur v rest 10 [] true refl ∙ after_newline rs cur v rest true))
  | inr e ↦ rw e (
      plain_field rs cur v (10 ∷ rest) [] true e ∙ plain_newline rs cur v rest (is_empty v && true))
]

columns_read :
    (rs : List (List Text)) (cur : List Text) (v : Text) (vs : List Text) (rest : Text)
    → csv_loop false (at_plain rs cur [] true) ((csv_field v ++ csv_columns vs) ++ rest)
      ≡ csv_loop false (at_plain (rs ++ ((cur ++ (v ∷ vs)) ∷ [])) [] [] true) rest
columns_read rs cur v [] rest = rw append_assoc (field_newline rs cur v rest)
columns_read rs cur v (w ∷ vs) rest = rw append_assoc (
    field_comma rs cur v ((csv_field w ++ csv_columns vs) ++ rest)
    ∙ (columns_read rs (cur ++ (v ∷ [])) w vs rest ∙ rw append_assoc))

abbrev pub IsFilled : List Text → Type 0
IsFilled row = row ≢ []

rows_read :
    (rs rows : List (List Text))
    → All IsFilled rows
    → csv_loop false (at_plain rs [] [] true) (csv_rows rows) ≡ ok (rs ++ rows)
unfolding csv_row
rows_read rs [] h = rw append-nil (rows_end rs)
rows_read rs ([] ∷ rows) h = absurd (h.0 refl)
rows_read rs ((v ∷ vs) ∷ rows) h =
    columns_read rs [] v vs (csv_rows rows)
    ∙ (rows_read (rs ++ ((v ∷ vs) ∷ [])) rows h.1 ∙ rw append_assoc)

-- The parser reads back the rows that the writer writes behind the header, whatever the texts of
-- their fields, if each has a field.
pub parse_csv_records-csv_rows :
    (rows : List (List Text))
    → All IsFilled rows
    → parse_csv_records (csv_rows (glossary_csv_header ∷ rows)) ≡ ok (glossary_csv_header ∷ rows)
unfolding parse_csv_records
parse_csv_records-csv_rows rows h =
    no_bom rows ∙ rows_read [] (glossary_csv_header ∷ rows) ((λ e. cc), h)
