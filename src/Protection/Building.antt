-- ===== src/Protection/Building.antt =====
-- `build_protected_source` of crates/linguamesh-domain/src/lib.rs. The Unicode property of
-- `char::is_alphanumeric` is a parameter. A token has the number of characters of the source and
-- one as fuel for the characters that it may need, which is enough, since a text does not contain a
-- longer one.
use linguamesh_core.Base.{
  cmp_int, ℕ, zero, suc, ◌+◌, ◌/◌, ◌%◌, Bool, true, false, ◌&&◌, ◌||◌, not, Option, none, some,
  List, [], ◌∷◌, ◌++◌, map, length, is_empty, Text, codes, len, contains, text_eq,
  eq_ignore_ascii_case, then_with, sort_by, Result, ok, ◌>>◌, ltb, leb, ◌==◌, if◌then◌else◌, ℤ,
  negsuc,
}
use Prim.Native.Nat.{compare, Ordering}
use linguamesh_core.Glossary.{GlossaryEntry, Glossary, GlossaryError, validate_glossary}
use linguamesh_core.Protection.{ProtectedSpan, ProtectedSource, take_bytes, behind}
use linguamesh_core.Protection.Restorer.{protected_token_prefix}
use linguamesh_core.Protection.Scanners.{
  Range, at_positions, last_run, collect_fenced_code_candidates, collect_inline_code_candidates,
  collect_placeholder_candidates, collect_url_candidates, collect_email_candidates,
}

-- A candidate starts behind `front` and ends behind its text.
pub record ProtectedCandidate : Type 0 where
  pub front : Text
  pub original : Text
  pub replacement : Text
  pub priority : ℤ

abbrev pub start_of : ProtectedCandidate → ℕ
start_of c = len c.front

abbrev pub end_of : ProtectedCandidate → ℕ
end_of c = len c.front + len c.original

-- `i32::MIN`.
abbrev pub i32_min : ℤ
i32_min = negsuc 2147483647

abbrev pub automatic : Range → ProtectedCandidate
automatic (front, original) = record {
  front = front;
  original = original;
  replacement = original;
  priority = i32_min;
}

abbrev pub option_eq : Option Text → Text → Bool
option_eq none t = false
option_eq (some s) t = text_eq t s

unfoldable pub locale_matches : Option Text → Option Text → Bool
locale_matches none requested = true
locale_matches (some configured) requested = option_eq requested configured

abbrev pub begins_with : (ℕ → Bool) → Text → Bool
begins_with p [] = false
begins_with p (c ∷ s) = p c

-- `source.get(start..end)` for an end that many bytes behind.
abbrev pub get_bytes : ℕ → Text → Option Text
get_bytes n rest = let found = take_bytes n rest in if len found == n then some found else none

module _ (is_alphanumeric : ℕ → Bool) where
  abbrev pub is_word_character : ℕ → Bool
  is_word_character c = is_alphanumeric c || c == b'_'

  unfoldable pub is_whole_word_match : Text → Text → Bool
  is_whole_word_match left right =
      is_empty (last_run is_word_character left).1 && not (begins_with is_word_character right)

  abbrev pub matches : GlossaryEntry → Text → Bool
  matches entry found =
      if entry.case_sensitive
      then text_eq found entry.source_term
      else eq_ignore_ascii_case found entry.source_term

  abbrev pub term_match : GlossaryEntry → Text → Text → Option Text → Option Range
  term_match entry front rest none = none
  term_match entry front rest (some found) =
      if not (matches entry found)
        || (entry.whole_word && not (is_whole_word_match front (behind found rest)))
      then none
      else some (front, found)

  abbrev pub term_at : GlossaryEntry → Text → Text → Option Range
  term_at entry front rest = term_match entry front rest (get_bytes (len entry.source_term) rest)

  abbrev pub as_candidate : GlossaryEntry → Range → ProtectedCandidate
  as_candidate entry (front, found) = record {
    front = front;
    original = found;
    replacement = if entry.immutable then found else entry.target_term;
    priority = entry.priority;
  }

  unfoldable pub entry_candidates : GlossaryEntry → Text → List ProtectedCandidate
  entry_candidates entry source =
      if len entry.source_term == 0
      then []
      else map (as_candidate entry) (at_positions (term_at entry) [] source)

  unfoldable pub collect_glossary_candidates :
      Text → Option Text → Text → List GlossaryEntry → List ProtectedCandidate
  collect_glossary_candidates source source_locale target_locale [] = []
  collect_glossary_candidates source source_locale target_locale (entry ∷ entries) =
      let later = collect_glossary_candidates source source_locale target_locale entries in
      if entry.enabled
        && locale_matches entry.source_locale source_locale
        && locale_matches entry.target_locale (some target_locale)
      then entry_candidates entry source ++ later
      else later

  -- The closure of `sort_by`: the first start, the higher priority, the longer candidate.
  unfoldable pub compare_candidates : ProtectedCandidate → ProtectedCandidate → Ordering
  compare_candidates left right = then_with (compare (start_of left) (start_of right)) (
      then_with (cmp_int right.priority left.priority)
        (compare (len right.original) (len left.original)))

  -- The loop that selects: candidates that are not empty and do not begin inside the one before.
  unfoldable pub select_loop : ℕ → List ProtectedCandidate → List ProtectedCandidate
  select_loop last_end [] = []
  select_loop last_end (c ∷ rest) =
      elim (ltb (start_of c) (end_of c) && leb last_end (start_of c)) [
        | true ↦ c ∷ select_loop (end_of c) rest
        | false ↦ select_loop last_end rest
      ]

  abbrev pub glossary_candidates :
      Text → Option Text → Option Text → Option Glossary → List ProtectedCandidate
  glossary_candidates source source_locale (some target_locale) (some glossary) =
      collect_glossary_candidates source source_locale target_locale glossary.entries
  glossary_candidates source source_locale target_locale glossary = []

  unfoldable pub collect_candidates :
      Text → Option Text → Option Text → Option Glossary → List ProtectedCandidate
  collect_candidates source source_locale target_locale glossary =
      map automatic (
        collect_fenced_code_candidates source
        ++ (collect_inline_code_candidates source
            ++ (collect_placeholder_candidates source
                ++ (collect_url_candidates source ++ collect_email_candidates source))))
      ++ glossary_candidates source source_locale target_locale glossary

  -- The digits of an index; each digit takes one from the fuel, and a number has no more digits.
  abbrev pub digits : ℕ → ℕ → Text → Text
  digits zero n later = later
  digits (suc fuel) n later =
      let more = digits fuel (n / 10) ((b'0' + n % 10) ∷ later) in
      if ltb n 10 then (b'0' + n % 10) ∷ later else more

  -- `while source.contains(&token) { token.push('_'); }`.
  unfoldable pub free_token : ℕ → Text → Text → Text
  free_token zero source token = token
  free_token (suc fuel) source token = elim (contains source token) [
    | true ↦ free_token fuel source (token ++ (b'_' ∷ []))
    | false ↦ token
  ]

  abbrev pub token_of : ℕ → Text → Text
  token_of index source =
      free_token (suc (length source)) source
        (protected_token_prefix ++ (digits (suc index) index [] ++ codes "__"))

  -- The last loop, from a position on: `cursor` is the text in front of it.
  unfoldable pub replace_loop :
      Text → ℕ → Text → List ProtectedCandidate → Text × List ProtectedSpan
  replace_loop source index cursor [] = (behind cursor source, [])
  replace_loop source index cursor (c ∷ rest) =
      let later = replace_loop source (suc index) (c.front ++ c.original) rest in
      let span : ProtectedSpan = record {
        token = token_of index source;
        source = c.original;
        replacement = c.replacement;
      } in
      (behind cursor c.front ++ (span.token ++ later.0), span ∷ later.1)

  abbrev pub check_glossary : Option Glossary → Result (Unit {0}) GlossaryError
  check_glossary none = ok tt
  check_glossary (some glossary) = validate_glossary glossary

  unfoldable pub build_protected_source :
      Text → Option Text → Option Text → Option Glossary → Result ProtectedSource GlossaryError
  build_protected_source source source_locale target_locale glossary = do
    check_glossary glossary
    let candidates =
        sort_by compare_candidates (collect_candidates source source_locale target_locale glossary)
    let replaced = replace_loop source 0 [] (select_loop 0 candidates)
    ok (record { text = replaced.0; spans = replaced.1 })
