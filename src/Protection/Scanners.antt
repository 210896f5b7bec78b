-- ===== src/Protection/Scanners.antt =====
-- The scanners for what must not be translated in crates/linguamesh-domain/src/lib.rs. A range is
-- the text in front of it and its own text. The loops on fences and inline code have the number of
-- characters as fuel, which is enough, since each round takes one at least. A scanner that tries
-- every position gets the text in front of it and the text behind.
use linguamesh_core.Base.{
  ℕ, zero, suc, Bool, true, false, ◌&&◌, ◌||◌, not, Option, none, some, List, [], ◌∷◌, ◌++◌, all,
  length, is_empty, Text, codes, len, contains, contains_char, starts_with, is_ascii_alphanumeric,
  is_whitespace, leb, ltb, ◌==◌, if◌then◌else◌,
}
use linguamesh_core.Protection.{find, behind}

abbrev pub Range : Type 0
Range = Text × Text

abbrev pub fence : Text
fence = codes "```"

-- The ranges that start at each position.
abbrev pub add_range : Option Range → List Range → List Range
add_range none later = later
add_range (some range) later = range ∷ later

abbrev pub at_positions : (Text → Text → Option Range) → Text → Text → List Range
at_positions scan front [] = []
at_positions scan front (c ∷ s) =
    add_range (scan front (c ∷ s)) (at_positions scan (front ++ (c ∷ [])) s)

abbrev pub with_front : Text → Option Text → Option Range
with_front front none = none
with_front front (some found) = some (front, found)

unfoldable pub fenced_loop : ℕ → Text → Text → List Range
fenced_loop zero front rest = []
fenced_loop (suc fuel) front rest = elim (find fence rest) [
  | none ↦ []
  | some p ↦ elim (find fence (behind (p ++ fence) rest)) [
    | none ↦ []
    | some q ↦
        (front ++ p, fence ++ (q ++ fence))
        ∷ fenced_loop fuel (front ++ ((p ++ fence) ++ (q ++ fence)))
            (behind (q ++ fence) (behind (p ++ fence) rest))
  ]
]

unfoldable pub collect_fenced_code_candidates : Text → List Range
collect_fenced_code_candidates source = fenced_loop (length source) [] source

abbrev pub tick : Text
tick = codes "`"

unfoldable pub inline_loop : ℕ → Text → Text → List Range
inline_loop zero front rest = []
inline_loop (suc fuel) front rest = elim (find tick rest) [
  | none ↦ []
  | some p ↦ elim (starts_with (behind p rest) fence) [
    | true ↦ inline_loop fuel (front ++ (p ++ fence)) (behind (p ++ fence) rest)
    | false ↦ elim (find tick (behind (p ++ tick) rest)) [
      | none ↦ []
      | some q ↦
          (front ++ p, tick ++ (q ++ tick))
          ∷ inline_loop fuel (front ++ ((p ++ tick) ++ (q ++ tick)))
              (behind (q ++ tick) (behind (p ++ tick) rest))
    ]
  ]
]

unfoldable pub collect_inline_code_candidates : Text → List Range
collect_inline_code_candidates source = inline_loop (length source) [] source

unfoldable pub is_placeholder_body : Text → Bool
is_placeholder_body body =
    not (is_empty body)
    && leb (len body) 128
    && all (λ c. is_ascii_alphanumeric c || c == b'_' || c == b'.' || c == b'-') body

-- What a text begins with, up to the first match of another one and with it.
abbrev pub up_to : Text → Option Text → Option Text
up_to token none = none
up_to token (some p) = some (p ++ token)

abbrev pub only_if : Bool → Option Text → Option Text
only_if true o = o
only_if false o = none

abbrev pub named_end : Option Text → Option Text
named_end none = none
named_end (some p) = only_if (ltb 2 (len p)) (some (p ++ codes ")s"))

abbrev pub placeholder_percent_end : Text → Option Text
placeholder_percent_end (a ∷ b ∷ s) =
    if a == b'%' && contains_char b (codes "sduif%@")
    then some (a ∷ b ∷ [])
    else if starts_with (a ∷ b ∷ s) (codes "%(")
    then named_end (find (codes ")s") (a ∷ b ∷ s))
    else none
placeholder_percent_end remainder = none

-- The body of a placeholder in braces is what stands between them.
abbrev pub braced : Text → Option Text → Option Text
braced remainder none = none
braced remainder (some p) =
    only_if (is_placeholder_body (behind (codes "{") p)) (some (p ++ codes "}"))

unfoldable pub placeholder_end : Text → Option Text
placeholder_end remainder =
    if starts_with remainder (codes "{{")
    then up_to (codes "}}") (find (codes "}}") remainder)
    else if starts_with remainder (codes "${")
    then up_to (codes "}") (find (codes "}") remainder)
    else if starts_with remainder (codes "{")
    then braced remainder (find (codes "}") remainder)
    else placeholder_percent_end remainder

unfoldable pub collect_placeholder_candidates : Text → List Range
collect_placeholder_candidates source =
    at_positions (λ front rest. with_front front (placeholder_end rest)) [] source

abbrev pub take_while : (ℕ → Bool) → Text → Text
take_while p [] = []
take_while p (c ∷ s) = let rest = take_while p s in if p c then c ∷ rest else []

-- A text without the characters at its end that satisfy a test.
abbrev pub put_before_end : Bool → ℕ → Text → Text
put_before_end true c [] = []
put_before_end false c [] = c ∷ []
put_before_end b c (d ∷ t) = c ∷ d ∷ t

abbrev pub trim_end_by : (ℕ → Bool) → Text → Text
trim_end_by p [] = []
trim_end_by p (c ∷ s) = put_before_end (p c) c (trim_end_by p s)

abbrev pub is_url_character : ℕ → Bool
is_url_character c = not (is_whitespace c || contains_char c (codes "<>[]{}\""))

abbrev pub unless_empty : Text → Option Text
unless_empty [] = none
unless_empty (c ∷ s) = some (c ∷ s)

unfoldable pub url_end : Text → Option Text
url_end remainder =
    if starts_with remainder (codes "https://") || starts_with remainder (codes "http://")
    then unless_empty (
        trim_end_by (λ c. contains_char c (codes ".,;:!?")) (take_while is_url_character remainder))
    else none

unfoldable pub collect_url_candidates : Text → List Range
collect_url_candidates source =
    at_positions (λ front rest. with_front front (url_end rest)) [] source

-- A text cut in front of the characters at its end that satisfy a test.
abbrev pub put_or_run : Bool → ℕ → Text × Text → Text × Text
put_or_run true c ([], run) = ([], c ∷ run)
put_or_run false c ([], run) = (c ∷ [], run)
put_or_run b c (d ∷ kept, run) = (c ∷ d ∷ kept, run)

abbrev pub last_run : (ℕ → Bool) → Text → Text × Text
last_run p [] = ([], [])
last_run p (c ∷ s) = put_or_run (p c) c (last_run p s)

abbrev pub email_range : Text × Text → Text → Option Range
email_range (front, left) right =
    if not (is_empty left) && contains right (codes ".")
    then some (front, left ++ (b'@' ∷ right))
    else none

unfoldable pub email_at : Text → Text → Option Range
email_at front [] = none
email_at front (c ∷ s) =
    if c == b'@'
    then email_range
        (last_run (λ d. is_ascii_alphanumeric d || contains_char d (codes "._+-")) front)
        (take_while (λ d. is_ascii_alphanumeric d || contains_char d (codes ".-_")) s)
    else none

unfoldable pub collect_email_candidates : Text → List Range
collect_email_candidates source = at_positions email_at [] source
