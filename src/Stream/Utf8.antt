-- ===== src/Stream/Utf8.antt =====
-- The text of an event: `parse_event` in crates/linguamesh-provider-openai/src/lib.rs, and the same
-- lines in the other adapters, up to the reader of JSON. `std::str::from_utf8` is the decoder of
-- the Unicode standard.
use linguamesh_core.Base.{
  ℕ, zero, suc, ◌+◌, ◌-◌, ◌*◌, ◌&&◌, Option, none, some, List, [], ◌∷◌, ◌++◌, Text, codes,
  trim_start, starts_with, Result, ok, err, leb, ltb, ◌==◌, if◌then◌else◌,
}
use linguamesh_core.Failure.{malformed_response, TranslationError, new_error}
use linguamesh_core.Stream.{Bytes}

-- How many bytes a character still needs, its value up to now, and the bounds of the next byte.
pub record Utf8State : Type 0 where
  pub needed : ℕ
  pub value : ℕ
  pub lower : ℕ
  pub upper : ℕ

abbrev pub between : Utf8State
between = record { needed = 0; value = 0; lower = 0x80; upper = 0xBF }

abbrev pub leading : ℕ → Option (Option ℕ × Utf8State)
leading b =
    if ltb b 0x80
    then some (some b, between)
    else if leb 0xC2 b && leb b 0xDF
    then some (none, record { needed = 1; value = b - 0xC0; lower = 0x80; upper = 0xBF })
    else if leb 0xE0 b && leb b 0xEF
    then some (
      none,
      record {
        needed = 2;
        value = b - 0xE0;
        lower = if b == 0xE0 then 0xA0 else 0x80;
        upper = if b == 0xED then 0x9F else 0xBF;
      },
    )
    else if leb 0xF0 b && leb b 0xF4
    then some (
      none,
      record {
        needed = 3;
        value = b - 0xF0;
        lower = if b == 0xF0 then 0x90 else 0x80;
        upper = if b == 0xF4 then 0x8F else 0xBF;
      },
    )
    else none

abbrev pub continuing : ℕ → ℕ → Option ℕ × Utf8State
continuing zero value = (some value, between)
continuing (suc needed) value =
    (none, record { needed = suc needed; value = value; lower = 0x80; upper = 0xBF })

abbrev pub utf8_step : ℕ → Utf8State → ℕ → Option (Option ℕ × Utf8State)
utf8_step zero state b = leading b
utf8_step (suc needed) state b =
    if leb state.lower b && leb b state.upper
    then some (continuing needed (state.value * 64 + (b - 0x80)))
    else none

abbrev pub put : Option ℕ → Option Text → Option Text
put c none = none
put none (some s) = some s
put (some c) (some s) = some (c ∷ s)

abbrev pub utf8_from : Utf8State → Bytes → Option Text
utf8_from state [] = if state.needed == 0 then some [] else none
utf8_from state (b ∷ s) = elim (utf8_step state.needed state b) [
  | none ↦ none
  | some (c, state') ↦ put c (utf8_from state' s)
]

unfoldable pub from_utf8 : Bytes → Option Text
from_utf8 s = utf8_from between s

-- `str::lines`: a line ends at a line feed, with a carriage return in front of it or not.
abbrev pub put_line : ℕ → List Text → List Text
put_line c [] = (c ∷ []) ∷ []
put_line c (line ∷ rest) = (c ∷ line) ∷ rest

unfoldable pub lines : Text → List Text
lines [] = []
lines (c ∷ s) =
    let rest = lines s in
    if c == 10
    then [] ∷ rest
    else if c == 13 && starts_with s (10 ∷ [])
    then rest
    else put_line c rest

abbrev pub strip_prefix : Text → Text → Option Text
strip_prefix s [] = some s
strip_prefix [] (d ∷ p) = none
strip_prefix (c ∷ s) (d ∷ p) = let rest = strip_prefix s p in if c == d then rest else none

abbrev pub join_with : Text → List Text → Text
join_with separator [] = []
join_with separator (t ∷ []) = t
join_with separator (t ∷ u ∷ ts) = t ++ (separator ++ join_with separator (u ∷ ts))

abbrev pub data_lines : List Text → List Text
data_lines [] = []
data_lines (line ∷ rest) = elim (strip_prefix line (codes "data:")) [
  | none ↦ data_lines rest
  | some found ↦ trim_start found ∷ data_lines rest
]

-- The data of an event.
unfoldable pub event_data : Bytes → Result Text TranslationError
event_data event = elim (from_utf8 event) [
  | none ↦ err (new_error malformed_response (codes "Provider stream contained invalid UTF-8."))
  | some text ↦ ok (join_with (10 ∷ []) (data_lines (lines text)))
]
