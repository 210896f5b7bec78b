-- ===== src/Protection.antt =====
-- Splitting a protected source text in crates/linguamesh-domain/src/lib.rs. A position in the text
-- is the text in front of it or behind it. The loop has the number of characters as fuel, which is
-- enough, since every chunk has a character.
pub mod Starts
pub mod Boundaries
pub mod Distribution
pub mod Success
pub mod Restorer
pub mod Scanners
pub mod Building
pub mod Places
pub mod Addresses
pub mod Candidates
pub mod Lossless
mod Scans
mod Tests
use linguamesh_core.Base.{
  ℕ, zero, suc, ◌-◌, ◌+◌, Bool, true, false, ◌&&◌, ◌||◌, not, Option, none, some, List, [], ◌∷◌,
  map, Text, len, len_utf8, length, is_empty, any, is_whitespace, starts_with, contains, Result, ok,
  err, ◌>>=◌, ◌>>◌, reject_if, leb, ltb, ◌==◌, if◌then◌else◌,
}

pub record ProtectedSpan : Type 0 where
  pub token : Text
  pub source : Text
  pub replacement : Text

pub record ProtectedSource : Type 0 where
  pub text : Text
  pub spans : List ProtectedSpan

pub data ChunkingError : Type 0 where
  invalid_limit protected_span_too_large protected_span_split : ChunkingError

-- The longest start of a text of whole characters within a number of bytes.
abbrev pub take_bytes : ℕ → Text → Text
take_bytes n [] = []
take_bytes n (c ∷ s) =
    let rest = take_bytes (n - len_utf8 c) s in if leb (len_utf8 c) n then c ∷ rest else []

abbrev pub put_char : ℕ → Option Text → Option Text
put_char c none = none
put_char c (some s) = some (c ∷ s)

-- `find`: what stands in front of the first match.
abbrev pub find : Text → Text → Option Text
find token [] = if is_empty token then some [] else none
find token (c ∷ s) =
    let later = put_char c (find token s) in if starts_with (c ∷ s) token then some [] else later

-- The closure of `find_map`: a first match that begins before the limit and ends behind it.
abbrev pub crosses : ℕ → Text → Option Text → Bool
crosses limit token none = false
crosses limit token (some front) = ltb (len front) limit && ltb limit (len front + len token)

abbrev pub or_empty : Option Text → Text
or_empty none = []
or_empty (some s) = s

abbrev pub crossing_span : List Text → Text → ℕ → Option (Text × Text)
crossing_span [] rest limit = none
crossing_span (token ∷ tokens) rest limit =
    let later = crossing_span tokens rest limit in
    if crosses limit token (find token rest)
    then some (or_empty (find token rest), token)
    else later

-- The characters behind which a chunk ends best; 12290, 65281 and 65311 are the full-width marks.
abbrev pub is_break : ℕ → Bool
is_break c =
    c == 10
    || c == b'.'
    || c == b'!'
    || c == b'?'
    || c == 12290
    || c == 65281
    || c == 65311
    || is_whitespace c

abbrev pub last_break : Text → Option Text
last_break [] = none
last_break (c ∷ s) = elim (last_break s) [
  | some p ↦ some (c ∷ p)
  | none ↦ if is_break c then some (c ∷ []) else none
]

-- `preferred.unwrap_or(limit)`.
abbrev pub unwrap_or : Text → Option Text → Text
unwrap_or w none = w
unwrap_or w (some p) = p

unfoldable pub semantic_boundary : Text → Text
semantic_boundary window = unwrap_or window (last_break window)

abbrev pub checked_piece : Text → Result Text ChunkingError
checked_piece piece = if is_empty piece then err protected_span_split else ok piece

-- The window, cut in front of a span that crosses its end.
abbrev pub cut_window : ℕ → Text → Option (Text × Text) → Result Text ChunkingError
cut_window max_bytes window none = ok window
cut_window max_bytes window (some (front, token)) = do
  reject_if (is_empty front) protected_span_too_large
  reject_if (ltb max_bytes (len token)) protected_span_too_large
  ok front

-- An iteration of the loop: the next chunk of the rest.
unfoldable pub next_chunk : Text → ℕ → List Text → Result Text ChunkingError
next_chunk rest max_bytes tokens = do
  let window = take_bytes max_bytes rest
  window' ← cut_window max_bytes window (crossing_span tokens rest (len window))
  checked_piece (semantic_boundary window')

-- The text behind a start of it.
abbrev pub behind : Text → Text → Text
behind [] s = s
behind (x ∷ p) [] = []
behind (x ∷ p) (c ∷ s) = behind p s

unfoldable pub split_loop : ℕ → Text → ℕ → List Text → Result (List Text) ChunkingError
split_loop zero rest max_bytes tokens = ok []
split_loop (suc fuel) [] max_bytes tokens = ok []
split_loop (suc fuel) (c ∷ rest) max_bytes tokens = do
  piece ← next_chunk (c ∷ rest) max_bytes tokens
  pieces ← split_loop fuel (behind piece (c ∷ rest)) max_bytes tokens
  ok (piece ∷ pieces)

unfoldable pub split_protected_text : Text → ℕ → List Text → Result (List Text) ChunkingError
unfolding split_loop
split_protected_text text max_bytes tokens =
    if max_bytes == 0
    then err invalid_limit
    else if is_empty text
    then ok ([] ∷ [])
    else if leb (len text) max_bytes
    then ok (text ∷ [])
    else split_loop (length text) text max_bytes tokens

-- The spans with their flags `used`.
abbrev pub Flagged : Type 0
Flagged = List (ProtectedSpan × Bool)

-- The inner loop of `chunks`: the spans of a piece, and the flags behind it.
unfoldable pub claim : Text → Flagged → Result (List ProtectedSpan × Flagged) ChunkingError
claim piece [] = ok ([], [])
claim piece ((span, used) ∷ rest) = do
  reject_if (contains piece span.token && used) protected_span_split
  claimed ← claim piece rest
  ok (
      if contains piece span.token
      then (span ∷ claimed.0, (span, true) ∷ claimed.1)
      else (claimed.0, (span, used) ∷ claimed.1))

-- The outer loop of `chunks`.
unfoldable pub distribute :
    List Text → Flagged → Result (List ProtectedSource × Flagged) ChunkingError
distribute [] flagged = ok ([], flagged)
distribute (piece ∷ pieces) flagged = do
  claimed ← claim piece flagged
  others ← distribute pieces claimed.1
  ok (record { text = piece; spans = claimed.0 } ∷ others.0, others.1)

-- `ProtectedSource::chunks`.
unfoldable pub chunks : ProtectedSource → ℕ → Result (List ProtectedSource) ChunkingError
chunks self max_bytes = do
  pieces ← split_protected_text self.text max_bytes (map (λ s. s.token) self.spans)
  given ← distribute pieces (map (λ s. (s, false)) self.spans)
  reject_if (any (λ f. not f.1) given.1) protected_span_split
  ok given.0
