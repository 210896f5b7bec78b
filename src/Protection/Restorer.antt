-- ===== src/Protection/Restorer.antt =====
-- The restorer of protected spans in crates/linguamesh-domain/src/lib.rs: the markers in the deltas
-- of a response are replaced while it streams. A token is ASCII text, so that its bytes are its
-- characters. Every turn of the loop but the last sets the flag of a span, so the number of spans
-- and one is enough fuel. Nothing reads a restorer that has failed, so an error has no state.
pub mod Markers
pub mod Pieces
pub mod Steps
pub mod Clear
pub mod Whole
pub mod Roundtrip
pub mod Enough
mod Tests
use linguamesh_core.Base.{
  ℕ, zero, suc, ◌-◌, min, Bool, true, false, ◌||◌, not, Option, none, some, List, [], ◌∷◌, ◌++◌,
  map, Text, codes, len, length, is_empty, any, contains, text_eq, Result, ok, ◌>>=◌, ◌>>◌,
  reject_if, leb, if◌then◌else◌,
}
use linguamesh_core.Protection.{ProtectedSpan, ProtectedSource, Flagged, find, take_bytes, behind}

abbrev pub protected_token_prefix : Text
protected_token_prefix = codes "__LINGUAMESH_PROTECTED_"

pub data ProtectedTextError : Type 0 where
  duplicate_marker missing_marker invalid_marker : ProtectedTextError

pub record ProtectedTextRestorer : Type 0 where
  pub spans : Flagged
  pub pending : Text

-- A marker in the pending text: what stands in front of it, its span, whether that is used, and
-- the spans with its flag set.
pub record Marker : Type 0 where
  pub front : Text
  pub span : ProtectedSpan
  pub used : Bool
  pub marked : Flagged

-- `ProtectedSource::restorer`.
unfoldable pub restorer : ProtectedSource → ProtectedTextRestorer
restorer self = record { spans = map (λ s. (s, false)) self.spans; pending = [] }

abbrev pub found : ProtectedSpan → Bool → Flagged → Option Text → Option Marker
found s u rest none = none
found s u rest (some p) = some (record { front = p; span = s; used = u; marked = (s, true) ∷ rest })

-- A marker of a later span.
abbrev pub under : ProtectedSpan × Bool → Option Marker → Option Marker
under x none = none
under x (some m) =
    some (record { front = m.front; span = m.span; used = m.used; marked = x ∷ m.marked })

-- `min_by_key` keeps the first of the least.
abbrev pub earlier : Option Marker → Option Marker → Option Marker
earlier none o = o
earlier (some m) none = some m
earlier (some m) (some m') = if leb (len m.front) (len m'.front) then some m else some m'

unfoldable pub next_marker : Text → Flagged → Option Marker
next_marker text [] = none
next_marker text ((s, u) ∷ rest) =
    earlier (found s u rest (find s.token text)) (under (s, u) (next_marker text rest))

-- `append_plain_text`: what it appends.
unfoldable pub append_plain_text : Text → Result Text ProtectedTextError
append_plain_text plain = do
  reject_if (contains plain protected_token_prefix) invalid_marker
  ok plain

abbrev pub ends_with : Text → Text → Bool
ends_with [] p = is_empty p
ends_with (c ∷ s) p = text_eq (c ∷ s) p || ends_with s p

-- The closure of `flat_map` and `find_map` for one token: its sizes, the largest first.
abbrev pub longest_prefix : ℕ → Text → Text → Option ℕ
longest_prefix zero token text = none
longest_prefix (suc n) token text =
    let shorter = longest_prefix n token text in
    if ends_with text (take_bytes (suc n) token) then some (suc n) else shorter

abbrev pub first_size : Option ℕ → ℕ → ℕ
first_size none n = n
first_size (some size) n = size

unfoldable pub longest_marker_prefix_suffix : Text → Flagged → ℕ
longest_marker_prefix_suffix text [] = 0
longest_marker_prefix_suffix text ((s, u) ∷ rest) =
    first_size (longest_prefix (min (len s.token) (len text)) s.token text)
      (longest_marker_prefix_suffix text rest)

-- The last turn of the loop: what cannot be the start of a marker is given out.
unfoldable pub release :
    ProtectedTextRestorer → Result (Text × ProtectedTextRestorer) ProtectedTextError
release self = do
  let keep = longest_marker_prefix_suffix self.pending self.spans
  let front = take_bytes (len self.pending - keep) self.pending
  plain ← append_plain_text front
  ok (plain, record { spans = self.spans; pending = behind front self.pending })

-- The state behind a marker.
unfoldable pub pass : Marker → Text → ProtectedTextRestorer
pass m text = record { spans = m.marked; pending = behind (m.front ++ m.span.token) text }

unfoldable pub restore_loop :
    ℕ → ProtectedTextRestorer → Result (Text × ProtectedTextRestorer) ProtectedTextError
restore_loop zero self = ok ([], self)
restore_loop (suc fuel) self = elim (next_marker self.pending self.spans) [
  | none ↦ release self
  | some m ↦ do
    reject_if m.used duplicate_marker
    plain ← append_plain_text m.front
    rest ← restore_loop fuel (pass m self.pending)
    ok (plain ++ m.span.replacement ++ rest.0, rest.1)
]

-- `ProtectedTextRestorer::push`.
unfoldable pub push :
    ProtectedTextRestorer → Text → Result (Text × ProtectedTextRestorer) ProtectedTextError
push self delta =
    if is_empty self.spans
    then ok (self.pending ++ delta, record { spans = self.spans; pending = [] })
    else restore_loop (suc (length self.spans))
        (record { spans = self.spans; pending = self.pending ++ delta })

-- `ProtectedTextRestorer::finish`.
unfoldable pub finish : ProtectedTextRestorer → Result Text ProtectedTextError
finish self = do
  pushed ← push self []
  plain ← append_plain_text pushed.1.pending
  reject_if (any (λ s. not s.1) pushed.1.spans) missing_marker
  ok (pushed.0 ++ plain)

-- The calls of an adapter: a push for each delta, then `finish`; the outputs together.
unfoldable pub restore : ProtectedTextRestorer → List Text → Result Text ProtectedTextError
restore self [] = finish self
restore self (delta ∷ deltas) = do
  pushed ← push self delta
  rest ← restore pushed.1 deltas
  ok (pushed.0 ++ rest)
