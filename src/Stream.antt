-- ===== src/Stream.antt =====
-- The decoders of server-sent events in crates/linguamesh-provider-openai/src/lib.rs, and the same
-- ones in crates/linguamesh-provider-anthropic/src/lib.rs and
-- crates/linguamesh-provider-gemini/src/lib.rs. A byte is a number, and a decoder is its buffer. A
-- position in a buffer is the bytes in front of it, and a delimiter stands for its length.
pub mod Boundary
pub mod Chunks
pub mod Utf8
pub mod Run
pub mod Restored
pub mod Arms
pub mod Completed
mod Tests
use linguamesh_core.Base.{
  ℕ, zero, suc, Option, none, some, List, [], ◌∷◌, ◌++◌, length, Text, codes, Result, ok, err,
  ◌>>=◌,
}
use linguamesh_core.Protection.{find, behind}

abbrev pub Bytes : Type 0
Bytes = List ℕ

abbrev pub line_feeds : Bytes
line_feeds = 10 ∷ 10 ∷ []

abbrev pub return_line_feeds : Bytes
return_line_feeds = 13 ∷ 10 ∷ 13 ∷ 10 ∷ []

abbrev pub with_delimiter : Bytes → Option Bytes → Option (Bytes × Bytes)
with_delimiter d none = none
with_delimiter d (some p) = some (p, d)

abbrev pub or_else {ℓ} : {A : Type ℓ} → Option A → Option A → Option A
or_else none later = later
or_else (some a) later = some a

unfoldable pub find_event_boundary : Bytes → Option (Bytes × Bytes)
find_event_boundary buffer =
    or_else (with_delimiter line_feeds (find line_feeds buffer))
      (with_delimiter return_line_feeds (find return_line_feeds buffer))

-- `output.push(message)` for an event that has one.
abbrev pub keep {ℓ} : {M : Type ℓ} → Option M → List M → List M
keep none ms = ms
keep (some m) ms = m ∷ ms

-- The loop of `push`, for a reader of events: the messages, and what stays in the buffer. A turn
-- takes at least two bytes, so that the number of bytes is enough fuel.
unfoldable pub decode_loop {ℓ κ} :
    {M : Type ℓ} {E : Type κ}
    → (Bytes → Result (Option M) E)
    → ℕ
    → Bytes
    → Result (List M × Bytes) E
decode_loop parse_event zero buffer = ok ([], buffer)
decode_loop parse_event (suc fuel) buffer = elim (find_event_boundary buffer) [
  | none ↦ ok ([], buffer)
  | some (event, delimiter) ↦ do
    message ← parse_event event
    rest ← decode_loop parse_event fuel (behind (event ++ delimiter) buffer)
    ok (keep message rest.0, rest.1)
]

-- `SseDecoder::push`.
unfoldable pub push_bytes {ℓ κ} :
    {M : Type ℓ} {E : Type κ}
    → (Bytes → Result (Option M) E)
    → Bytes
    → Bytes
    → Result (List M × Bytes) E
push_bytes parse_event buffer chunk =
    decode_loop parse_event (length (buffer ++ chunk)) (buffer ++ chunk)
