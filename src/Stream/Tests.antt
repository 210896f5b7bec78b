-- ===== src/Stream/Tests.antt =====
-- Streams that mix the two delimiters.
use linguamesh_core.Base.{◌≡◌, refl, Option, some, [], ◌∷◌, ◌++◌, codes, Result, ok}
use linguamesh_core.Failure.{TranslationError}
use linguamesh_core.Stream.{Bytes, push_bytes, return_line_feeds, line_feeds}

abbrev whole_event : Bytes → Result (Option Bytes) TranslationError
whole_event event = ok (some event)

-- In one chunk, the line feeds behind the second event end the first one.
one_chunk :
    push_bytes whole_event []
      (codes "data: a" ++ (return_line_feeds ++ (codes "data: b" ++ line_feeds)))
    ≡ ok ((codes "data: a" ++ (return_line_feeds ++ codes "data: b")) ∷ [], [])
unfolding push_bytes linguamesh_core.Stream.decode_loop linguamesh_core.Stream.find_event_boundary
one_chunk = refl

-- Cut behind the first event, they are two.
first_chunk :
    push_bytes whole_event [] (codes "data: a" ++ return_line_feeds) ≡ ok (codes "data: a" ∷ [], [])
unfolding push_bytes linguamesh_core.Stream.decode_loop linguamesh_core.Stream.find_event_boundary
first_chunk = refl

second_chunk :
    push_bytes whole_event [] (codes "data: b" ++ line_feeds) ≡ ok (codes "data: b" ∷ [], [])
unfolding push_bytes linguamesh_core.Stream.decode_loop linguamesh_core.Stream.find_event_boundary
second_chunk = refl
