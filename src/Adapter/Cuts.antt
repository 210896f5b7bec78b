-- ===== src/Adapter/Cuts.antt =====
-- The stream of `translate_protected_stream` in crates/linguamesh-provider-openai/src/lib.rs and the
-- other adapters of server-sent events does not depend on how the network cuts a response.
use linguamesh_core.Base.{
  ◌≡◌, ◌≤◌, refl, sym, ap, ◌∙◌, subst, ℕ, ◌+◌, true, false, Option, none, List, [], ◌∷◌, ◌++◌, map,
  length, length-append, Result, ok, err, >>=-eq-ok, ltb, arith,
}
use mathlib.Core.List.{append_assoc, append-nil}
use linguamesh_core.Failure.{TranslationError}
use linguamesh_core.Protection.{ProtectedSource}
use linguamesh_core.Protection.Boundaries.{join}
use linguamesh_core.Protection.Restorer.{ProtectedTextRestorer, restorer}
use linguamesh_core.Stream.{Bytes, find_event_boundary, decode_loop, push_bytes}
use linguamesh_core.Stream.Boundary.{HasOneDelimiter, HasOneDelimiter-back}
use linguamesh_core.Stream.Chunks.{decode_loop-none, decode_loop-append, decode_loop-rest}
use linguamesh_core.Stream.Restored.{actions_of-append}
use linguamesh_core.Stream.Run.{
  Action, Next, chunk, Run, and_then, perform, actions_of, add_bytes, max_response_bytes,
  last_messages, stream_loop, finish_stream, translate_protected_stream,
}
use linguamesh_core.Adapter.{sse_decoder}
use linguamesh_core.Stream.Arms.{State, and_then-same, unless_complete, perform-append}

ok-injective : {A : Type 0} {a b : A} → ◌≡◌ {A = Result A TranslationError} (ok a) (ok b) → a ≡ b
ok-injective {A} {a} h = ap (or_first a) h
  where
    or_first : A → Result A TranslationError → A
    or_first d (ok b) = b
    or_first d (err e) = d

module _ {M : Type 0} (parse_event : Bytes → Result (Option M) TranslationError)
    (arm : M → List Action) where
  -- A turn of the loop on a chunk within the limit that is decoded.
  stream_loop-chunk :
      (c buffer : Bytes) (items : List Next) (total : ℕ) (r : ProtectedTextRestorer)
      (y : List M × Bytes) (after : List Action)
      → add_bytes total c ≤ max_response_bytes
      → push_bytes parse_event buffer c ≡ ok y
      → ((r' : ProtectedTextRestorer)
          → stream_loop (sse_decoder parse_event arm) items y.1 (add_bytes total c) r'
            ≡ perform after r')
      → stream_loop (sse_decoder parse_event arm) (chunk c ∷ items) buffer total r
        ≡ perform (actions_of arm y.0 ++ after) r
  unfolding stream_loop
  stream_loop-chunk c buffer items total r y after l p ih =
      let fits : ltb max_response_bytes (add_bytes total c) ≡ false = ground (arith, l) in
      rw (fits, p)
        (and_then-same (perform (actions_of arm y.0) r) _ (unless_complete (perform after)) behind
          ∙ perform-append (actions_of arm y.0) after r)
    where
      behind :
          (state : State)
          → elim state.1 as (λ _. Run State) [
            | true ↦ record { yields = []; ends = ok state }
            | false ↦
                stream_loop (sse_decoder parse_event arm) items y.1 (add_bytes total c) state.0
          ]
            ≡ unless_complete (perform after) state
      behind (r', true) = refl
      behind (r', false) = ih r'

  -- The loop on the chunks of a stream without a malformed event performs the messages of the whole.
  stream_loop-perform :
      (chunks : List Bytes) (buffer : Bytes) (total fuel : ℕ) (r : ProtectedTextRestorer)
      (x : List M × Bytes)
      → HasOneDelimiter (buffer ++ join chunks)
      → find_event_boundary buffer ≡ none
      → total + length (join chunks) ≤ max_response_bytes
      → length (buffer ++ join chunks) ≤ fuel
      → decode_loop parse_event fuel (buffer ++ join chunks) ≡ ok x
      → stream_loop (sse_decoder parse_event arm) (map chunk chunks) buffer total r
        ≡ perform (actions_of arm x.0) r
  unfolding stream_loop last_messages push_bytes perform
  stream_loop-perform [] buffer total fuel r x h e l m d =
      let same : ([], buffer) ≡ x = ok-injective (
        sym (decode_loop-none parse_event fuel buffer e)
        ∙ ap (decode_loop parse_event fuel) (sym (append-nil buffer))
        ∙ d) in
      ap (λ (y : List M × Bytes). perform (actions_of arm y.0) r) same
  stream_loop-perform (c ∷ chunks) buffer total fuel r x h e l m d =
      let whole : buffer ++ (c ++ join chunks) ≡ (buffer ++ c) ++ join chunks =
        sym (append_assoc buffer c (join chunks)) in
      let one = subst HasOneDelimiter whole h in
      let bounded = subst (λ s. length s ≤ fuel) whole m in
      let (y, f, g) = >>=-eq-ok (decode_loop parse_event (length (buffer ++ c)) (buffer ++ c)) _ (
        sym (
          decode_loop-append parse_event (length (buffer ++ c)) fuel fuel (buffer ++ c)
            (join chunks) one (omega arith) bounded bounded)
        ∙ ap (decode_loop parse_event fuel) (sym whole)
        ∙ d) in
      let (z, k, n) = >>=-eq-ok (decode_loop parse_event fuel (y.1 ++ join chunks)) _ g in
      let same : (y.0 ++ z.0, z.1) ≡ x = ok-injective n in
      let (none_left, (front, o)) =
        decode_loop-rest parse_event (length (buffer ++ c)) (buffer ++ c) y (omega arith) f in
      let all : (buffer ++ c) ++ join chunks ≡ front ++ (y.1 ++ join chunks) =
        ap (λ s. s ++ join chunks) o ∙ append_assoc front y.1 (join chunks) in
      stream_loop-chunk c buffer (map chunk chunks) total r y (actions_of arm z.0)
        (ground (arith, l, length-append c (join chunks))) f
        (λ r'.
          stream_loop-perform chunks y.1 (add_bytes total c) fuel r' z
            (HasOneDelimiter-back front (y.1 ++ join chunks) (subst HasOneDelimiter all one))
            none_left (ground (arith, l, length-append c (join chunks)))
            (ground (arith, bounded, ap length all, length-append front (y.1 ++ join chunks))) k)
      ∙ ap (λ actions. perform actions r)
          (sym (actions_of-append (sse_decoder parse_event arm) y.0 z.0))
      ∙ ap (λ (w : List M × Bytes). perform (actions_of arm w.0) r) same

  -- When a stream keeps to one of the two delimiters, is within the limit of bytes, and has no event
  -- in error, a response is what the messages of the whole stream make, in their order up to the
  -- completion, and how it is cut into chunks makes no difference.
  pub translate_protected_stream-join :
      (chunks : List Bytes) (protected : ProtectedSource) (x : List M × Bytes)
      → HasOneDelimiter (join chunks)
      → length (join chunks) ≤ max_response_bytes
      → push_bytes parse_event [] (join chunks) ≡ ok x
      → (translate_protected_stream (sse_decoder parse_event arm) protected (map chunk chunks)
          ≡ and_then
              (perform (actions_of arm x.0) (restorer protected))
              (finish_stream (sse_decoder parse_event arm)))
        × (translate_protected_stream (sse_decoder parse_event arm) protected (map chunk chunks)
            ≡ translate_protected_stream
                (sse_decoder parse_event arm)
                protected
                (chunk (join chunks) ∷ []))
  unfolding translate_protected_stream push_bytes find_event_boundary
  translate_protected_stream-join chunks protected x h l d =
      let one : join (join chunks ∷ []) ≡ join chunks = append-nil (join chunks) in
      let cut =
        stream_loop-perform chunks [] 0 (length (join chunks)) (restorer protected) x h refl
          (ground (arith, l)) (omega arith) d in
      let uncut =
        stream_loop-perform (join chunks ∷ []) [] 0 (length (join chunks)) (restorer protected) x
          (subst HasOneDelimiter (sym one) h) refl (ground (arith, l, ap length one))
          (ground (arith, ap length one))
          (ap (decode_loop parse_event (length (join chunks))) one ∙ d) in
      let ended : Run State → Run (Unit {0}) =
        λ run. and_then run (finish_stream (sse_decoder parse_event arm)) in
      (ap ended cut, ap ended (cut ∙ sym uncut))
