-- ===== src/Stream/Completed.antt =====
-- A response that ends without an error is complete and restored: the stream of
-- `translate_protected_stream` in the adapters.
use linguamesh_core.Base.{
  arith, ◌≡◌, ◌⊎◌, inl, inr, refl, sym, ap, ◌∙◌, subst, ℕ, Bool, true, false, List, [], ◌∷◌, ◌++◌,
  Text, Result, ok, err, ltb, if◌then◌else◌,
}
use mathlib.Core.List.{append-nil}
use linguamesh_core.Failure.{TranslationError}
use linguamesh_core.Engine.{TranslationStreamEvent}
use linguamesh_core.Protection.{ProtectedSource}
use linguamesh_core.Protection.Boundaries.{join}
use linguamesh_core.Protection.Restorer.{
  ProtectedTextError, ProtectedTextRestorer, restorer, finish,
}
use linguamesh_core.Protection.Restorer.Markers.{unseen}
use linguamesh_core.Protection.Restorer.Pieces.{Accounts, Accounts-append}
use linguamesh_core.Protection.Restorer.Steps.{finish-Accounts, unseen-fresh}
use linguamesh_core.Stream.{Bytes}
use linguamesh_core.Stream.Run.{
  Next, chunk, transport_failed, token_cancelled, idle_timeout, Run, fail, yield_text, and_then,
  perform, actions_of, Decoder, handle, last_messages, stream_loop, finish_stream,
  translate_protected_stream, add_bytes, max_response_bytes, map_protected_error,
}
use linguamesh_core.Stream.Restored.{
  deltas_of, completes, texts_of, texts_of-append, texts_of-yield_text, Performed,
  perform-Performed, Performed-append, Decoded, last, completing, continuing, actions_of-append,
}

Result-cases :
    {A : Type 0} (q : Result A TranslationError)
    → ((a : A) × (q ≡ ok a)) ⊎ ((e : TranslationError) × (q ≡ err e))
Result-cases (ok a) = inl (a, refl)
Result-cases (err e) = inr (e, refl)

-- A run that goes on after another one.
and_then-ok :
    {A B : Type 0} (run : Run A) (next : A → Run B) (b : B)
    → (and_then run next).ends ≡ ok b
    → (a : A) × (run.ends ≡ ok a)
      × ((next a).ends ≡ ok b)
      × ((and_then run next).yields ≡ run.yields ++ (next a).yields)
and_then-ok run next b h = elim (Result-cases run.ends) [
  | inl (a, e) ↦ (a, e, rw e at h, rw e refl)
  | inr (e, f) ↦ absurd (no_result e (rw f at h))
]
  where
    no_result : (e : TranslationError) → ◌≡◌ {A = Result _ TranslationError} (err e) (ok b) → ⊥
    no_result e k = cc

not_failed :
    {A : Type 0} (test : Bool) (e : TranslationError) (run : Run A) (a : A)
    → (if test then fail e else run).ends ≡ ok a
    → (if test then fail e else run) ≡ run
not_failed true e run a h = cc
not_failed false e run a h = refl

module _ {M : Type 0} (decoder : Decoder M) where
  handle-ok :
      {A : Type 0} (q : Result A TranslationError) (next : A → Run (ProtectedTextRestorer × Bool))
      (r : ProtectedTextRestorer × Bool)
      → (handle decoder q next).ends ≡ ok r
      → (a : A) × (q ≡ ok a) × (handle decoder q next ≡ next a)
  handle-ok (ok a) next r h = (a, refl, refl)
  handle-ok (err e) next r h = cc

  -- Messages of a response, and what their arms have done.
  abbrev Streamed :
      List Next
      → Bytes
      → ProtectedTextRestorer
      → List TranslationStreamEvent
      → ProtectedTextRestorer × Bool
      → Type 0
  Streamed items buffer self events r =
      (ms : List M) × Decoded decoder items buffer ms
      × Performed (actions_of decoder.arm ms) self events r

  -- What follows the messages of a chunk.
  abbrev go_on :
      List Next → Bytes → ℕ → ProtectedTextRestorer × Bool → Run (ProtectedTextRestorer × Bool)
  go_on items buffer total_bytes state = elim state.1 [
    | true ↦ record { yields = []; ends = ok state }
    | false ↦ stream_loop decoder items buffer total_bytes state.0
  ]

  chunk-Streamed :
      (c buffer rest : Bytes) (items : List Next) (total : ℕ) (ms : List M)
      (self next : ProtectedTextRestorer) (completed : Bool) (r : ProtectedTextRestorer × Bool)
      → decoder.push_chunk buffer c ≡ ok (ms, rest)
      → Performed
          (actions_of decoder.arm ms)
          self
          (perform (actions_of decoder.arm ms) self).yields
          (next, completed)
      → ((stream_loop decoder items rest total next).ends ≡ ok r
          → Streamed items rest next (stream_loop decoder items rest total next).yields r)
      → (go_on items rest total (next, completed)).ends ≡ ok r
      → Streamed
          (chunk c ∷ items)
          buffer
          self
          ((perform (actions_of decoder.arm ms) self).yields
            ++ (go_on items rest total (next, completed)).yields)
          r
  chunk-Streamed c buffer rest items total ms self next true r e p ih h = (
    ms,
    completing e p.0,
    rw (append-nil (perform (actions_of decoder.arm ms) self).yields) (
        subst
          (Performed (actions_of decoder.arm ms) self
            (perform (actions_of decoder.arm ms) self).yields)
          {x = (next, true)} {y = r} (ground arith) p),
  )
  chunk-Streamed c buffer rest items total ms self next false r e p ih h =
      let (later, d, q) = ih h in
      (
        ms ++ later,
        continuing e d,
        rw (actions_of-append decoder ms later) (
            Performed-append (actions_of decoder.arm ms) (actions_of decoder.arm later) self next
              (perform (actions_of decoder.arm ms) self).yields
              (stream_loop decoder items rest total next).yields r p q),
      )

  stream_loop-Streamed :
      (items : List Next) (buffer : Bytes) (total : ℕ) (self : ProtectedTextRestorer)
      (r : ProtectedTextRestorer × Bool)
      → (stream_loop decoder items buffer total self).ends ≡ ok r
      → Streamed items buffer self (stream_loop decoder items buffer total self).yields r
  unfolding stream_loop last_messages
  stream_loop-Streamed [] buffer total self r h =
      let (ms, e, f) =
        handle-ok (decoder.at_end buffer) (λ ms. perform (actions_of decoder.arm ms) self) r h in
      (
        ms,
        last e,
        subst (λ run. Performed (actions_of decoder.arm ms) self run.yields r) (sym f)
            (perform-Performed (actions_of decoder.arm ms) self r
              (ap (λ run. run.ends) (sym f) ∙ h)),
      )
  stream_loop-Streamed (token_cancelled ∷ items) buffer total self r h = cc
  stream_loop-Streamed (idle_timeout ∷ items) buffer total self r h = cc
  stream_loop-Streamed (transport_failed t ∷ items) buffer total self r h = cc
  stream_loop-Streamed (chunk c ∷ items) buffer total self r h =
      let total' = add_bytes total c in
      let within = not_failed (ltb max_response_bytes total') _ _ r h in
      let handled = ap (λ run. run.ends) (sym within) ∙ h in
      let ((ms, rest), e, f) = handle-ok (decoder.push_chunk buffer c) _ r handled in
      let ((next, completed), g, k, l) =
        and_then-ok (perform (actions_of decoder.arm ms) self) (go_on items rest total') r
          (ap (λ run. run.ends) (sym f) ∙ handled) in
      subst (λ events. Streamed (chunk c ∷ items) buffer self events r)
        (sym (ap (λ run. run.yields) (within ∙ f) ∙ l))
        (chunk-Streamed c buffer rest items total' ms self next completed r e
          (perform-Performed (actions_of decoder.arm ms) self (next, completed) g)
          (stream_loop-Streamed items rest total' next r) k)

  finish_stream-Accounts :
      (self : ProtectedTextRestorer) (completed : Bool)
      → (finish_stream decoder (self, completed)).ends ≡ ok tt
      → (completed ≡ true)
        × Accounts self.pending
            (texts_of (finish_stream decoder (self, completed)).yields)
            (unseen self.spans)
            []
  finish_stream-Accounts self false h = cc
  finish_stream-Accounts self true h = finished (finish self) refl h
    where
      after_finish : Result Text ProtectedTextError → Run (Unit {0})
      after_finish p = elim p [
        | err error ↦ fail (map_protected_error error)
        | ok safe_tail ↦ yield_text safe_tail (record { yields = []; ends = ok tt })
      ]

      finished :
          (p : Result Text ProtectedTextError)
          → finish self ≡ p
          → (after_finish p).ends ≡ ok tt
          → (true ≡ true)
            × Accounts self.pending (texts_of (after_finish p).yields) (unseen self.spans) []
      finished (err e) k m = cc
      finished (ok safe_tail) k m = (
        refl,
        subst (λ o. Accounts self.pending o (unseen self.spans) [])
            (sym (
              texts_of-yield_text safe_tail (record { yields = []; ends = ok tt })
              ∙ append-nil safe_tail))
            (finish-Accounts self safe_tail k),
      )

  -- When the stream of a response ends without an error, its messages have completed it, and its
  -- texts are what the deltas up to the completion stand for, with every span of the source
  -- restored once.
  pub translate_protected_stream-Accounts :
      (protected : ProtectedSource) (items : List Next)
      → (translate_protected_stream decoder protected items).ends ≡ ok tt
      → (ms : List M) × Decoded decoder items [] ms
        × (completes (actions_of decoder.arm ms) ≡ true)
        × Accounts
            (join (deltas_of (actions_of decoder.arm ms)))
            (texts_of (translate_protected_stream decoder protected items).yields)
            protected.spans
            []
  unfolding translate_protected_stream restorer
  translate_protected_stream-Accounts protected items h =
      let ((self, completed), e, f, g) =
        and_then-ok (stream_loop decoder items [] 0 (restorer protected)) (finish_stream decoder) tt
          h in
      let out = stream_loop decoder items [] 0 (restorer protected) in
      let end = finish_stream decoder (self, completed) in
      let (ms, d, (k, (t, l, acc))) =
        stream_loop-Streamed items [] 0 (restorer protected) (self, completed) e in
      let (m, tail) = finish_stream-Accounts self completed f in
      (
        ms,
        d,
        k ∙ m,
        subst (λ o. Accounts (join (deltas_of (actions_of decoder.arm ms))) o protected.spans [])
            (sym (ap texts_of g ∙ texts_of-append out.yields end.yields))
            (subst (λ x. Accounts x (texts_of out.yields ++ texts_of end.yields) protected.spans [])
              (sym l)
              (subst
                (λ u.
                  Accounts (t ++ self.pending) (texts_of out.yields ++ texts_of end.yields) u [])
                (unseen-fresh protected.spans) (Accounts-append acc tail))),
      )
