-- ===== src/Stream/Restored.antt =====
-- What a response that ends without an error has given out: the stream of
-- `translate_protected_stream` in the adapters.
use linguamesh_core.Base.{
  arith, ◌≡◌, refl, sym, ap, ◌∙◌, subst, Bool, true, false, List, [], ◌∷◌, ◌++◌, Text, Result, ok,
  err,
}
use mathlib.Core.List.{append_assoc, append-nil}
use linguamesh_core.Failure.{TranslationError}
use linguamesh_core.Engine.{TranslationStreamEvent, text_item, usage_item}
use linguamesh_core.Protection.Boundaries.{join}
use linguamesh_core.Protection.Restorer.{ProtectedTextError, ProtectedTextRestorer, push}
use linguamesh_core.Protection.Restorer.Markers.{unseen}
use linguamesh_core.Protection.Restorer.Pieces.{Accounts-append, plain-Accounts}
use linguamesh_core.Protection.Restorer.Steps.{Steps, push-Steps}
use linguamesh_core.Stream.{Bytes}
use linguamesh_core.Stream.Run.{
  Action, push_delta, report_usage, complete, Next, chunk, Run, fail, yield_text, perform,
  actions_of, Decoder, map_protected_error,
}

-- The deltas that some actions push, up to the completion, and whether they complete.
abbrev pub deltas_of : List Action → List Text
deltas_of [] = []
deltas_of (push_delta text ∷ actions) = text ∷ deltas_of actions
deltas_of (report_usage usage ∷ actions) = deltas_of actions
deltas_of (complete ∷ actions) = []

abbrev pub completes : List Action → Bool
completes [] = false
completes (push_delta text ∷ actions) = completes actions
completes (report_usage usage ∷ actions) = completes actions
completes (complete ∷ actions) = true

-- The text of some events.
abbrev pub texts_of : List TranslationStreamEvent → Text
texts_of [] = []
texts_of (text_item text ∷ events) = text ++ texts_of events
texts_of (usage_item usage ∷ events) = texts_of events

pub texts_of-append :
    (a b : List TranslationStreamEvent) → texts_of (a ++ b) ≡ texts_of a ++ texts_of b
texts_of-append [] b = refl
texts_of-append (text_item t ∷ a) b =
    ap (λ x. t ++ x) (texts_of-append a b) ∙ sym (append_assoc t (texts_of a) (texts_of b))
texts_of-append (usage_item u ∷ a) b = texts_of-append a b

pub texts_of-yield_text :
    {A : Type 0} (t : Text) (run : Run A)
    → texts_of (yield_text t run).yields ≡ t ++ texts_of run.yields
texts_of-yield_text [] run = refl
texts_of-yield_text (c ∷ t) run = refl

pub ends-yield_text : {A : Type 0} (t : Text) (run : Run A) → (yield_text t run).ends ≡ run.ends
ends-yield_text [] run = refl
ends-yield_text (c ∷ t) run = refl

Steps-nil : (self : ProtectedTextRestorer) → Steps self.pending [] self self
Steps-nil self = ([], refl, plain-Accounts [] (unseen self.spans))

Steps-append :
    (x y o p : Text) (a b c : ProtectedTextRestorer)
    → Steps x o a b
    → Steps (b.pending ++ y) p b c
    → Steps (x ++ y) (o ++ p) a c
Steps-append x y o p a b c (t, e, h) (u, f, k) = (
  t ++ u,
  ap (λ s. s ++ y) e
      ∙ append_assoc t b.pending y
      ∙ ap (λ s. t ++ s) f
      ∙ sym (append_assoc t u c.pending),
  Accounts-append h k,
)

states :
    {a b : ProtectedTextRestorer} {u v : Bool}
    → ◌≡◌ {A = Result (ProtectedTextRestorer × Bool) TranslationError} (ok (a, u)) (ok (b, v))
    → (a ≡ b) × (u ≡ v)
states h = (ground arith, ground arith)

-- What a run of actions that succeeds has done.
abbrev pub Performed :
    List Action
    → ProtectedTextRestorer
    → List TranslationStreamEvent
    → ProtectedTextRestorer × Bool
    → Type 0
Performed actions self events (self', completed) =
    (completes actions ≡ completed)
    × Steps (self.pending ++ join (deltas_of actions)) (texts_of events) self self'

here :
    (completed : Bool) (self : ProtectedTextRestorer) (r : ProtectedTextRestorer × Bool)
    → ◌≡◌ {A = Result (ProtectedTextRestorer × Bool) TranslationError} (ok (self, completed)) (ok r)
    → (completed ≡ r.1) × Steps (self.pending ++ []) [] self r.0
here completed self r h =
    let (a, b) = states h in
    (
      b,
      subst (Steps (self.pending ++ []) [] self) a
          (subst (λ t. Steps t [] self self) (sym (append-nil self.pending)) (Steps-nil self)),
    )

-- What follows the push of a delta.
abbrev after_push :
    List Action
    → Result (Text × ProtectedTextRestorer) ProtectedTextError
    → Run (ProtectedTextRestorer × Bool)
after_push actions p = elim p [
  | err error ↦ fail (map_protected_error error)
  | ok (safe_delta, span_restorer) ↦ yield_text safe_delta (perform actions span_restorer)
]

after_push-Performed :
    (text : Text) (actions : List Action) (self : ProtectedTextRestorer)
    (r : ProtectedTextRestorer × Bool)
    (p : Result (Text × ProtectedTextRestorer) ProtectedTextError)
    → push self text ≡ p
    → ((next : ProtectedTextRestorer)
        → (perform actions next).ends ≡ ok r
        → Performed actions next (perform actions next).yields r)
    → (after_push actions p).ends ≡ ok r
    → Performed (push_delta text ∷ actions) self (after_push actions p).yields r
after_push-Performed text actions self r (err error) e ih h = cc
after_push-Performed text actions self r (ok (safe, next)) e ih h =
    let (a, b) = ih next (sym (ends-yield_text safe (perform actions next)) ∙ h) in
    let both =
      Steps-append (self.pending ++ text) (join (deltas_of actions)) safe
        (texts_of (perform actions next).yields) self next r.0 (push-Steps self text (safe, next) e)
        b in
    (
      a,
      subst (λ t. Steps t (texts_of (yield_text safe (perform actions next)).yields) self r.0)
          (append_assoc self.pending text (join (deltas_of actions)))
          (subst (λ o. Steps ((self.pending ++ text) ++ join (deltas_of actions)) o self r.0)
            (sym (texts_of-yield_text safe (perform actions next))) both),
    )

pub perform-Performed :
    (actions : List Action) (self : ProtectedTextRestorer) (r : ProtectedTextRestorer × Bool)
    → (perform actions self).ends ≡ ok r
    → Performed actions self (perform actions self).yields r
unfolding perform
perform-Performed [] self r h = here false self r h
perform-Performed (complete ∷ actions) self r h = here true self r h
perform-Performed (report_usage usage ∷ actions) self r h = perform-Performed actions self r h
perform-Performed (push_delta text ∷ actions) self r h =
    after_push-Performed text actions self r (push self text) refl
      (λ next. perform-Performed actions next r) h

module _ {M : Type 0} (decoder : Decoder M) where
  -- The messages of a response, from a buffer: those of its chunks up to the one that completes it,
  -- or those of all chunks and of the bytes that are left.
  pub data Decoded : List Next → Bytes → List M → Type 0 where
    last : {buffer : Bytes} {ms : List M} → decoder.at_end buffer ≡ ok ms → Decoded [] buffer ms
    completing :
        {c buffer rest : Bytes} {items : List Next} {ms : List M}
        → decoder.push_chunk buffer c ≡ ok (ms, rest)
        → completes (actions_of decoder.arm ms) ≡ true
        → Decoded (chunk c ∷ items) buffer ms
    continuing :
        {c buffer rest : Bytes} {items : List Next} {ms later : List M}
        → decoder.push_chunk buffer c ≡ ok (ms, rest)
        → Decoded items rest later
        → Decoded (chunk c ∷ items) buffer (ms ++ later)

  pub actions_of-append :
      (ms ns : List M)
      → actions_of decoder.arm (ms ++ ns) ≡ actions_of decoder.arm ms ++ actions_of decoder.arm ns
  actions_of-append [] ns = refl
  actions_of-append (m ∷ ms) ns =
      ap (λ x. decoder.arm m ++ x) (actions_of-append ms ns)
      ∙ sym (append_assoc (decoder.arm m) (actions_of decoder.arm ms) (actions_of decoder.arm ns))

completes-append : (a b : List Action) → completes a ≡ false → completes (a ++ b) ≡ completes b
completes-append [] b h = refl
completes-append (push_delta t ∷ a) b h = completes-append a b h
completes-append (report_usage u ∷ a) b h = completes-append a b h
completes-append (complete ∷ a) b h = cc

deltas_of-append :
    (a b : List Action)
    → completes a ≡ false
    → join (deltas_of (a ++ b)) ≡ join (deltas_of a) ++ join (deltas_of b)
deltas_of-append [] b h = refl
deltas_of-append (push_delta t ∷ a) b h =
    ap (λ x. t ++ x) (deltas_of-append a b h)
    ∙ sym (append_assoc t (join (deltas_of a)) (join (deltas_of b)))
deltas_of-append (report_usage u ∷ a) b h = deltas_of-append a b h
deltas_of-append (complete ∷ a) b h = cc

pub Performed-append :
    (a b : List Action) (self next : ProtectedTextRestorer) (e f : List TranslationStreamEvent)
    (r : ProtectedTextRestorer × Bool)
    → Performed a self e (next, false)
    → Performed b next f r
    → Performed (a ++ b) self (e ++ f) r
Performed-append a b self next e f r (c, h) (d, k) =
    let whole : (self.pending ++ join (deltas_of a)) ++ join (deltas_of b)
        ≡ self.pending ++ join (deltas_of (a ++ b)) =
      append_assoc self.pending (join (deltas_of a)) (join (deltas_of b))
      ∙ ap (λ x. self.pending ++ x) (sym (deltas_of-append a b c)) in
    (
      completes-append a b c ∙ d,
      subst (λ t. Steps t (texts_of (e ++ f)) self r.0) whole
          (subst
            (λ o. Steps ((self.pending ++ join (deltas_of a)) ++ join (deltas_of b)) o self r.0)
            (sym (texts_of-append e f))
            (Steps-append (self.pending ++ join (deltas_of a)) (join (deltas_of b)) (texts_of e)
              (texts_of f) self next r.0 h k)),
    )
