-- ===== src/Stream/Arms.antt =====
-- The arms of some messages, in the loop of `translate_protected_stream`, and then those of others.
use linguamesh_core.Base.{
  ◌≡◌, refl, ap, ◌∙◌, Bool, true, false, List, [], ◌∷◌, ◌++◌, Text, Result, ok, err,
}
use linguamesh_core.Failure.{TranslationError}
use linguamesh_core.Engine.{TranslationStreamEvent}
use linguamesh_core.Protection.Restorer.{ProtectedTextError, ProtectedTextRestorer, push}
use linguamesh_core.Stream.Run.{
  Action, push_delta, report_usage, complete, Run, fail, yield_event, yield_text, and_then, perform,
  map_protected_error,
}

abbrev pub State : Type 0
State = ProtectedTextRestorer × Bool

pub and_then-same :
    {A B : Type 0} (run : Run A) (f g : A → Run B)
    → ((a : A) → f a ≡ g a)
    → and_then run f ≡ and_then run g
and_then-same run f g h = go run.ends
  where
    go :
        (e : Result _ TranslationError)
        → and_then (record { yields = run.yields; ends = e }) f
          ≡ and_then (record { yields = run.yields; ends = e }) g
    go (ok a) = rw (h a) refl
    go (err e) = refl

and_then-yield_event :
    {A B : Type 0} (event : TranslationStreamEvent) (run : Run A) (f : A → Run B)
    → and_then (yield_event event run) f ≡ yield_event event (and_then run f)
and_then-yield_event event run f = go run.ends
  where
    go :
        (e : Result _ TranslationError)
        → and_then (yield_event event (record { yields = run.yields; ends = e })) f
          ≡ yield_event event (and_then (record { yields = run.yields; ends = e }) f)
    go (ok a) = refl
    go (err e) = refl

and_then-yield_text :
    {A B : Type 0} (text : Text) (run : Run A) (f : A → Run B)
    → and_then (yield_text text run) f ≡ yield_text text (and_then run f)
and_then-yield_text [] run f = refl
and_then-yield_text (c ∷ text) run f = and_then-yield_event _ run f

-- What comes behind the arms of some messages, unless they complete the response.
abbrev pub unless_complete : (ProtectedTextRestorer → Run State) → State → Run State
unless_complete next (r, true) = record { yields = []; ends = ok (r, true) }
unless_complete next (r, false) = next r

pub perform-append :
    (before after : List Action) (r : ProtectedTextRestorer)
    → and_then (perform before r) (unless_complete (perform after)) ≡ perform (before ++ after) r
unfolding perform
perform-append [] after r = refl
perform-append (push_delta text ∷ before) after r =
    pushed (push r text) (λ r'. perform-append before after r')
  where
    pushed :
        (o : Result (Text × ProtectedTextRestorer) ProtectedTextError)
        → ((r' : ProtectedTextRestorer)
            → and_then (perform before r') (unless_complete (perform after))
              ≡ perform (before ++ after) r')
        → and_then
            (elim o as (λ _. Run State) [
              | err error ↦ fail (map_protected_error error)
              | ok (safe_delta, r') ↦ yield_text safe_delta (perform before r')
            ])
            (unless_complete (perform after))
          ≡ elim o as (λ _. Run State) [
            | err error ↦ fail (map_protected_error error)
            | ok (safe_delta, r') ↦ yield_text safe_delta (perform (before ++ after) r')
          ]
    pushed (err error) ih = refl
    pushed (ok (safe_delta, r')) ih =
        and_then-yield_text safe_delta (perform before r') (unless_complete (perform after))
        ∙ ap (yield_text safe_delta) (ih r')
perform-append (report_usage usage ∷ before) after r =
    and_then-yield_event _ (perform before r) (unless_complete (perform after))
    ∙ ap (yield_event _) (perform-append before after r)
perform-append (complete ∷ before) after r = refl
