-- ===== src/Protection/Restorer/Tests.antt =====
-- Restoring concrete responses.
use linguamesh_core.Base.{arith, ◌≡◌, refl, List, [], ◌∷◌, Text, codes, true, false, ok, err}
use linguamesh_core.Protection.{ProtectedSpan, ProtectedSource, Flagged}
use linguamesh_core.Protection.Boundaries.{join}
use linguamesh_core.Protection.Restorer.{
  protected_token_prefix, ProtectedTextError, invalid_marker, missing_marker, duplicate_marker,
  ProtectedTextRestorer, restorer, restore, restore_loop,
}
use linguamesh_core.Protection.Restorer.Pieces.{
  Piece, plain, marker, source_of, output_of, Accounts,
}
use linguamesh_core.Protection.Restorer.Steps.{restore-Accounts_fresh}
use linguamesh_core.Protection.Restorer.Roundtrip.{restore-Answers}
use linguamesh_core.Protection.Restorer.Enough.{restore_loop-enough}

abbrev first : ProtectedSpan
first = record {
  token = codes "__LINGUAMESH_PROTECTED_0__";
  source = codes "`x`";
  replacement = codes "`x`";
}

abbrev second : ProtectedSpan
second = record {
  token = codes "__LINGUAMESH_PROTECTED_1__";
  source = codes "Hund";
  replacement = codes "dog";
}

abbrev source : ProtectedSource
source = record {
  text = codes "Der __LINGUAMESH_PROTECTED_1__ __LINGUAMESH_PROTECTED_0__";
  spans = first ∷ second ∷ [];
}

abbrev answer : List Piece
answer =
    plain (codes "The ") ∷ marker second ∷ plain (codes " ") ∷ marker first ∷ plain (codes "!") ∷ []

-- The first marker is cut behind its prefix, and the second one behind a token's common part.
abbrev deltas : List Text
deltas =
    codes "The __LINGUA" ∷ codes "MESH_PROTECTED_1__ __LINGUAMESH_PROTECTED_" ∷ codes "0__!" ∷ []

restores : restore (restorer source) deltas ≡ ok (codes "The dog `x`!")
unfolding restore linguamesh_core.Protection.Restorer.push restorer restore_loop
    linguamesh_core.Protection.Restorer.next_marker linguamesh_core.Protection.Restorer.release
    linguamesh_core.Protection.Restorer.append_plain_text
    linguamesh_core.Protection.Restorer.longest_marker_prefix_suffix
    linguamesh_core.Protection.Restorer.pass linguamesh_core.Protection.Restorer.finish
restores = refl

missing :
    restore (restorer source) (codes "The dog __LINGUAMESH_PROTECTED_0__" ∷ []) ≡ err missing_marker
unfolding restore linguamesh_core.Protection.Restorer.push restorer restore_loop
    linguamesh_core.Protection.Restorer.next_marker
    linguamesh_core.Protection.Restorer.append_plain_text linguamesh_core.Protection.Restorer.pass
    linguamesh_core.Protection.Restorer.release linguamesh_core.Protection.Restorer.finish
missing = refl

duplicate :
    restore (restorer source) (codes "__LINGUAMESH_PROTECTED_0____LINGUAMESH_PROTECTED_0__" ∷ [])
    ≡ err duplicate_marker
unfolding restore linguamesh_core.Protection.Restorer.push restorer restore_loop
    linguamesh_core.Protection.Restorer.next_marker
    linguamesh_core.Protection.Restorer.append_plain_text linguamesh_core.Protection.Restorer.pass
duplicate = refl

-- The marker of the second span, cut behind its number: the first span keeps one byte of it, and
-- the rest is taken for an invalid marker.
cut_behind_number :
    restore
      (restorer source)
      (codes "The __LINGUAMESH_PROTECTED_1_" ∷ codes "_ __LINGUAMESH_PROTECTED_0__!" ∷ [])
    ≡ err invalid_marker
unfolding restore linguamesh_core.Protection.Restorer.push restorer restore_loop
    linguamesh_core.Protection.Restorer.next_marker linguamesh_core.Protection.Restorer.release
    linguamesh_core.Protection.Restorer.append_plain_text
    linguamesh_core.Protection.Restorer.longest_marker_prefix_suffix
cut_behind_number = refl

restore-Accounts_fresh_example : Accounts (join deltas) (codes "The dog `x`!") source.spans []
restore-Accounts_fresh_example =
    restore-Accounts_fresh source deltas (codes "The dog `x`!") restores

restore-Answers_example : restore (restorer source) (source_of answer ∷ []) ≡ ok (output_of answer)
unfolding restorer
restore-Answers_example =
    restore-Answers source answer (refl, (refl, tt), (refl, tt, tt))
      (
        (refl, (refl, (refl, (refl, tt)))),
        (
          (first, false) ∷ [],
          [],
          refl,
          ((refl, tt), ([], (second, true) ∷ [], refl, ((refl, tt), refl))),
        ),
      )

restore_loop-enough_example :
    restore_loop 3 (record { spans = (first, false) ∷ (second, false) ∷ []; pending = source.text })
    ≡ restore_loop 9
        (record { spans = (first, false) ∷ (second, false) ∷ []; pending = source.text })
restore_loop-enough_example =
    restore_loop-enough 2 8
      (record { spans = (first, false) ∷ (second, false) ∷ []; pending = source.text })
      (omega arith) (omega arith)
