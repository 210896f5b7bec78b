-- ===== src/Protection/Tests.antt =====
-- Splitting at concrete inputs.
use linguamesh_core.Base.{
  arith, ◌≡◌, refl, ℕ, List, [], ◌∷◌, ◌++◌, All, Text, codes, Result, ok, err,
}
use linguamesh_core.Protection.{
  ProtectedSpan, ProtectedSource, protected_span_too_large, split_protected_text, chunks,
}
use linguamesh_core.Protection.Boundaries.{IsSplit, split_protected_text-IsSplit}
use linguamesh_core.Protection.Success.{split_protected_text_ok}
use linguamesh_core.Protection.Distribution.{chunk_texts, count_containing, chunks-IsSplit}

abbrev span : ProtectedSpan
span = record { token = codes "__P0__"; source = codes "`x`"; replacement = codes "`x`" }

abbrev source : ProtectedSource
source = record { text = codes "Hello. Use __P0__ now"; spans = span ∷ [] }

abbrev pieces : List Text
pieces = codes "Hello. Use " ∷ codes "__P0__ " ∷ codes "now" ∷ []

abbrev parts : List ProtectedSource
parts =
    record { text = codes "Hello. Use "; spans = [] }
    ∷ record { text = codes "__P0__ "; spans = span ∷ [] }
    ∷ record { text = codes "now"; spans = [] }
    ∷ []

splits : split_protected_text source.text 11 (span.token ∷ []) ≡ ok pieces
unfolding split_protected_text linguamesh_core.Protection.next_chunk
    linguamesh_core.Protection.semantic_boundary linguamesh_core.Base.is_whitespace
splits = refl

too_large :
    split_protected_text (codes "__P0__ and more") 5 (span.token ∷ [])
    ≡ err protected_span_too_large
unfolding split_protected_text linguamesh_core.Protection.next_chunk
too_large = refl

distributes : chunks source 11 ≡ ok parts
unfolding chunks split_protected_text linguamesh_core.Protection.next_chunk
    linguamesh_core.Protection.semantic_boundary linguamesh_core.Base.is_whitespace
    linguamesh_core.Protection.distribute linguamesh_core.Protection.claim
distributes = refl

split_protected_text-IsSplit_example : IsSplit source.text 11 pieces
split_protected_text-IsSplit_example =
    split_protected_text-IsSplit source.text 11 (span.token ∷ []) pieces splits

chunks-IsSplit_example :
    IsSplit source.text 11 (chunk_texts parts)
    × All (λ s. count_containing s.token (chunk_texts parts) ≡ 1) source.spans
chunks-IsSplit_example = chunks-IsSplit source 11 parts distributes

split_protected_text_ok_example :
    (ps : List Text) × (split_protected_text source.text 11 (span.token ∷ []) ≡ ok ps)
split_protected_text_ok_example =
    split_protected_text_ok source.text 11 (span.token ∷ []) (omega arith) (omega arith, tt)
