-- ===== src/Protection/Scans.antt =====
-- Protecting concrete source texts.
use linguamesh_core.Base.{
  ◌≡◌, refl, ℕ, Bool, false, none, some, List, [], ◌∷◌, Text, codes, Result, ok, ◌==◌, pos,
}
use linguamesh_core.Protection.{ProtectedSpan, ProtectedSource}
use linguamesh_core.Protection.Building.{build_protected_source}
use linguamesh_core.Protection.Lossless.{Protects, build_protected_source-Protects}

-- No letter is needed for these texts.
abbrev no_letter : ℕ → Bool
no_letter c = false

abbrev source : Text
source = codes "Hi {name}, `x` at a@b.de: 5%d, http://u.v."

abbrev result : ProtectedSource
result = record {
  text =
      codes
        "Hi __LINGUAMESH_PROTECTED_0__, __LINGUAMESH_PROTECTED_1__ at __LINGUAMESH_PROTECTED_2__: 5__LINGUAMESH_PROTECTED_3__, __LINGUAMESH_PROTECTED_4__.";
  spans =
      record {
        token = codes "__LINGUAMESH_PROTECTED_0__";
        source = codes "{name}";
        replacement = codes "{name}";
      }
      ∷ record {
        token = codes "__LINGUAMESH_PROTECTED_1__";
        source = codes "`x`";
        replacement = codes "`x`";
      }
      ∷ record {
        token = codes "__LINGUAMESH_PROTECTED_2__";
        source = codes "a@b.de";
        replacement = codes "a@b.de";
      }
      ∷ record {
        token = codes "__LINGUAMESH_PROTECTED_3__";
        source = codes "%d";
        replacement = codes "%d";
      }
      ∷ record {
        token = codes "__LINGUAMESH_PROTECTED_4__";
        source = codes "http://u.v";
        replacement = codes "http://u.v";
      }
      ∷ [];
}

protects : build_protected_source no_letter source none none none ≡ ok result
unfolding linguamesh_core.Protection.Scanners.fenced_loop
    linguamesh_core.Protection.Scanners.collect_fenced_code_candidates
    linguamesh_core.Protection.Scanners.inline_loop
    linguamesh_core.Protection.Scanners.collect_inline_code_candidates
    linguamesh_core.Protection.Scanners.is_placeholder_body
    linguamesh_core.Protection.Scanners.placeholder_end
    linguamesh_core.Protection.Scanners.collect_placeholder_candidates
    linguamesh_core.Protection.Scanners.url_end
    linguamesh_core.Protection.Scanners.collect_url_candidates
    linguamesh_core.Protection.Scanners.email_at
    linguamesh_core.Protection.Scanners.collect_email_candidates
    linguamesh_core.Protection.Building.compare_candidates
    linguamesh_core.Protection.Building.select_loop
    linguamesh_core.Protection.Building.collect_candidates
    linguamesh_core.Protection.Building.free_token linguamesh_core.Protection.Building.replace_loop
    build_protected_source linguamesh_core.Base.insert_by linguamesh_core.Base.sort_by
    linguamesh_core.Base.is_whitespace
protects = refl

build_protected_source-Protects_example : Protects source source result.text result.spans
build_protected_source-Protects_example =
    build_protected_source-Protects no_letter source none none none result protects
