-- ===== src/Provider/Prompt.antt =====
-- What a user's values can do to the prompt of crates/linguamesh-provider-api/src/lib.rs.
use linguamesh_core.Base.{
  ◌≡◌, inl, inr, refl, ℕ, suc, ◌+◌, Option, none, some, List, [], ◌∷◌, ◌++◌, All, Text, codes, ◌==◌,
  if◌then◌else◌, Bool-cases, arith,
}
use linguamesh_core.Request.{TranslationPreset, TranslationQualityMode, fast, balanced, best}
use linguamesh_core.Stream.Utf8.{join_with}
use linguamesh_core.Provider.{
  opening, guidance, language_hint, replace, escape_prompt_value, field, optional_field,
  preset_fields, render_preset_instruction, quality_instruction, source_instruction,
  translation_prompt,
}

-- How many times a character stands in a text.
abbrev pub count_char : ℕ → Text → ℕ
count_char c [] = 0
count_char c (d ∷ s) = if d == c then suc (count_char c s) else count_char c s

count_char-append : (c : ℕ) (s t : Text) → count_char c (s ++ t) ≡ count_char c s + count_char c t
count_char-append c [] t = ground arith
count_char-append c (d ∷ s) t = ground (arith, count_char-append c s t)

-- A replacement without the character removes it, and one without another adds none of that.
replace_removes : (c : ℕ) (by s : Text) → count_char c by ≡ 0 → count_char c (replace c by s) ≡ 0
replace_removes c by [] h = refl
replace_removes c by (d ∷ s) h = elim (Bool-cases (d == c)) [
  | inl e ↦ rw e (ground (arith, count_char-append c by (replace c by s), replace_removes c by s h))
  | inr e ↦ rw (e, e) (replace_removes c by s h)
]

replace_keeps :
    (c other : ℕ) (by s : Text)
    → count_char other by ≡ 0
    → count_char other s ≡ 0
    → count_char other (replace c by s) ≡ 0
replace_keeps c other by [] h k = refl
replace_keeps c other by (d ∷ s) h k = elim (Bool-cases (d == other)) [
  | inl e ↦ absurd (ground (arith, e))
  | inr e ↦ elim (Bool-cases (d == c)) [
    | inl f ↦ rw f (
        ground (
          arith,
          count_char-append other by (replace c by s),
          replace_keeps c other by s h (rw e at k),
        ))
    | inr f ↦ rw (f, e) (replace_keeps c other by s h (rw e at k))
  ]
]

-- An escaped value has no bracket.
escape_prompt_value-lem :
    (value : Text)
    → (count_char b'<' (escape_prompt_value value) ≡ 0)
      × (count_char b'>' (escape_prompt_value value) ≡ 0)
unfolding escape_prompt_value
escape_prompt_value-lem value =
    let inner = replace b'<' (codes "&lt;") (replace b'&' (codes "&amp;") value) in
    (
      replace_keeps b'>' b'<' (codes "&gt;") inner refl
          (replace_removes b'<' (codes "&lt;") (replace b'&' (codes "&amp;") value) refl),
      replace_removes b'>' (codes "&gt;") inner refl,
    )

-- A text without brackets.
abbrev pub IsPlain : Text → Type 0
IsPlain t = (count_char b'<' t ≡ 0) × (count_char b'>' t ≡ 0)

append-IsPlain : (s t : Text) → IsPlain s → IsPlain t → IsPlain (s ++ t)
append-IsPlain s t h k =
    (ground (arith, count_char-append b'<' s t), ground (arith, count_char-append b'>' s t))

field-IsPlain : (name value : Text) → IsPlain name → IsPlain (field name value)
field-IsPlain name value h =
    append-IsPlain name (b'=' ∷ escape_prompt_value value) h (escape_prompt_value-lem value)

optional_field-IsPlain :
    (name : Text) (value : Option Text) (rest : List Text)
    → IsPlain name
    → All IsPlain rest
    → All IsPlain (optional_field name value rest)
optional_field-IsPlain name none rest h k = k
optional_field-IsPlain name (some value) rest h k = (field-IsPlain name value h, k)

join_with-IsPlain :
    (separator : Text) (ts : List Text)
    → IsPlain separator
    → All IsPlain ts
    → IsPlain (join_with separator ts)
join_with-IsPlain separator [] h k = (refl, refl)
join_with-IsPlain separator (t ∷ []) h k = k.0
join_with-IsPlain separator (t ∷ u ∷ ts) h k =
    append-IsPlain t (separator ++ join_with separator (u ∷ ts)) k.0 (
      append-IsPlain separator (join_with separator (u ∷ ts)) h
        (join_with-IsPlain separator (u ∷ ts) h k.1))

preset_fields-IsPlain : (preset : TranslationPreset) → All IsPlain (preset_fields preset)
unfolding preset_fields
preset_fields-IsPlain preset = (
  field-IsPlain (codes "id") preset.id (refl, refl),
  optional_field-IsPlain (codes "domain") preset.domain _ (refl, refl)
      (optional_field-IsPlain (codes "tone") preset.tone _ (refl, refl)
        (optional_field-IsPlain (codes "formality") preset.formality _ (refl, refl)
          (optional_field-IsPlain (codes "intended_audience") preset.intended_audience _
            (refl, refl)
            (optional_field-IsPlain (codes "regional_locale") preset.regional_locale _ (refl, refl)
              (optional_field-IsPlain (codes "script") preset.script _ (refl, refl)
                (optional_field-IsPlain (codes "custom_context") preset.custom_context _
                  (refl, refl)
                  (optional_field-IsPlain (codes "custom_instructions") preset.custom_instructions
                    [] (refl, refl) tt))))))),
)

-- A text with one opening bracket and one closing one.
abbrev pub HasOneTag : Text → Type 0
HasOneTag t = (count_char b'<' t ≡ 1) × (count_char b'>' t ≡ 1)

append-HasOneTag_left : (s t : Text) → IsPlain s → HasOneTag t → HasOneTag (s ++ t)
append-HasOneTag_left s t h k =
    (ground (arith, count_char-append b'<' s t), ground (arith, count_char-append b'>' s t))

append-HasOneTag_right : (s t : Text) → HasOneTag s → IsPlain t → HasOneTag (s ++ t)
append-HasOneTag_right s t h k =
    (ground (arith, count_char-append b'<' s t), ground (arith, count_char-append b'>' s t))

render_preset_instruction-HasOneTag :
    (preset : TranslationPreset) → HasOneTag (render_preset_instruction preset)
unfolding render_preset_instruction
render_preset_instruction-HasOneTag preset =
    let fields = join_with (codes "; ") (preset_fields preset) in
    let plain =
      join_with-IsPlain (codes "; ") (preset_fields preset) (refl, refl)
        (preset_fields-IsPlain preset) in
    (
      ground (arith, plain, count_char-append b'<' fields (codes ">.")),
      ground (arith, plain, count_char-append b'>' fields (codes ">.")),
    )

quality_instruction-IsPlain : (mode : TranslationQualityMode) → IsPlain (quality_instruction mode)
quality_instruction-IsPlain fast = (refl, refl)
quality_instruction-IsPlain balanced = (refl, refl)
quality_instruction-IsPlain best = (refl, refl)

source_instruction-IsPlain : (locale : Option Text) → IsPlain (source_instruction locale)
source_instruction-IsPlain none = (refl, refl)
source_instruction-IsPlain (some locale) =
    append-IsPlain (codes " The source language is ") (escape_prompt_value locale ++ language_hint)
      (refl, refl)
      (append-IsPlain (escape_prompt_value locale) language_hint (escape_prompt_value-lem locale)
        (refl, refl))

-- Whatever the source locale and the texts of the preset are, the only brackets of the prompt are
-- those round the preset, when the target locale and the instruction on markers have none.
pub translation_prompt-HasOneTag :
    (source_locale : Option Text) (target_locale : Text) (quality_mode : TranslationQualityMode)
    (preset : TranslationPreset) (marker_instruction : Text)
    → IsPlain target_locale
    → IsPlain marker_instruction
    → HasOneTag (
        translation_prompt source_locale target_locale quality_mode
          (some preset)
          marker_instruction)
unfolding translation_prompt
translation_prompt-HasOneTag source_locale target_locale quality_mode preset marker h k =
    let tagged = render_preset_instruction preset ++ marker in
    let spaced = codes " " ++ tagged in
    let rated = quality_instruction quality_mode ++ spaced in
    let guided = guidance ++ rated in
    let hinted = source_instruction source_locale ++ guided in
    let ended = codes "." ++ hinted in
    append-HasOneTag_left opening (target_locale ++ ended) (refl, refl)
      (append-HasOneTag_left target_locale ended h (
        append-HasOneTag_left (codes ".") hinted (refl, refl)
          (append-HasOneTag_left (source_instruction source_locale) guided
            (source_instruction-IsPlain source_locale)
            (append-HasOneTag_left guidance rated (refl, refl)
              (append-HasOneTag_left (quality_instruction quality_mode) spaced
                (quality_instruction-IsPlain quality_mode)
                (append-HasOneTag_left (codes " ") tagged (refl, refl)
                  (append-HasOneTag_right (render_preset_instruction preset) marker
                    (render_preset_instruction-HasOneTag preset) k)))))))
