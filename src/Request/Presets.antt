-- ===== src/Request/Presets.antt =====
-- The built-in presets of crates/linguamesh-domain/src/lib.rs.
use linguamesh_core.Base.{
  ◌≡◌, ◌⊎◌, inl, inr, refl, sym, subst, Bool, true, false, Option, none, some, Text, codes, text_eq,
  text_eq_iff, Bool-cases, Result, ok, if◌then◌else◌, arith,
}
use linguamesh_core.Request.{
  TranslationPreset, general, technical, marketing, english_us, chinese_simplified, from_id,
  validate_preset,
}

-- A preset with an identifier, which validation accepts.
abbrev pub IsUsable : Text → TranslationPreset → Type 0
IsUsable id p = (p.id ≡ id) × (validate_preset p ≡ ok tt)

general_valid : validate_preset general ≡ ok tt
unfolding validate_preset linguamesh_core.Profile.Checks.is_stable_identifier
general_valid = refl

technical_valid : validate_preset technical ≡ ok tt
unfolding validate_preset linguamesh_core.Profile.Checks.is_stable_identifier
    linguamesh_core.Request.validate_preset_text linguamesh_core.Base.trim
    linguamesh_core.Base.is_control linguamesh_core.Profile.Credential.looks_like_credential
    linguamesh_core.Profile.Credential.contains_credential_token
    linguamesh_core.Profile.Credential.match_suffixes
    linguamesh_core.Profile.Credential.contains_bearer_token
technical_valid = refl

marketing_valid : validate_preset marketing ≡ ok tt
unfolding validate_preset linguamesh_core.Profile.Checks.is_stable_identifier
    linguamesh_core.Request.validate_preset_text linguamesh_core.Base.trim
    linguamesh_core.Base.is_control linguamesh_core.Profile.Credential.looks_like_credential
    linguamesh_core.Profile.Credential.contains_credential_token
    linguamesh_core.Profile.Credential.match_suffixes
    linguamesh_core.Profile.Credential.contains_bearer_token
marketing_valid = refl

english_us_valid : validate_preset english_us ≡ ok tt
unfolding validate_preset linguamesh_core.Profile.Checks.is_stable_identifier
    linguamesh_core.Request.validate_preset_text linguamesh_core.Base.trim
    linguamesh_core.Base.is_control linguamesh_core.Profile.Credential.looks_like_credential
    linguamesh_core.Profile.Credential.contains_credential_token
    linguamesh_core.Profile.Credential.match_suffixes
    linguamesh_core.Profile.Credential.contains_bearer_token
english_us_valid = refl

chinese_simplified_valid : validate_preset chinese_simplified ≡ ok tt
unfolding validate_preset linguamesh_core.Profile.Checks.is_stable_identifier
    linguamesh_core.Request.validate_preset_text linguamesh_core.Base.trim
    linguamesh_core.Base.is_control linguamesh_core.Profile.Credential.looks_like_credential
    linguamesh_core.Profile.Credential.contains_credential_token
    linguamesh_core.Profile.Credential.match_suffixes
    linguamesh_core.Profile.Credential.contains_bearer_token
chinese_simplified_valid = refl

-- One branch of `from_id`: the preset is found, or the search goes on.
branch :
    (id name : Text) (p q : TranslationPreset) (rest : Option TranslationPreset)
    → p.id ≡ name
    → validate_preset p ≡ ok tt
    → (rest ≡ some q → IsUsable id q)
    → (if text_eq id name then some p else rest) ≡ some q
    → IsUsable id q
branch id name p q rest e v later h = elim (Bool-cases (text_eq id name)) [
  | inl k ↦
      let same : p ≡ q = ground (arith, k) in
      subst (IsUsable id) same (ground (arith, text_eq_iff id name), v)
  | inr k ↦ later (rw k at h)
]

-- A preset that is found under an identifier has that identifier, and validation accepts it.
from_id-IsUsable : (id : Text) (p : TranslationPreset) → from_id id ≡ some p → IsUsable id p
unfolding from_id
from_id-IsUsable id p h =
    branch id (codes "general") general p _ refl general_valid
      (branch id (codes "technical") technical p _ refl technical_valid (
        branch id (codes "marketing") marketing p _ refl marketing_valid (
          branch id (codes "english_us") english_us p _ refl english_us_valid (
            branch id (codes "chinese_simplified") chinese_simplified p none refl
              chinese_simplified_valid (λ k. absurd (ground arith))))))
      h
