-- ===== src/Profile/Credential.antt =====
-- `looks_like_credential` of crates/linguamesh-domain/src/lib.rs, which keeps secrets out of
-- configuration texts.
use linguamesh_core.Base.{
  ℕ, zero, suc, ◌-◌, Bool, ◌||◌, List, [], ◌∷◌, Text, codes, length, any, starts_with, contains,
  trim, leb, ◌==◌, is_ascii_alphanumeric, if◌then◌else◌,
}

-- `str::match_indices`: the texts from each match on. Matches do not overlap: behind one, as many
-- characters are skipped as the pattern has left.
unfoldable pub match_suffixes : Text → ℕ → Text → List Text
match_suffixes p k [] = []
match_suffixes p (suc k) (c ∷ s) = match_suffixes p k s
match_suffixes p zero (c ∷ s) =
    let found = starts_with (c ∷ s) p in
    let rest = match_suffixes p (if found then length p - 1 else 0) s in
    if found then (c ∷ s) ∷ rest else rest

-- `take_while(test).count()`; the test holds of ASCII only, so bytes and characters agree.
abbrev pub count_while : (ℕ → Bool) → Text → ℕ
count_while test [] = 0
count_while test (c ∷ s) = if test c then suc (count_while test s) else 0

abbrev pub is_token_byte : ℕ → Bool
is_token_byte c = is_ascii_alphanumeric c || c == b'-' || c == b'_'

abbrev pub is_bearer_byte : ℕ → Bool
is_bearer_byte c = is_ascii_alphanumeric c || c == b'-' || c == b'_' || c == b'.'

unfoldable pub contains_credential_token : Text → Text → ℕ → Bool
contains_credential_token value marker minimum_length =
    any (λ s. leb minimum_length (count_while is_token_byte s)) (match_suffixes marker 0 value)

abbrev pub drop_seven : Text → Text
drop_seven (_ ∷ _ ∷ _ ∷ _ ∷ _ ∷ _ ∷ _ ∷ s) = s
drop_seven s = []

-- `value[start + PREFIX.len()..]` is the match without its seven characters.
unfoldable pub contains_bearer_token : Text → Bool
contains_bearer_token value =
    any (λ s. leb 20 (count_while is_bearer_byte (drop_seven s)))
      (match_suffixes (codes "Bearer ") 0 value)

unfoldable pub looks_like_credential : Text → Bool
looks_like_credential text =
    let value = trim text in
    contains_credential_token value (codes "sk-") 20
    || contains_credential_token value (codes "ghp_") 24
    || contains value (codes "github_pat_")
    || contains_bearer_token value
    || contains value (codes "PRIVATE KEY-----")
