-- ===== src/Profile/Detection.antt =====
-- A token of a known shape is found wherever it stands in a text.
use mathlib.Core.List.{reverse, reverse-append, reverse-reverse, append_assoc}
use linguamesh_core.Base.{
  inl, inr, ◌≢◌, ◌⊎◌, ℕ, zero, suc, ◌-◌, ◌≤◌, ◌≡◌, refl, sym, ap, ◌∙◌, Bool, true, false, not, ◌&&◌,
  List, [], ◌∷◌, ◌++◌, Memᴰ, Text, codes, length, any, all, starts_with, trim, trim_start,
  is_whitespace, leb, ◌==◌, arith, Bool-cases, and-eq-true,
}
use linguamesh_core.Profile.Credential.{
  match_suffixes, count_while, is_token_byte, contains_credential_token, looks_like_credential,
}

-- The next `k` characters are not `h`.
abbrev clear : ℕ → ℕ → Text → Bool
clear h zero s = true
clear h (suc k) [] = true
clear h (suc k) (c ∷ s) = not (c == h) && clear h k s

clear_of_prefix :
    (h : ℕ) (r s : Text)
    → all (λ c. not (c == h)) r ≡ true
    → starts_with s r ≡ true
    → clear h (length r) s ≡ true
clear_of_prefix h [] s a m = refl
clear_of_prefix h (d ∷ r) [] a m = refl
clear_of_prefix h (d ∷ r) (c ∷ s) a m = ground (arith, clear_of_prefix h r s)

-- The first character of the pattern does not occur in the rest of it, so no match hides another.
match_suffixes-Memᴰ :
    (h : ℕ) (r a q : Text) (k : ℕ)
    → all (λ c. not (c == h)) r ≡ true
    → starts_with q r ≡ true
    → clear h k (a ++ h ∷ q) ≡ true
    → Memᴰ (h ∷ q) (match_suffixes (h ∷ r) k (a ++ h ∷ q))
unfolding match_suffixes
match_suffixes-Memᴰ h r [] q zero o m c =
    let e : starts_with (h ∷ q) (h ∷ r) ≡ true = ground arith in rw e (Memᴰ.head refl)
match_suffixes-Memᴰ h r [] q (suc k) o m c = absurd (ground arith)
match_suffixes-Memᴰ h r (d ∷ a) q (suc k) o m c = match_suffixes-Memᴰ h r a q k o m (ground arith)
match_suffixes-Memᴰ h r (d ∷ a) q zero o m c =
    let l : suc (length r) - 1 ≡ length r = omega arith in
    elim (Bool-cases (starts_with (d ∷ (a ++ h ∷ q)) (h ∷ r))) [
      | inl e ↦ rw e (
          Memᴰ.tail (
            match_suffixes-Memᴰ h r a q (suc (length r) - 1) o m
              (rw l (clear_of_prefix h r (a ++ h ∷ q) o (ground arith)))))
      | inr e ↦ rw e (match_suffixes-Memᴰ h r a q zero o m refl)
    ]

any_of_Memᴰ :
    (test : Text → Bool) (s : Text) (l : List Text) → Memᴰ s l → test s ≡ true → any test l ≡ true
any_of_Memᴰ test s [] m e = elim m [ ]
any_of_Memᴰ test s (x ∷ l) (Memᴰ.head p) e = rw (← p, e)
any_of_Memᴰ test s (x ∷ l) (Memᴰ.tail m) e = ground (arith, any_of_Memᴰ test s l m e)

count_while-le :
    (t b : Text) → all is_token_byte t ≡ true → length t ≤ count_while is_token_byte (t ++ b)
count_while-le [] b h = omega arith
count_while-le (c ∷ t) b h =
    let (x, y) = and-eq-true (is_token_byte c) (all is_token_byte t) h in
    rw x (omega (arith, count_while-le t b y))

starts_with-append : (t b p : Text) → starts_with t p ≡ true → starts_with (t ++ b) p ≡ true
starts_with-append t b [] h = refl
starts_with-append [] b (d ∷ p) h = cc
starts_with-append (c ∷ t) b (d ∷ p) h = ground (arith, starts_with-append t b p)

-- A token that starts with the marker and is long enough is found behind and before any text.
contains_credential_token_found :
    (h : ℕ) (r : Text) (n : ℕ) (a t b : Text)
    → all (λ c. not (c == h)) r ≡ true
    → starts_with t (h ∷ r) ≡ true
    → n ≤ length t
    → all is_token_byte t ≡ true
    → contains_credential_token (a ++ (t ++ b)) (h ∷ r) n ≡ true
unfolding contains_credential_token
contains_credential_token_found h r n a [] b o s l w = cc
contains_credential_token_found h r n a (c ∷ t) b o s l w =
    let e : c ≡ h = ground arith in
    let found : Memᴰ (c ∷ (t ++ b)) (match_suffixes (h ∷ r) 0 (a ++ c ∷ (t ++ b))) =
      rw e
        (match_suffixes-Memᴰ h r a (t ++ b) 0 o (starts_with-append t b r (ground arith)) refl) in
    any_of_Memᴰ (λ s'. leb n (count_while is_token_byte s')) (c ∷ (t ++ b))
      (match_suffixes (h ∷ r) 0 (a ++ c ∷ (t ++ b))) found
      (ground (arith, count_while-le (c ∷ t) b w))

not_blank : (c : ℕ) → is_token_byte c ≡ true → is_whitespace c ≡ false
unfolding is_whitespace
not_blank c h = ground arith

trim_start_stops :
    (a q : Text) (h : ℕ)
    → is_whitespace h ≡ false
    → (a' : Text) × (trim_start (a ++ h ∷ q) ≡ a' ++ h ∷ q)
unfolding trim_start
trim_start_stops [] q h e = ([], rw e)
trim_start_stops (c ∷ a) q h e = elim (Bool-cases (is_whitespace c)) [
  | inl w ↦ rw w (trim_start_stops a q h e)
  | inr w ↦ (c ∷ a, rw w)
]

all-append :
    (test : ℕ → Bool) (s t : Text)
    → all test s ≡ true
    → all test t ≡ true
    → all test (s ++ t) ≡ true
all-append test [] t h k = k
all-append test (c ∷ s) t h k = ground (arith, all-append test s t)

all-reverse : (test : ℕ → Bool) (s : Text) → all test s ≡ true → all test (reverse s) ≡ true
all-reverse test [] h = refl
all-reverse test (c ∷ s) h =
    let (x, y) = and-eq-true (test c) (all test s) h in
    rw (reverse-append (c ∷ []) s)
      (all-append test (reverse s) (c ∷ []) (all-reverse test s y) (ground arith))

token_start_stops :
    (a t b : Text)
    → t ≢ []
    → all is_token_byte t ≡ true
    → (a' : Text) × (trim_start (a ++ (t ++ b)) ≡ a' ++ (t ++ b))
token_start_stops a [] b n w = absurd (n refl)
token_start_stops a (c ∷ t) b n w = trim_start_stops a (t ++ b) c (not_blank c (ground arith))

reverse-ne-nil : (t : Text) → t ≢ [] → reverse t ≢ []
reverse-ne-nil t n e = n (sym (reverse-reverse t) ∙ ap reverse e)

-- Trimming leaves a token where it is.
trim_keeps_token :
    (a t b : Text)
    → t ≢ []
    → all is_token_byte t ≡ true
    → (a' : Text) × (b' : Text) × (trim (a ++ (t ++ b)) ≡ a' ++ (t ++ b'))
unfolding trim
trim_keeps_token a t b n w =
    let (a', e) = token_start_stops a t b n w in
    let (b', f) =
      token_start_stops (reverse b) (reverse t) (reverse a') (reverse-ne-nil t n)
        (all-reverse is_token_byte t w) in
    (
      a',
      reverse b',
      rw e (
          simp (reverse-append, append_assoc)
            (rw f (simp (reverse-append, reverse-reverse, append_assoc)))),
    )

-- An API key or a personal access token: a known start, token characters, and its length.
abbrev pub IsToken : Text → Type 0
IsToken t =
    (all is_token_byte t ≡ true)
    × (((starts_with t (codes "sk-") ≡ true) × (20 ≤ length t))
        ⊎ ((starts_with t (codes "ghp_") ≡ true) × (24 ≤ length t)))

token-ne-nil : (t : Text) → IsToken t → t ≢ []
token-ne-nil [] (w, inl (s, l)) e = cc
token-ne-nil [] (w, inr (s, l)) e = cc
token-ne-nil (c ∷ t) i e = cc

-- A text that holds a token of a known shape is taken for a credential, whatever stands round it.
pub looks_like_credential-IsToken :
    (a t b : Text) → IsToken t → looks_like_credential (a ++ (t ++ b)) ≡ true
unfolding looks_like_credential
looks_like_credential-IsToken a t b (w, inl (s, l)) =
    let (a', b', e) = trim_keeps_token a t b (token-ne-nil t (w, inl (s, l))) w in
    rw (e, contains_credential_token_found b's' (codes "k-") 20 a' t b' refl s l w)
looks_like_credential-IsToken a t b (w, inr (s, l)) =
    let (a', b', e) = trim_keeps_token a t b (token-ne-nil t (w, inr (s, l))) w in
    rw e (ground (arith, contains_credential_token_found b'g' (codes "hp_") 24 a' t b' refl s l w))
