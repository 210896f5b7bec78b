-- ===== src/Protection/Addresses.antt =====
-- The web and e-mail addresses that crates/linguamesh-domain/src/lib.rs finds stand where it says.
use linguamesh_core.Base.{
  ==_iff, ◌≡◌, inl, inr, refl, sym, ap, ◌∙◌, subst, ℕ, Bool, true, false, ◌||◌, Option, none, some,
  [], ◌∷◌, ◌++◌, Text, codes, is_ascii_alphanumeric, contains_char, ◌==◌, Bool-cases, arith,
}
use mathlib.Core.List.{append_assoc}
use linguamesh_core.Protection.Starts.{IsStart, IsStart-trans}
use linguamesh_core.Protection.Scanners.{
  Range, take_while, put_before_end, trim_end_by, is_url_character, unless_empty, url_end,
  put_or_run, last_run, email_range, email_at,
}
use linguamesh_core.Protection.Places.{IsAt, Places, either_some}

take_while-IsStart : (p : ℕ → Bool) (s : Text) → IsStart (take_while p s) s
take_while-IsStart p [] = ([], refl)
take_while-IsStart p (c ∷ s) = elim (Bool-cases (p c)) [
  | inl e ↦ let (r, f) = take_while-IsStart p s in rw e (r, ap (λ t. c ∷ t) f)
  | inr e ↦ rw e (c ∷ s, refl)
]

trim_end_by-IsStart : (p : ℕ → Bool) (s : Text) → IsStart (trim_end_by p s) s
trim_end_by-IsStart p [] = ([], refl)
trim_end_by-IsStart p (c ∷ s) =
    let (r, f) = trim_end_by-IsStart p s in put (p c) (trim_end_by p s) r f
  where
    put : (b : Bool) (t r : Text) → s ≡ t ++ r → IsStart (put_before_end b c t) (c ∷ s)
    put true [] r f = (c ∷ s, refl)
    put false [] r f = (s, refl)
    put true (d ∷ t) r f = (r, ap (λ t. c ∷ t) f)
    put false (d ∷ t) r f = (r, ap (λ t. c ∷ t) f)

pub url_end-IsStart : (rest m : Text) → url_end rest ≡ some m → IsStart m rest
unfolding url_end
url_end-IsStart rest m h = elim (either_some _ _ none m h) [
  | inr e ↦ absurd (nothing e)
  | inl e ↦
      let kept = take_while is_url_character rest in
      let found = trim_end_by (λ c. contains_char c (codes ".,;:!?")) kept in
      subst (λ t. IsStart t rest) (unless_empty-some found m e)
        (IsStart-trans found kept rest
          (trim_end_by-IsStart (λ c. contains_char c (codes ".,;:!?")) kept)
          (take_while-IsStart is_url_character rest))
]
  where
    nothing : ◌≡◌ {A = Option Text} none (some m) → ⊥
    nothing k = cc

    unless_empty-some : (t m : Text) → unless_empty t ≡ some m → t ≡ m
    unless_empty-some [] m k = cc
    unless_empty-some (c ∷ t) m k = ground arith

last_run-append : (p : ℕ → Bool) (s : Text) → s ≡ (last_run p s).0 ++ (last_run p s).1
last_run-append p [] = refl
last_run-append p (c ∷ s) = put (p c) (last_run p s) (last_run-append p s)
  where
    put :
        (b : Bool) (x : Text × Text)
        → s ≡ x.0 ++ x.1
        → c ∷ s ≡ (put_or_run b c x).0 ++ (put_or_run b c x).1
    put true ([], run) e = ap (λ t. c ∷ t) e
    put false ([], run) e = ap (λ t. c ∷ t) e
    put true (d ∷ kept, run) e = ap (λ t. c ∷ t) e
    put false (d ∷ kept, run) e = ap (λ t. c ∷ t) e

-- A run of characters in front of an `@`, and a start of the text behind it.
local_and_domain :
    (source front s kept run right r : Text) (c : ℕ)
    → source ≡ front ++ (c ∷ s)
    → c ≡ b'@'
    → front ≡ kept ++ run
    → s ≡ right ++ r
    → IsAt source (kept, run ++ (b'@' ∷ right))
local_and_domain source front s kept run right r c e g f h = (
  r,
  e
      ∙ ap (λ d. front ++ (d ∷ s)) g
      ∙ ap (λ t. front ++ (b'@' ∷ t)) h
      ∙ ap (λ t. t ++ (b'@' ∷ (right ++ r))) f
      ∙ append_assoc kept run (b'@' ∷ (right ++ r))
      ∙ ap (λ t. kept ++ t) (sym (append_assoc run (b'@' ∷ right) r)),
)

email_range-some :
    (kept run right : Text) (x : Range)
    → email_range (kept, run) right ≡ some x
    → (kept, run ++ (b'@' ∷ right)) ≡ x
email_range-some kept run right x h =
    elim (either_some _ (some (kept, run ++ (b'@' ∷ right))) none x h) [
      | inl e ↦ ground arith
      | inr e ↦ absurd (nothing e)
    ]
  where
    nothing : ◌≡◌ {A = Option Range} none (some x) → ⊥
    nothing k = cc

pub email_at-Places : Places email_at
unfolding email_at
email_at-Places source front [] x e h = cc
email_at-Places source front (c ∷ s) x e h = elim (Bool-cases (c == b'@')) [
  | inr g ↦ absurd (nothing (rw g at h))
  | inl g ↦
      let local = last_run (λ d. is_ascii_alphanumeric d || contains_char d (codes "._+-")) front in
      let domain = take_while (λ d. is_ascii_alphanumeric d || contains_char d (codes ".-_")) s in
      let (r, f) =
        take_while-IsStart (λ d. is_ascii_alphanumeric d || contains_char d (codes ".-_")) s in
      subst (IsAt source) (email_range-some local.0 local.1 domain x (rw g at h)) (
        local_and_domain source front s local.0 local.1 domain r c e ((==_iff c b'@').0 g)
          (last_run-append (λ d. is_ascii_alphanumeric d || contains_char d (codes "._+-")) front)
          f)
]
  where
    nothing : ◌≡◌ {A = Option Range} none (some x) → ⊥
    nothing k = cc
