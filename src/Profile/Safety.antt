-- ===== src/Profile/Safety.antt =====
-- Every profile that can be built holds bounded texts and no secret.
use Prim.Native.String.{String}
use linguamesh_core.Base.{
  Option-cases, inl, inr, ◌≤◌, ◌≡◌, ◌≢◌, subst, true, false, Option, none, some, List, [], ◌∷◌,
  ◌++◌, All, Text, codes, len, length, contains, contains_char, trim, is_negative, Result, ok,
  ◌>>=◌, >>=-eq-ok, >>-eq-ok, reject_if, reject_if-eq-ok, or-eq-false, for_each, for_each-eq-ok,
  not-ltb→le, arith,
}
use linguamesh_core.Profile.Detection.{IsToken, looks_like_credential-IsToken}
use linguamesh_core.Profile.Outside.{Crates, Url}
use linguamesh_core.Profile.Checks.{
  ProfileValidationError, checked_profile_text, validate_custom_headers, validate_proxy_url,
  validate_trusted_certificates_pem, is_unsafe_header, is_proxy_url, ok_or, normalize_newlines,
}
use linguamesh_core.Profile.Record.{ProviderProfile, check_each}

-- A text that is not blank, is bounded, and has neither a NUL nor a token of a known shape.
pub record IsPlainText (v : Text) : Type 0 where
  pub not_blank : trim v ≢ []
  pub bounded : len v ≤ 2048
  pub no_nul : contains_char 0 v ≡ false
  pub no_token : ¬ ((a : Text) × (t : Text) × (b : Text) × (v ≡ a ++ (t ++ b)) × IsToken t)

abbrev pub Each {ℓ} : {A : Type 0} → (A → Type ℓ) → Option A → Type ℓ
Each P none = Unit
Each P (some a) = P a

-- The JSON of headers that are each safe.
pub record IsHeaderText (outside : Crates) (v : Text) : Type 0 where
  pub headers : List (Text × Text)
  pub few : length headers ≤ 16
  pub written : outside.write_headers headers ≡ some v
  pub safe : All (λ h. is_unsafe_header h ≡ false) headers

-- The canonical form of a proxy address without credentials, query or path.
pub record IsProxyText (outside : Crates) (v : Text) : Type 0 where
  pub given : Text
  pub url : Url
  pub parsed : outside.parse_url given ≡ some url
  pub shown : url.serialization ≡ v
  pub plain : is_proxy_url url ≡ true

-- A trimmed text of certificates with no private key.
pub record IsPemText (v : Text) : Type 0 where
  pub whole : Text
  pub trimmed : trim whole ≡ v
  pub bounded : len whole ≤ 65536
  pub no_key : contains whole (codes "PRIVATE KEY") ≡ false

pub record IsSafe (outside : Crates) (p : ProviderProfile) : Type 0 where
  pub display_name : IsPlainText p.display_name
  pub preset_id : IsPlainText p.preset_id
  pub adapter_type : IsPlainText p.adapter_type
  pub user_notes : Each IsPlainText p.user_notes
  pub organization : Each IsPlainText p.organization
  pub project : Each IsPlainText p.project
  pub region : Each IsPlainText p.region
  pub account_identifier : Each IsPlainText p.account_identifier
  pub selected_model : Each IsPlainText p.selected_model
  pub custom_headers : Each (IsHeaderText outside) p.custom_headers
  pub proxy_url : Each (IsProxyText outside) p.proxy_url
  pub certificates : Each IsPemText p.trusted_certificates_pem
  pub request : (1 ≤ p.request_timeout_secs) × (p.request_timeout_secs ≤ 600)
  pub connection : (1 ≤ p.connection_timeout_secs) × (p.connection_timeout_secs ≤ 120)
  pub idle : (1 ≤ p.streaming_idle_timeout_secs) × (p.streaming_idle_timeout_secs ≤ 300)
  pub health : Each (λ t. is_negative t ≡ false) p.last_successful_health_check

pub checked_profile_text-IsPlainText :
    (t : Text) (field : String) (v : Text) → checked_profile_text t field ≡ ok v → IsPlainText v
unfolding checked_profile_text
checked_profile_text-IsPlainText t field v h = record {
  not_blank = ground arith;
  bounded = ground arith;
  no_nul = ground arith;
  no_token = λ (a, u, b, e, i). ground (arith, looks_like_credential-IsToken a u b i, e);
}

check_each-Each :
    (P : Text → Type 0) (check : Text → Result Text ProfileValidationError)
    → ((t v : Text) → check t ≡ ok v → P v)
    → (o v : Option Text) → check_each check o ≡ ok v
    → Each P v
check_each-Each P check sound none v h = subst (λ r. Each P r) {x = none} (ground arith) tt
check_each-Each P check sound (some t) v h =
    let (w, e, f) = >>=-eq-ok (check t) (λ t'. ok (some t')) h in
    subst (λ r. Each P r) {x = some w} (ground arith) (sound t w e)

-- A setter that checks its text: the field gets a text that satisfies what the check secures.
pub set_checked :
    (P : Text → Type 0) (check : Text → Result Text ProfileValidationError)
    (f : Option Text → ProviderProfile) (o : Option Text) (q : ProviderProfile)
    → ((t v : Text) → check t ≡ ok v → P v)
    → (check_each check o >>= (λ v. ok (f v))) ≡ ok q
    → (w : Option Text) × Each P w × (f w ≡ q)
set_checked P check f o q sound h =
    let (w, e, g) = >>=-eq-ok (check_each check o) (λ v. ok (f v)) h in
    (w, check_each-Each P check sound o w e, ground arith)

pub validate_custom_headers-IsHeaderText :
    (outside : Crates) (t v : Text)
    → validate_custom_headers outside t ≡ ok v
    → IsHeaderText outside v
unfolding validate_custom_headers
validate_custom_headers-IsHeaderText outside t v h = elim (Option-cases (outside.read_headers t)) [
  | inl e ↦ absurd (ground arith)
  | inr (hs, e) ↦
      let h1 = >>-eq-ok _ _ (rw e at h) in
      let h2 = >>-eq-ok (for_each _ hs) _ h1.1 in
      record {
        headers = hs;
        few = not-ltb→le 16 (length hs) (or-eq-false _ _ (reject_if-eq-ok _ _ h1.0)).1;
        written = written (outside.write_headers hs) _ h2.1;
        safe = safe hs _ (for_each-eq-ok _ hs h2.0);
      }
]
  where
    written : (o : Option Text) (e : ProfileValidationError) → ok_or o e ≡ ok v → o ≡ some v
    written none e k = cc
    written (some w) e k = ground arith

    safe :
        (l : List (Text × Text)) (e : ProfileValidationError)
        → All (λ h. reject_if (is_unsafe_header h) e ≡ ok tt) l
        → All (λ h. is_unsafe_header h ≡ false) l
    safe [] e k = tt
    safe (y ∷ l) e k = (reject_if-eq-ok _ _ k.0, safe l e k.1)

pub validate_proxy_url-IsProxyText :
    (outside : Crates) (t v : Text) → validate_proxy_url outside t ≡ ok v → IsProxyText outside v
unfolding validate_proxy_url
validate_proxy_url-IsProxyText outside t v h = elim (Option-cases (outside.parse_url t)) [
  | inl e ↦ absurd (ground arith)
  | inr (u, e) ↦ record {
    given = t;
    url = u;
    parsed = e;
    shown = ground arith;
    plain = ground arith;
  }
]

pub validate_trusted_certificates_pem-IsPemText :
    (t v : Text) → validate_trusted_certificates_pem t ≡ ok v → IsPemText v
unfolding validate_trusted_certificates_pem
validate_trusted_certificates_pem-IsPemText t v h = record {
  whole = normalize_newlines t;
  trimmed = ground arith;
  bounded = ground arith;
  no_key = ground arith;
}
