-- ===== src/Profile/Building.antt =====
-- Every profile that can be built, by the constructor and any setters, is safe.
use linguamesh_core.Base.{
  ◌∙◌, ℕ, ◌≡◌, Bool, Option, none, some, List, [], ◌∷◌, Text, ℤ, ok, ◌>>=◌, >>=-eq-ok, arith,
}
use linguamesh_core.Failure.{ErrorKind}
use linguamesh_core.Profile.Outside.{Crates}
use linguamesh_core.Profile.Checks.{
  checked_profile_text, validate_custom_headers, validate_proxy_url,
  validate_trusted_certificates_pem,
}
use linguamesh_core.Profile.Record.{
  ProviderProfile, Update, new_profile, unless_blank, with_selected_model, with_user_notes,
  with_organization, with_project, with_region, with_account_identifier, with_custom_headers,
  with_proxy_url, with_trusted_certificates_pem, with_request_timeout_secs,
  with_connection_timeout_secs, with_streaming_idle_timeout_secs, with_last_successful_health_check,
  with_enabled, with_last_failure_category, with_secret_custom_headers_ref, with_proxy_auth_ref,
  with_client_certificate_identity_ref,
}
use linguamesh_core.Profile.Identity.{parse_endpoint}
use linguamesh_core.Profile.Safety.{
  IsPlainText, IsHeaderText, IsProxyText, IsPemText, IsSafe, set_checked,
  checked_profile_text-IsPlainText, validate_custom_headers-IsHeaderText,
  validate_proxy_url-IsProxyText, validate_trusted_certificates_pem-IsPemText,
}

-- The setters, with their arguments.
pub data Setter : Type 0 where
  selected_model user_notes organization project region account_identifier : Option Text → Setter
  custom_headers proxy_url certificates : Option Text → Setter
  request_timeout connection_timeout streaming_idle_timeout : ℕ → Setter
  health_check : Option ℤ → Setter
  enabled : Bool → Setter
  failure_category : Option ErrorKind → Setter
  secret_headers proxy_auth client_certificate : Option Text → Setter

abbrev pub apply : Crates → ProviderProfile → Setter → Update
apply outside p (selected_model v) = with_selected_model p v
apply outside p (user_notes v) = with_user_notes p v
apply outside p (organization v) = with_organization p v
apply outside p (project v) = with_project p v
apply outside p (region v) = with_region p v
apply outside p (account_identifier v) = with_account_identifier p v
apply outside p (custom_headers v) = with_custom_headers outside p v
apply outside p (proxy_url v) = with_proxy_url outside p v
apply outside p (certificates v) = with_trusted_certificates_pem p v
apply outside p (request_timeout n) = with_request_timeout_secs p n
apply outside p (connection_timeout n) = with_connection_timeout_secs p n
apply outside p (streaming_idle_timeout n) = with_streaming_idle_timeout_secs p n
apply outside p (health_check t) = with_last_successful_health_check p t
apply outside p (enabled b) = ok (with_enabled p b)
apply outside p (failure_category c) = ok (with_last_failure_category p c)
apply outside p (secret_headers r) = ok (with_secret_custom_headers_ref p r)
apply outside p (proxy_auth r) = ok (with_proxy_auth_ref p r)
apply outside p (client_certificate r) = ok (with_client_certificate_identity_ref p r)

abbrev pub apply_all : Crates → ProviderProfile → List Setter → Update
apply_all outside p [] = ok p
apply_all outside p (s ∷ ss) = do p' ← apply outside p s; apply_all outside p' ss

-- A setter keeps a profile safe, and touches neither its identifier nor its endpoint nor its
-- secret reference.
apply-IsSafe :
    (outside : Crates) (p q : ProviderProfile) (s : Setter)
    → apply outside p s ≡ ok q
    → IsSafe outside p
    → IsSafe outside q
      × (q.id ≡ p.id)
      × (q.base_endpoint ≡ p.base_endpoint)
      × (q.secret_ref ≡ p.secret_ref)
unfolding with_selected_model with_user_notes with_organization with_project with_region
    with_account_identifier with_custom_headers with_proxy_url with_trusted_certificates_pem
    with_request_timeout_secs with_connection_timeout_secs with_streaming_idle_timeout_secs
    with_last_successful_health_check
apply-IsSafe outside p q (selected_model v) h i =
    let (w, each, e) =
      set_checked IsPlainText (λ t. checked_profile_text t "selected_model")
        (λ r. record p { selected_model = r }) v q
        (λ t u. checked_profile_text-IsPlainText t "selected_model" u) h in
    ground (arith, each, e)
apply-IsSafe outside p q (user_notes v) h i =
    let (w, each, e) =
      set_checked IsPlainText (λ t. checked_profile_text t "user_notes")
        (λ r. record p { user_notes = r }) (unless_blank v) q
        (λ t u. checked_profile_text-IsPlainText t "user_notes" u) h in
    ground (arith, each, e)
apply-IsSafe outside p q (organization v) h i =
    let (w, each, e) =
      set_checked IsPlainText (λ t. checked_profile_text t "organization")
        (λ r. record p { organization = r }) (unless_blank v) q
        (λ t u. checked_profile_text-IsPlainText t "organization" u) h in
    ground (arith, each, e)
apply-IsSafe outside p q (project v) h i =
    let (w, each, e) =
      set_checked IsPlainText (λ t. checked_profile_text t "project")
        (λ r. record p { project = r }) (unless_blank v) q
        (λ t u. checked_profile_text-IsPlainText t "project" u) h in
    ground (arith, each, e)
apply-IsSafe outside p q (region v) h i =
    let (w, each, e) =
      set_checked IsPlainText (λ t. checked_profile_text t "region") (λ r. record p { region = r })
        (unless_blank v) q (λ t u. checked_profile_text-IsPlainText t "region" u) h in
    ground (arith, each, e)
apply-IsSafe outside p q (account_identifier v) h i =
    let (w, each, e) =
      set_checked IsPlainText (λ t. checked_profile_text t "account_identifier")
        (λ r. record p { account_identifier = r }) (unless_blank v) q
        (λ t u. checked_profile_text-IsPlainText t "account_identifier" u) h in
    ground (arith, each, e)
apply-IsSafe outside p q (custom_headers v) h i =
    let (w, each, e) =
      set_checked (IsHeaderText outside) (validate_custom_headers outside)
        (λ r. record p { custom_headers = r }) (unless_blank v) q
        (validate_custom_headers-IsHeaderText outside) h in
    ground (arith, each, e)
apply-IsSafe outside p q (proxy_url v) h i =
    let (w, each, e) =
      set_checked (IsProxyText outside) (validate_proxy_url outside)
        (λ r. record p { proxy_url = r }) (unless_blank v) q
        (validate_proxy_url-IsProxyText outside) h in
    ground (arith, each, e)
apply-IsSafe outside p q (certificates v) h i =
    let (w, each, e) =
      set_checked IsPemText validate_trusted_certificates_pem
        (λ r. record p { trusted_certificates_pem = r }) (unless_blank v) q
        validate_trusted_certificates_pem-IsPemText h in
    ground (arith, each, e)
apply-IsSafe outside p q (health_check none) h i = ground arith
apply-IsSafe outside p q (health_check (some t)) h i = ground arith
apply-IsSafe outside p q (request_timeout n) h i = ground arith
apply-IsSafe outside p q (connection_timeout n) h i = ground arith
apply-IsSafe outside p q (streaming_idle_timeout n) h i = ground arith
apply-IsSafe outside p q (enabled b) h i = ground arith
apply-IsSafe outside p q (failure_category c) h i = ground arith
apply-IsSafe outside p q (secret_headers r) h i = ground arith
apply-IsSafe outside p q (proxy_auth r) h i = ground arith
apply-IsSafe outside p q (client_certificate r) h i = ground arith

apply_all-IsSafe :
    (outside : Crates) (ss : List Setter) (p q : ProviderProfile)
    → apply_all outside p ss ≡ ok q
    → IsSafe outside p
    → IsSafe outside q
      × (q.id ≡ p.id)
      × (q.base_endpoint ≡ p.base_endpoint)
      × (q.secret_ref ≡ p.secret_ref)
apply_all-IsSafe outside [] p q h i = ground arith
apply_all-IsSafe outside (s ∷ ss) p q h i =
    let (p', e, f) = >>=-eq-ok (apply outside p s) (λ r. apply_all outside r ss) h in
    let (safe, a1, a2, a3) = apply-IsSafe outside p p' s e i in
    let (safe', b1, b2, b3) = apply_all-IsSafe outside ss p' q f safe in
    (safe', b1 ∙ a1, b2 ∙ a2, b3 ∙ a3)

new_profile-IsSafe :
    (outside : Crates) (id name preset adapter endpoint : Text) (secret : Option Text)
    (p : ProviderProfile)
    → new_profile outside id name preset adapter endpoint secret ≡ ok p
    → IsSafe outside p
      × (p.id ≡ id)
      × (parse_endpoint outside endpoint ≡ ok p.base_endpoint)
      × (p.secret_ref ≡ secret)
unfolding new_profile
new_profile-IsSafe outside id name preset adapter endpoint secret p h =
    let (a, e, h1) = >>=-eq-ok (checked_profile_text name "display_name") _ h in
    let (b, f, h2) = >>=-eq-ok (checked_profile_text preset "preset_id") _ h1 in
    let (c, g, h3) = >>=-eq-ok (checked_profile_text adapter "adapter_type") _ h2 in
    let (d, k, h4) = >>=-eq-ok (parse_endpoint outside endpoint) _ h3 in
    ground (
      arith,
      checked_profile_text-IsPlainText name "display_name" a e,
      checked_profile_text-IsPlainText preset "preset_id" b f,
      checked_profile_text-IsPlainText adapter "adapter_type" c g,
      k,
      h4,
    )

-- Whatever the arguments and the setters, a profile that the constructor and then setters return
-- is safe: its texts are bounded and hold neither a NUL nor a token of a known shape, its headers,
-- proxy and certificates pass their checks, and its timeouts are in range. Its identifier and
-- secret reference are those given to the constructor and its endpoint is the parsed one.
pub build-IsSafe :
    (outside : Crates) (id name preset adapter endpoint : Text) (secret : Option Text)
    (setters : List Setter) (p q : ProviderProfile)
    → new_profile outside id name preset adapter endpoint secret ≡ ok p
    → apply_all outside p setters ≡ ok q
    → IsSafe outside q
      × (q.id ≡ id)
      × (parse_endpoint outside endpoint ≡ ok q.base_endpoint)
      × (q.secret_ref ≡ secret)
build-IsSafe outside id name preset adapter endpoint secret setters p q h k =
    let (i, a1, a2, a3) = new_profile-IsSafe outside id name preset adapter endpoint secret p h in
    let (safe, b1, b2, b3) = apply_all-IsSafe outside setters p q k i in
    (safe, b1 ∙ a1, ground arith, b3 ∙ a3)
