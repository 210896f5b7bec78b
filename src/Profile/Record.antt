-- ===== src/Profile/Record.antt =====
-- `ProviderProfile` of crates/linguamesh-domain/src/lib.rs and its setters. A secret reference, an
-- identifier and an endpoint are the texts that their parsers return.
use linguamesh_core.Base.{
  ℕ, Bool, true, false, ◌||◌, Option, none, some, Text, ℤ, is_negative, is_empty, trim, Result, ok,
  ◌>>=◌, ◌>>◌, reject_if, ltb, if◌then◌else◌,
}
use linguamesh_core.Failure.{ErrorKind}
use linguamesh_core.Profile.Outside.{Crates}
use linguamesh_core.Profile.Checks.{
  ProfileValidationError, invalid_field, checked_profile_text, validate_custom_headers,
  validate_proxy_url, validate_trusted_certificates_pem,
}
use linguamesh_core.Profile.Identity.{parse_endpoint}

abbrev pub default_provider_request_timeout_secs : ℕ
default_provider_request_timeout_secs = 30

abbrev pub min_provider_request_timeout_secs : ℕ
min_provider_request_timeout_secs = 1

abbrev pub max_provider_request_timeout_secs : ℕ
max_provider_request_timeout_secs = 600

abbrev pub default_provider_connection_timeout_secs : ℕ
default_provider_connection_timeout_secs = 10

abbrev pub min_provider_connection_timeout_secs : ℕ
min_provider_connection_timeout_secs = 1

abbrev pub max_provider_connection_timeout_secs : ℕ
max_provider_connection_timeout_secs = 120

abbrev pub default_provider_streaming_idle_timeout_secs : ℕ
default_provider_streaming_idle_timeout_secs = 60

abbrev pub min_provider_streaming_idle_timeout_secs : ℕ
min_provider_streaming_idle_timeout_secs = 1

abbrev pub max_provider_streaming_idle_timeout_secs : ℕ
max_provider_streaming_idle_timeout_secs = 300

pub record ProviderProfile : Type 0 where
  pub id : Text
  pub display_name : Text
  pub preset_id : Text
  pub adapter_type : Text
  pub base_endpoint : Text
  pub secret_ref : Option Text
  pub secret_custom_headers_ref : Option Text
  pub user_notes : Option Text
  pub organization : Option Text
  pub project : Option Text
  pub region : Option Text
  pub account_identifier : Option Text
  pub custom_headers : Option Text
  pub proxy_url : Option Text
  pub proxy_auth_ref : Option Text
  pub request_timeout_secs : ℕ
  pub connection_timeout_secs : ℕ
  pub streaming_idle_timeout_secs : ℕ
  pub trusted_certificates_pem : Option Text
  pub client_certificate_identity_ref : Option Text
  pub enabled : Bool
  pub selected_model : Option Text
  pub last_successful_health_check : Option ℤ
  pub last_failure_category : Option ErrorKind

abbrev pub Update : Type 0
Update = Result ProviderProfile ProfileValidationError

-- `ProviderProfile::new`.
unfoldable pub new_profile :
    Crates
    → Text
    → Text
    → Text
    → Text
    → Text
    → Option Text
    → Result ProviderProfile ProfileValidationError
new_profile outside id display_name preset_id adapter_type endpoint secret = do
  display_name' ← checked_profile_text display_name "display_name"
  preset_id' ← checked_profile_text preset_id "preset_id"
  adapter_type' ← checked_profile_text adapter_type "adapter_type"
  endpoint' ← parse_endpoint outside endpoint
  ok (record {
    id = id;
    display_name = display_name';
    preset_id = preset_id';
    adapter_type = adapter_type';
    base_endpoint = endpoint';
    secret_ref = secret;
    secret_custom_headers_ref = none;
    user_notes = none;
    organization = none;
    project = none;
    region = none;
    account_identifier = none;
    custom_headers = none;
    proxy_url = none;
    proxy_auth_ref = none;
    request_timeout_secs = default_provider_request_timeout_secs;
    connection_timeout_secs = default_provider_connection_timeout_secs;
    streaming_idle_timeout_secs = default_provider_streaming_idle_timeout_secs;
    trusted_certificates_pem = none;
    client_certificate_identity_ref = none;
    enabled = true;
    selected_model = none;
    last_successful_health_check = none;
    last_failure_category = none;
  })

-- `.map(check).transpose()`.
abbrev pub check_each :
    (Text → Result Text ProfileValidationError)
    → Option Text
    → Result (Option Text) ProfileValidationError
check_each check none = ok none
check_each check (some value) = do value' ← check value; ok (some value')

-- `.filter(|value| !value.trim().is_empty())`.
abbrev pub unless_blank : Option Text → Option Text
unless_blank none = none
unless_blank (some value) = if is_empty (trim value) then none else some value

unfoldable pub with_selected_model : ProviderProfile → Option Text → Update
with_selected_model p model_id = do
  v ← check_each (λ t. checked_profile_text t "selected_model") model_id
  ok (record p { selected_model = v })

unfoldable pub with_user_notes : ProviderProfile → Option Text → Update
with_user_notes p notes = do
  v ← check_each (λ t. checked_profile_text t "user_notes") (unless_blank notes)
  ok (record p { user_notes = v })

unfoldable pub with_organization : ProviderProfile → Option Text → Update
with_organization p value = do
  v ← check_each (λ t. checked_profile_text t "organization") (unless_blank value)
  ok (record p { organization = v })

unfoldable pub with_project : ProviderProfile → Option Text → Update
with_project p value = do
  v ← check_each (λ t. checked_profile_text t "project") (unless_blank value)
  ok (record p { project = v })

unfoldable pub with_region : ProviderProfile → Option Text → Update
with_region p value = do
  v ← check_each (λ t. checked_profile_text t "region") (unless_blank value)
  ok (record p { region = v })

unfoldable pub with_account_identifier : ProviderProfile → Option Text → Update
with_account_identifier p value = do
  v ← check_each (λ t. checked_profile_text t "account_identifier") (unless_blank value)
  ok (record p { account_identifier = v })

unfoldable pub with_custom_headers : Crates → ProviderProfile → Option Text → Update
with_custom_headers outside p value = do
  v ← check_each (validate_custom_headers outside) (unless_blank value)
  ok (record p { custom_headers = v })

unfoldable pub with_proxy_url : Crates → ProviderProfile → Option Text → Update
with_proxy_url outside p value = do
  v ← check_each (validate_proxy_url outside) (unless_blank value)
  ok (record p { proxy_url = v })

unfoldable pub with_trusted_certificates_pem : ProviderProfile → Option Text → Update
with_trusted_certificates_pem p value = do
  v ← check_each validate_trusted_certificates_pem (unless_blank value)
  ok (record p { trusted_certificates_pem = v })

unfoldable pub with_request_timeout_secs : ProviderProfile → ℕ → Update
with_request_timeout_secs p secs = do
  reject_if
      (ltb secs min_provider_request_timeout_secs || ltb max_provider_request_timeout_secs secs)
      (invalid_field "request_timeout_secs")
  ok (record p { request_timeout_secs = secs })

unfoldable pub with_connection_timeout_secs : ProviderProfile → ℕ → Update
with_connection_timeout_secs p secs = do
  reject_if
      (ltb secs min_provider_connection_timeout_secs
        || ltb max_provider_connection_timeout_secs secs)
      (invalid_field "connection_timeout_secs")
  ok (record p { connection_timeout_secs = secs })

unfoldable pub with_streaming_idle_timeout_secs : ProviderProfile → ℕ → Update
with_streaming_idle_timeout_secs p secs = do
  reject_if
      (ltb secs min_provider_streaming_idle_timeout_secs
        || ltb max_provider_streaming_idle_timeout_secs secs)
      (invalid_field "streaming_idle_timeout_secs")
  ok (record p { streaming_idle_timeout_secs = secs })

abbrev pub is_before_epoch : Option ℤ → Bool
is_before_epoch none = false
is_before_epoch (some t) = is_negative t

unfoldable pub with_last_successful_health_check : ProviderProfile → Option ℤ → Update
with_last_successful_health_check p timestamp = do
  reject_if (is_before_epoch timestamp) (invalid_field "last_successful_health_check")
  ok (record p { last_successful_health_check = timestamp })

-- The setters with no check.
abbrev pub with_enabled : ProviderProfile → Bool → ProviderProfile
with_enabled p enabled = record p { enabled = enabled }

abbrev pub with_last_failure_category : ProviderProfile → Option ErrorKind → ProviderProfile
with_last_failure_category p category = record p { last_failure_category = category }

abbrev pub with_secret_custom_headers_ref : ProviderProfile → Option Text → ProviderProfile
with_secret_custom_headers_ref p ref = record p { secret_custom_headers_ref = ref }

abbrev pub with_proxy_auth_ref : ProviderProfile → Option Text → ProviderProfile
with_proxy_auth_ref p ref = record p { proxy_auth_ref = ref }

abbrev pub with_client_certificate_identity_ref : ProviderProfile → Option Text → ProviderProfile
with_client_certificate_identity_ref p ref = record p { client_certificate_identity_ref = ref }
