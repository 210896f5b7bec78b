-- ===== src/Profile/Tests.antt =====
-- The profile's theorems at concrete inputs.
use linguamesh_core.Base.{
  inl, arith, ℕ, ◌≡◌, ◌↔◌, refl, Bool, true, false, Option, none, some, List, [], ◌∷◌, ◌++◌, Text,
  codes, Result, ok, text_eq, if◌then◌else◌,
}
use linguamesh_core.Profile.Credential.{looks_like_credential}
use linguamesh_core.Profile.Detection.{looks_like_credential-IsToken}
use linguamesh_core.Profile.Outside.{Crates, Url, domain}
use linguamesh_core.Profile.Identity.{
  session, parse_endpoint, new_secret_ref, parse_secret_ref, parse_namespace, namespace_of,
  is_persistent,
}
use linguamesh_core.Profile.References.{parse_secret_ref-new_secret_ref}
use linguamesh_core.Profile.Secrets.{
  ProxyAuthentication, parse_proxy_authentication, IsAuthentication,
  parse_proxy_authentication-IsAuthentication,
}
use linguamesh_core.Profile.Record.{ProviderProfile, new_profile}
use linguamesh_core.Profile.Safety.{IsSafe}
use linguamesh_core.Profile.Building.{Setter, apply_all, user_notes, request_timeout, build-IsSafe}

abbrev uuid : Text
uuid = codes "7b3e9a52-1c0d-4f6e-8a91-2d5c7e8f9a0b"

abbrev address : Text
address = codes "https://api.example.org/v1/"

abbrev url : Url
url = record {
  scheme = codes "https";
  username = [];
  password = none;
  host = some (domain (codes "api.example.org"));
  query = none;
  fragment = none;
  path = codes "/v1/";
  path_segments = some (codes "v1" ∷ [] ∷ []);
  serialization = address;
}

-- Crates that know one address and one UUID.
abbrev crates : Crates
crates = record {
  parse_url = λ t. if text_eq t address then some url else none;
  set_path = λ path u. u;
  read_headers = λ t. none;
  write_headers = λ hs. none;
  is_random_uuid = λ t. text_eq t uuid;
}

abbrev built : ProviderProfile
built = record {
  id = codes "work";
  display_name = codes "Work";
  preset_id = codes "openai";
  adapter_type = codes "openai";
  base_endpoint = address;
  secret_ref = none;
  secret_custom_headers_ref = none;
  user_notes = none;
  organization = none;
  project = none;
  region = none;
  account_identifier = none;
  custom_headers = none;
  proxy_url = none;
  proxy_auth_ref = none;
  request_timeout_secs = 30;
  connection_timeout_secs = 10;
  streaming_idle_timeout_secs = 60;
  trusted_certificates_pem = none;
  client_certificate_identity_ref = none;
  enabled = true;
  selected_model = none;
  last_successful_health_check = none;
  last_failure_category = none;
}

abbrev setters : List Setter
setters = user_notes (some (codes "for work")) ∷ request_timeout 90 ∷ []

abbrev changed : ProviderProfile
changed = record built { user_notes = some (codes "for work"); request_timeout_secs = 90 }

built_by_new :
    new_profile crates (codes "work") (codes "Work") (codes "openai") (codes "openai") address none
    ≡ ok built
unfolding new_profile linguamesh_core.Profile.Checks.checked_profile_text linguamesh_core.Base.trim
    looks_like_credential linguamesh_core.Profile.Credential.contains_credential_token
    linguamesh_core.Profile.Credential.match_suffixes
    linguamesh_core.Profile.Credential.contains_bearer_token parse_endpoint
built_by_new = refl

changed_by_setters : apply_all crates built setters ≡ ok changed
unfolding linguamesh_core.Profile.Record.with_user_notes
    linguamesh_core.Profile.Checks.checked_profile_text linguamesh_core.Base.trim
    looks_like_credential linguamesh_core.Profile.Credential.contains_credential_token
    linguamesh_core.Profile.Credential.match_suffixes
    linguamesh_core.Profile.Credential.contains_bearer_token
    linguamesh_core.Profile.Record.with_request_timeout_secs
changed_by_setters = refl

build-IsSafe_example :
    IsSafe crates changed
    × (changed.id ≡ codes "work")
    × (parse_endpoint crates address ≡ ok changed.base_endpoint)
    × (changed.secret_ref ≡ none)
build-IsSafe_example =
    build-IsSafe crates (codes "work") (codes "Work") (codes "openai") (codes "openai") address none
      setters built changed built_by_new changed_by_setters

parse_secret_ref-new_secret_ref_example :
    (parse_secret_ref crates (new_secret_ref session uuid) ≡ ok (new_secret_ref session uuid))
    × (parse_namespace (namespace_of (new_secret_ref session uuid)) ≡ some session)
    × (is_persistent (new_secret_ref session uuid) ≡ false)
parse_secret_ref-new_secret_ref_example =
    parse_secret_ref-new_secret_ref crates session uuid refl refl

looks_like_credential-IsToken_example :
    looks_like_credential (codes "key " ++ (codes "sk-abcdefghijklmnopqrstuvwx" ++ codes "."))
    ≡ true
looks_like_credential-IsToken_example =
    looks_like_credential-IsToken (codes "key ") (codes "sk-abcdefghijklmnopqrstuvwx") (codes ".")
      (refl, inl (refl, omega arith))

abbrev login : ProxyAuthentication
login = record { username = codes "user"; password = codes "pa:ss" }

parse_proxy_authentication-IsAuthentication_example :
    (parse_proxy_authentication (codes "user:pa:ss") ≡ ok login)
    ↔ IsAuthentication (codes "user:pa:ss") login
parse_proxy_authentication-IsAuthentication_example =
    parse_proxy_authentication-IsAuthentication (codes "user:pa:ss") login

logs_in : parse_proxy_authentication (codes "user:pa:ss") ≡ ok login
unfolding parse_proxy_authentication linguamesh_core.Base.is_control
logs_in = refl

accepts_address : parse_endpoint crates address ≡ ok address
unfolding parse_endpoint looks_like_credential
    linguamesh_core.Profile.Credential.contains_credential_token
    linguamesh_core.Profile.Credential.match_suffixes linguamesh_core.Base.trim
    linguamesh_core.Profile.Credential.contains_bearer_token
accepts_address = refl

abbrev typed : Text
typed = codes "https://api.example.org/v1"

abbrev without_slash : Url
without_slash = record url {
  path = codes "/v1";
  path_segments = some (codes "v1" ∷ []);
  serialization = typed;
}

-- Crates that know the address as it is typed, and set the path of an address on one host.
abbrev web : Crates
web = record crates {
  parse_url = λ t. if text_eq t typed then some without_slash else none;
  set_path = λ path u. record u {
    path = path;
    path_segments = some (codes "v1" ∷ [] ∷ []);
    serialization = codes "https://api.example.org" ++ path;
  };
}
