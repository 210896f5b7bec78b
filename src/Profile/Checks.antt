-- ===== src/Profile/Checks.antt =====
-- The checks of profile texts in crates/linguamesh-domain/src/lib.rs.
use Prim.Native.String.{String}
use linguamesh_core.Base.{
  ℕ, Bool, true, false, ◌&&◌, ◌||◌, not, Option, none, some, List, [], ◌∷◌, ◌*◌, Text, codes, len,
  length, is_empty, any, all, trim, is_control, contains, contains_char, text_eq,
  to_ascii_lowercase, is_ascii_alphanumeric, map, Result, ok, err, ◌>>=◌, ◌>>◌, reject_if, for_each,
  leb, ltb, ◌==◌, if◌then◌else◌,
}
use linguamesh_core.Profile.Credential.{looks_like_credential}
use linguamesh_core.Profile.Outside.{Url, Crates}

abbrev pub max_stable_id_bytes : ℕ
max_stable_id_bytes = 128

abbrev pub max_profile_text_bytes : ℕ
max_profile_text_bytes = 2048

abbrev pub max_custom_headers : ℕ
max_custom_headers = 16

abbrev pub max_custom_header_name_bytes : ℕ
max_custom_header_name_bytes = 128

abbrev pub max_custom_header_value_bytes : ℕ
max_custom_header_value_bytes = 2048

abbrev pub max_proxy_url_bytes : ℕ
max_proxy_url_bytes = 2048

abbrev pub max_provider_trusted_certificates_pem_bytes : ℕ
max_provider_trusted_certificates_pem_bytes = 64 * 1024

pub data ProfileValidationError : Type 0 where
  invalid_profile_id invalid_secret_ref invalid_endpoint : ProfileValidationError
  invalid_field credential_like_value : String → ProfileValidationError

unfoldable pub is_stable_identifier : Text → Bool
is_stable_identifier value =
    not (is_empty value)
    && leb (len value) max_stable_id_bytes
    && all (λ c. is_ascii_alphanumeric c || c == b'-' || c == b'_' || c == b'.' || c == b':') value

-- The text itself is returned.
unfoldable pub checked_profile_text : Text → String → Result Text ProfileValidationError
checked_profile_text value field =
    if is_empty (trim value) || ltb max_profile_text_bytes (len value) || contains_char 0 value
    then err (invalid_field field)
    else if looks_like_credential value
    then err (credential_like_value field)
    else ok value

-- `b'#'..=b'\''` is 35 to 39.
abbrev pub is_http_token_byte : ℕ → Bool
is_http_token_byte c =
    is_ascii_alphanumeric c
    || c == b'!'
    || (leb b'#' c && leb c 39)
    || c == b'*'
    || c == b'+'
    || c == b'-'
    || c == b'.'
    || c == b'^'
    || c == b'_'
    || c == b'`'
    || c == b'|'
    || c == b'~'

abbrev pub forbidden_header_names : List Text
forbidden_header_names =
    codes "authorization"
    ∷ codes "proxy-authorization"
    ∷ codes "cookie"
    ∷ codes "set-cookie"
    ∷ codes "api-key"
    ∷ codes "x-api-key"
    ∷ codes "openai-organization"
    ∷ codes "openai-project"
    ∷ codes "content-type"
    ∷ codes "accept"
    ∷ codes "user-agent"
    ∷ codes "secret"
    ∷ codes "token"
    ∷ codes "credential"
    ∷ []

unfoldable pub is_secret_header_name : Text → Bool
is_secret_header_name name =
    let lower = map to_ascii_lowercase name in
    any (λ forbidden. text_eq lower forbidden || contains lower forbidden) forbidden_header_names

-- The test of one header in `validate_custom_headers`.
unfoldable pub is_unsafe_header : Text × Text → Bool
is_unsafe_header (name, value) =
    is_empty name
    || ltb max_custom_header_name_bytes (len name)
    || not (all is_http_token_byte name)
    || is_secret_header_name name
    || is_empty value
    || ltb max_custom_header_value_bytes (len value)
    || any is_control value
    || looks_like_credential value

-- `ok_or` of an option.
abbrev pub ok_or {ℓ} :
    {A : Type ℓ} → Option A → ProfileValidationError → Result A ProfileValidationError
ok_or none e = err e
ok_or (some a) e = ok a

unfoldable pub validate_custom_headers : Crates → Text → Result Text ProfileValidationError
validate_custom_headers outside value = do
  headers ← ok_or (outside.read_headers value) (invalid_field "custom_headers")
  reject_if (is_empty headers || ltb max_custom_headers (length headers))
      (invalid_field "custom_headers")
  for_each (λ header. reject_if (is_unsafe_header header) (invalid_field "custom_headers")) headers
  ok_or (outside.write_headers headers) (invalid_field "custom_headers")

-- `Option::is_some` and `Option::is_none`.
abbrev pub is_some {ℓ} : {A : Type ℓ} → Option A → Bool
is_some none = false
is_some (some a) = true

abbrev pub is_proxy_url : Url → Bool
is_proxy_url u =
    (text_eq u.scheme (codes "http")
      || text_eq u.scheme (codes "https")
      || text_eq u.scheme (codes "socks5")
      || text_eq u.scheme (codes "socks5h"))
    && is_some u.host
    && is_empty u.username
    && not (is_some u.password)
    && not (is_some u.query)
    && not (is_some u.fragment)
    && (is_empty u.path || text_eq u.path (codes "/"))

unfoldable pub validate_proxy_url : Crates → Text → Result Text ProfileValidationError
validate_proxy_url outside value = do
  reject_if (ltb max_proxy_url_bytes (len value) || any is_control value)
      (invalid_field "proxy_url")
  url ← ok_or (outside.parse_url value) (invalid_field "proxy_url")
  reject_if (not (is_proxy_url url)) (invalid_field "proxy_url")
  ok url.serialization

-- `replace("\r\n", "\n").replace('\r', "\n")`.
abbrev pub join_crlf : Text → Text
join_crlf [] = []
join_crlf (c ∷ []) = c ∷ []
join_crlf (c ∷ d ∷ s) =
    let rest = join_crlf (d ∷ s) in if c == 13 && d == 10 then rest else c ∷ rest

abbrev pub normalize_newlines : Text → Text
normalize_newlines value = map (λ c. if c == 13 then 10 else c) (join_crlf value)

unfoldable pub validate_trusted_certificates_pem : Text → Result Text ProfileValidationError
validate_trusted_certificates_pem value = do
  let normalized = normalize_newlines value
  reject_if
      (ltb max_provider_trusted_certificates_pem_bytes (len normalized)
        || contains_char 0 normalized
        || contains normalized (codes "PRIVATE KEY")
        || not (contains normalized (codes "-----BEGIN CERTIFICATE-----"))
        || not (contains normalized (codes "-----END CERTIFICATE-----"))
        || any (λ c. is_control c && not (c == 10 || c == 9)) normalized)
      (invalid_field "trusted_certificates_pem")
  ok (trim normalized)
