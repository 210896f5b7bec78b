-- ===== src/Profile/Identity.antt =====
-- Profile identifiers, secret references and endpoints of crates/linguamesh-domain/src/lib.rs.
use linguamesh_core.Base.{
  ℕ, Bool, false, ◌&&◌, ◌||◌, not, Option, none, some, List, [], ◌∷◌, ◌++◌, Text, codes, len,
  is_empty, any, contains_char, text_eq, eq_ignore_ascii_case, Result, ok, ◌>>=◌, ◌>>◌, reject_if,
  ltb, ◌==◌, if◌then◌else◌,
}
use linguamesh_core.Profile.Credential.{looks_like_credential}
use linguamesh_core.Profile.Outside.{Url, Host, domain, ipv4, ipv6, Crates}
use linguamesh_core.Profile.Checks.{
  ProfileValidationError, invalid_profile_id, invalid_secret_ref, invalid_endpoint,
  is_stable_identifier, is_some, ok_or, max_stable_id_bytes, max_profile_text_bytes,
}

-- `ProviderProfileId::parse`; an identifier is its text.
unfoldable pub parse_profile_id : Text → Result Text ProfileValidationError
parse_profile_id value = do
  reject_if (not (is_stable_identifier value) || looks_like_credential value) invalid_profile_id
  ok value

pub data SecretRefNamespace : Type 0 where
  android_keystore macos_keychain secret_service : SecretRefNamespace
  session test_secret windows_credential : SecretRefNamespace

-- `SecretRefNamespace::as_str` and `SecretRefNamespace::parse`.
unfoldable pub namespace_as_str : SecretRefNamespace → Text
namespace_as_str android_keystore = codes "android-keystore"
namespace_as_str macos_keychain = codes "macos-keychain"
namespace_as_str secret_service = codes "secret-service"
namespace_as_str session = codes "session"
namespace_as_str test_secret = codes "test-secret"
namespace_as_str windows_credential = codes "windows-credential"

unfoldable pub parse_namespace : Text → Option SecretRefNamespace
parse_namespace value =
    if text_eq value (codes "android-keystore")
    then some android_keystore
    else if text_eq value (codes "macos-keychain")
    then some macos_keychain
    else if text_eq value (codes "secret-service")
    then some secret_service
    else if text_eq value (codes "session")
    then some session
    else if text_eq value (codes "test-secret")
    then some test_secret
    else if text_eq value (codes "windows-credential")
    then some windows_credential
    else none

-- `str::split_once`.
abbrev pub put_before : ℕ → Option (Text × Text) → Option (Text × Text)
put_before c none = none
put_before c (some (a, b)) = some (c ∷ a, b)

abbrev pub split_once : ℕ → Text → Option (Text × Text)
split_once d [] = none
split_once d (c ∷ s) = if c == d then some ([], s) else put_before c (split_once d s)

-- `SecretRef::new`, with the UUID that it draws; a reference is its text.
unfoldable pub new_secret_ref : SecretRefNamespace → Text → Text
unfolding namespace_as_str
new_secret_ref namespace uuid = namespace_as_str namespace ++ (b':' ∷ uuid)

-- The test of `SecretRef::parse` on the two halves.
unfoldable pub is_secret_ref : Crates → Text × Text → Bool
is_secret_ref outside (namespace, opaque_id) =
    is_some (parse_namespace namespace) && len opaque_id == 36 && outside.is_random_uuid opaque_id

-- `SecretRef::parse`.
unfoldable pub parse_secret_ref : Crates → Text → Result Text ProfileValidationError
parse_secret_ref outside value = do
  reject_if (ltb max_stable_id_bytes (len value)) invalid_secret_ref
  halves ← ok_or (split_once b':' value) invalid_secret_ref
  reject_if (not (is_secret_ref outside halves)) invalid_secret_ref
  ok value

abbrev pub first_half : Option (Text × Text) → Text
first_half none = []
first_half (some (a, b)) = a

-- `SecretRef::namespace` and `SecretRef::is_persistent`.
unfoldable pub namespace_of : Text → Text
namespace_of secret_ref = first_half (split_once b':' secret_ref)

unfoldable pub is_persistent : Text → Bool
unfolding namespace_of
is_persistent secret_ref = not (text_eq (namespace_of secret_ref) (codes "session"))

abbrev pub is_loopback_host : Option Host → Bool
is_loopback_host none = false
is_loopback_host (some (domain host)) = eq_ignore_ascii_case host (codes "localhost")
is_loopback_host (some (ipv4 loopback)) = loopback
is_loopback_host (some (ipv6 loopback)) = loopback

unfoldable pub is_loopback_endpoint : Url → Bool
is_loopback_endpoint url = is_loopback_host url.host

abbrev pub ends_with_slash : Text → Bool
ends_with_slash [] = false
ends_with_slash (c ∷ []) = c == b'/'
ends_with_slash (c ∷ d ∷ s) = ends_with_slash (d ∷ s)

abbrev pub any_segment : Option (List Text) → Bool
any_segment none = false
any_segment (some segments) = any looks_like_credential segments

-- `EndpointConfiguration::parse`.
unfoldable pub parse_endpoint : Crates → Text → Result Text ProfileValidationError
unfolding is_loopback_endpoint
parse_endpoint outside value = do
  reject_if (ltb max_profile_text_bytes (len value) || looks_like_credential value) invalid_endpoint
  url ← ok_or (outside.parse_url value) invalid_endpoint
  reject_if
      (not (is_empty url.username)
        || is_some url.password
        || not (is_some url.host)
        || is_some url.query
        || is_some url.fragment
        || contains_char b'%' url.path)
      invalid_endpoint
  reject_if
      (not (text_eq url.scheme (codes "https"))
        && not (text_eq url.scheme (codes "http") && is_loopback_endpoint url))
      invalid_endpoint
  let final =
      if ends_with_slash url.path then url else outside.set_path (url.path ++ (b'/' ∷ [])) url
  reject_if (any_segment final.path_segments) invalid_endpoint
  ok final.serialization
