-- ===== src/Profile/References.antt =====
-- Secret references of crates/linguamesh-domain/src/lib.rs, from the draw to the parser.
use linguamesh_core.Base.{
  ◌≡◌, refl, Bool, true, false, not, some, Text, codes, len, text_eq, ok, arith, ltb,
}
use linguamesh_core.Profile.Outside.{Crates}
use linguamesh_core.Profile.Identity.{
  SecretRefNamespace, android_keystore, macos_keychain, secret_service, session, test_secret,
  windows_credential, namespace_as_str, parse_namespace, split_once, new_secret_ref, is_secret_ref,
  parse_secret_ref, namespace_of, is_persistent,
}

abbrev pub is_session : SecretRefNamespace → Bool
is_session android_keystore = false
is_session macos_keychain = false
is_session secret_service = false
is_session session = true
is_session test_secret = false
is_session windows_credential = false

parse_namespace-namespace_as_str :
    (n : SecretRefNamespace) → parse_namespace (namespace_as_str n) ≡ some n
unfolding parse_namespace namespace_as_str
parse_namespace-namespace_as_str android_keystore = refl
parse_namespace-namespace_as_str macos_keychain = refl
parse_namespace-namespace_as_str secret_service = refl
parse_namespace-namespace_as_str session = refl
parse_namespace-namespace_as_str test_secret = refl
parse_namespace-namespace_as_str windows_credential = refl

split_once-new_secret_ref :
    (n : SecretRefNamespace) (uuid : Text)
    → split_once b':' (new_secret_ref n uuid) ≡ some (namespace_as_str n, uuid)
unfolding new_secret_ref namespace_as_str
split_once-new_secret_ref android_keystore uuid = refl
split_once-new_secret_ref macos_keychain uuid = refl
split_once-new_secret_ref secret_service uuid = refl
split_once-new_secret_ref session uuid = refl
split_once-new_secret_ref test_secret uuid = refl
split_once-new_secret_ref windows_credential uuid = refl

len-new_secret_ref :
    (n : SecretRefNamespace) (uuid : Text)
    → len uuid ≡ 36
    → ltb 128 (len (new_secret_ref n uuid)) ≡ false
unfolding new_secret_ref namespace_as_str
len-new_secret_ref android_keystore uuid h = ground arith
len-new_secret_ref macos_keychain uuid h = ground arith
len-new_secret_ref secret_service uuid h = ground arith
len-new_secret_ref session uuid h = ground arith
len-new_secret_ref test_secret uuid h = ground arith
len-new_secret_ref windows_credential uuid h = ground arith

is_session-text_eq :
    (n : SecretRefNamespace) → text_eq (namespace_as_str n) (codes "session") ≡ is_session n
unfolding namespace_as_str
is_session-text_eq android_keystore = refl
is_session-text_eq macos_keychain = refl
is_session-text_eq secret_service = refl
is_session-text_eq session = refl
is_session-text_eq test_secret = refl
is_session-text_eq windows_credential = refl

-- A reference made of a namespace and a random UUID of 36 bytes is parsed to itself; it keeps its
-- namespace, and is persistent unless that is the session's.
pub parse_secret_ref-new_secret_ref :
    (outside : Crates) (n : SecretRefNamespace) (uuid : Text)
    → outside.is_random_uuid uuid ≡ true
    → len uuid ≡ 36
    → (parse_secret_ref outside (new_secret_ref n uuid) ≡ ok (new_secret_ref n uuid))
      × (parse_namespace (namespace_of (new_secret_ref n uuid)) ≡ some n)
      × (is_persistent (new_secret_ref n uuid) ≡ not (is_session n))
unfolding parse_secret_ref is_secret_ref namespace_of is_persistent
parse_secret_ref-new_secret_ref outside n uuid h k = ground (
  arith,
  split_once-new_secret_ref n uuid,
  len-new_secret_ref n uuid k,
  parse_namespace-namespace_as_str n,
  is_session-text_eq n,
)
