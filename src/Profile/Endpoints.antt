-- ===== src/Profile/Endpoints.antt =====
-- Which endpoints of crates/linguamesh-domain/src/lib.rs are accepted.
use linguamesh_core.Base.{
  ◌≡◌, ◌⊎◌, ◌≤◌, List, ◌∷◌, ◌++◌, All, if◌then◌else◌, true, false, Option, none, some, [], Text,
  codes, len, contains_char,
}
use linguamesh_core.Profile.Credential.{looks_like_credential}
use linguamesh_core.Profile.Outside.{Url, Crates}
use linguamesh_core.Profile.Checks.{is_some}
use linguamesh_core.Profile.Identity.{is_loopback_endpoint, ends_with_slash}

-- The address is encrypted or local, has a host, and carries neither a login nor a query nor an
-- escape.
pub record IsSafeAddress (url : Url) : Type 0 where
  pub protected :
      (url.scheme ≡ codes "https")
      ⊎ ((url.scheme ≡ codes "http") × (is_loopback_endpoint url ≡ true))
  pub no_username : url.username ≡ []
  pub no_password : url.password ≡ none
  pub has_host : is_some url.host ≡ true
  pub no_query : url.query ≡ none
  pub no_fragment : url.fragment ≡ none
  pub no_escape : contains_char b'%' url.path ≡ false

-- What is given is a bounded text without a credential that stands for the address.
pub record IsSafeEndpoint (outside : Crates) (value : Text) (url : Url) : Type 0 where
  pub parsed : outside.parse_url value ≡ some url
  pub bounded : len value ≤ 2048
  pub no_credential : looks_like_credential value ≡ false
  pub safe : IsSafeAddress url

abbrev pub HoldNoCredential : Option (List Text) → Type 0
HoldNoCredential none = Unit
HoldNoCredential (some segments) = All (λ s. looks_like_credential s ≡ false) segments

-- What is kept of an address: the same one, with a slash at the end of its path, in the form that
-- `Url` prints, and with no segment that is a credential.
pub record IsKept (url kept : Url) (v : Text) : Type 0 where
  pub same_scheme : kept.scheme ≡ url.scheme
  pub same_host : kept.host ≡ url.host
  pub same_path : (kept.path ≡ url.path) ⊎ (kept.path ≡ url.path ++ (b'/' ∷ []))
  pub slash : (front : Text) × (kept.path ≡ front ++ (b'/' ∷ []))
  pub safe : IsSafeAddress kept
  pub no_segment : HoldNoCredential kept.path_segments
  pub printed : v ≡ kept.serialization

-- `Url::set_path` on an address of a web server, with the path of the address and a slash, which
-- needs no escapes that the path does not have: the path is set, and nothing else.
abbrev pub SetsPath : Crates → Type 0
SetsPath outside =
    (value : Text) (url : Url)
    → outside.parse_url value ≡ some url
    → (url.scheme ≡ codes "https") ⊎ (url.scheme ≡ codes "http")
    → ((outside.set_path (url.path ++ (b'/' ∷ [])) url).path ≡ url.path ++ (b'/' ∷ []))
      × ((outside.set_path (url.path ++ (b'/' ∷ [])) url).scheme ≡ url.scheme)
      × ((outside.set_path (url.path ++ (b'/' ∷ [])) url).host ≡ url.host)
      × ((outside.set_path (url.path ++ (b'/' ∷ [])) url).username ≡ url.username)
      × ((outside.set_path (url.path ++ (b'/' ∷ [])) url).password ≡ url.password)
      × ((outside.set_path (url.path ++ (b'/' ∷ [])) url).query ≡ url.query)
      × ((outside.set_path (url.path ++ (b'/' ∷ [])) url).fragment ≡ url.fragment)

-- The same address but for the slash at the end of its path.
record IsExtended (url kept : Url) : Type 0 where
  path : kept.path ≡ url.path ++ (b'/' ∷ [])
  scheme : kept.scheme ≡ url.scheme
  host : kept.host ≡ url.host
  username : kept.username ≡ url.username
  password : kept.password ≡ url.password
  query : kept.query ≡ url.query
  fragment : kept.fragment ≡ url.fragment

abbrev with_slash : Crates → Url → Url
with_slash outside url =
    if ends_with_slash url.path then url else outside.set_path (url.path ++ (b'/' ∷ [])) url
