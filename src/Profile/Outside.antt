-- ===== src/Profile/Outside.antt =====
-- What the provider profile takes from crates outside the repository: the URL parser (`url`), the
-- JSON reader of a map of texts (`serde_json`), and the test of a UUID (`uuid`). Nothing is assumed
-- of their answers; where a theorem needs a property of them, it is a hypothesis there.
use linguamesh_core.Base.{Bool, Option, List, Text}

-- `url::Host`, with `is_loopback` of an address.
pub data Host : Type 0 where
  domain : Text → Host
  ipv4 ipv6 : Bool → Host

-- A parsed `url::Url` by what the code asks of it.
pub record Url : Type 0 where
  pub scheme : Text
  pub username : Text
  pub password : Option Text
  pub host : Option Host
  pub query : Option Text
  pub fragment : Option Text
  pub path : Text
  pub path_segments : Option (List Text)
  pub serialization : Text

pub record Crates : Type 0 where
  -- `Url::parse` and `Url::set_path`.
  pub parse_url : Text → Option Url
  pub set_path : Text → Url → Url
  -- `serde_json::from_str::<BTreeMap<String, String>>` and `serde_json::to_string`.
  pub read_headers : Text → Option (List (Text × Text))
  pub write_headers : List (Text × Text) → Option Text
  -- `Uuid::parse_str` gives a random RFC 4122 UUID whose hyphenated form is the text.
  pub is_random_uuid : Text → Bool
