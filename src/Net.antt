-- ===== src/Net.antt =====
-- Parts of Python's standard library that the URL checks call and that the model takes as given:
-- `urllib.parse.urlsplit`, `ipaddress.ip_address`, `str.lower` and `str.upper`, which rest on the grammar of
-- URLs, on the registries of IP ranges and on the tables of Unicode.
pub mod Hosts
pub mod Policy
pub mod Resolve
use automation_portfolio.Prelude.{ℕ, Bool, Option}
use automation_portfolio.Prelude.Text.{Text}

-- What `urlsplit` gives. `port` is none where reading `.port` raises ValueError.
pub record SplitUrl : Type 0 where
  pub scheme : Text
  pub netloc : Text
  pub hostname : Option Text
  pub username : Option Text
  pub password : Option Text
  pub port : Option (Option ℕ)

pub record IpFlags : Type 0 where
  pub compressed : Text
  pub is_private : Bool
  pub is_loopback : Bool
  pub is_link_local : Bool
  pub is_multicast : Bool
  pub is_unspecified : Bool
  pub is_reserved : Bool
  pub is_global : Bool

-- An address, with the scope of an IPv6 address and the IPv4 address that it embeds.
pub data Address : Type 0 where
  v4 : IpFlags → Address
  v6 : IpFlags → Option Text → Option IpFlags → Address

-- `urlsplit` is none where the call, or reading a part of its host, raises ValueError, and
-- `ip_address` is none where the text is no address.
pub record Net : Type 0 where
  pub urlsplit : Text → Option SplitUrl
  pub ip_address : Text → Option Address
  pub lower : Text → Text
  pub upper : Text → Text
