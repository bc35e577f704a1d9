-- ===== src/Net/Policy.antt =====
-- app/domain/feed_policy.py: which URLs and addresses a feed may have.
pub mod Laws
use automation_portfolio.Prelude.{
  ℕ, Bool, true, false, not, ◌||◌, Option, none, some, List, [], ◌∷◌, ◌==◌, if◌then◌else◌, length,
  is_some,
}
use automation_portfolio.Prelude.Text.{Text, codes, text_eq}
use automation_portfolio.Prelude.Result.{Result, ok, raise, ◌>>=◌, ◌>>◌, raise_if}
use automation_portfolio.Messages.{
  value_error, feed_ip_invalid, feed_ip_not_public, feed_port_forbidden, feed_localhost_forbidden,
  url_hostname_required,
}
use automation_portfolio.Net.{SplitUrl, IpFlags, Address, v4, v6, Net}
use automation_portfolio.Net.Hosts.{normalize_hostname, ensure_https_url}

unfoldable pub is_not_public : IpFlags → Bool
is_not_public ip =
    not ip.is_global
    || ip.is_multicast
    || ip.is_reserved
    || ip.is_loopback
    || ip.is_link_local
    || ip.is_unspecified

-- The address that is tested: the IPv4 address that an IPv6 address embeds, if it does.
abbrev pub tested_flags : Address → IpFlags
tested_flags (v4 ip) = ip
tested_flags (v6 ip scope none) = ip
tested_flags (v6 ip scope (some mapped)) = mapped

abbrev pub has_scope : Address → Bool
has_scope (v4 ip) = false
has_scope (v6 ip scope mapped) = is_some scope

unfoldable pub ends_with : Text → Text → Bool
unfolding text_eq
ends_with [] suffix = text_eq [] suffix
ends_with (c ∷ s) suffix = text_eq (c ∷ s) suffix || ends_with s suffix

-- `parsed.hostname or ""`
abbrev pub hostname_or_empty : Option Text → Text
hostname_or_empty none = []
hostname_or_empty (some h) = h

-- `parsed.port not in (None, 443)`, where reading the port raises for none.
unfoldable pub check_feed_port : Option (Option ℕ) → Result (Unit {0})
check_feed_port none = raise (value_error feed_port_forbidden)
check_feed_port (some none) = ok tt
check_feed_port (some (some port)) = raise_if (not (port == 443)) (value_error feed_port_forbidden)

module _ (net : Net) where
  open net use {urlsplit, ip_address}

  unfoldable pub ensure_public_ip : Text → Result (Unit {0})
  unfolding is_not_public
  ensure_public_ip value = elim (ip_address value) [
    | none ↦ raise (value_error feed_ip_invalid)
    | some address ↦ do
      raise_if (has_scope address) (value_error feed_ip_not_public)
      raise_if (is_not_public (tested_flags address)) (value_error feed_ip_not_public)
  ]

  unfoldable pub check_feed_host : Text → Result (Unit {0})
  unfolding ensure_public_ip ends_with text_eq
  check_feed_host host = do
    raise_if (text_eq host (codes "localhost") || ends_with host (codes ".localhost"))
        (value_error feed_localhost_forbidden)
    if is_some (ip_address host) then ensure_public_ip host else ok tt

  unfoldable pub check_feed_split : SplitUrl → Result (Unit {0})
  unfolding check_feed_port check_feed_host
  check_feed_split parsed = do
    check_feed_port parsed.port
    host ← normalize_hostname net (hostname_or_empty parsed.hostname)
    check_feed_host host

  -- After `ensure_https_url` has passed, `urlsplit` does not raise.
  unfoldable pub ensure_feed_url : Text → Text → Result (Unit {0})
  unfolding check_feed_split
  ensure_feed_url value allowed_host = do
    ensure_https_url net value (some allowed_host)
    elim (urlsplit value) [
      | none ↦ raise (value_error url_hostname_required)
      | some parsed ↦ check_feed_split parsed
    ]
