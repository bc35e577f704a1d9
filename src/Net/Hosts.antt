-- ===== src/Net/Hosts.antt =====
-- `normalize_hostname` and `ensure_https_url` of app/domain/validators.py.
use automation_portfolio.Prelude.{
  ℕ, Bool, false, not, ◌&&◌, ◌||◌, Option, none, some, List, [], ◌∷◌, ltb, leb, ◌==◌, if◌then◌else◌,
  length, any, is_nil, is_some,
}
use automation_portfolio.Prelude.Text.{Text, codes, strip, text_eq}
use automation_portfolio.Prelude.Result.{Result, ok, raise, ◌>>=◌, ◌>>◌, raise_if}
use automation_portfolio.Messages.{
  value_error, hostname_required, hostname_too_long, unsafe_ip_host_forbidden, hostname_invalid,
  url_hostname_required, https_required, url_credentials_forbidden, url_port_invalid,
  url_hostname_mismatch,
}
use automation_portfolio.Net.{SplitUrl, IpFlags, Address, v4, v6, Net}

-- `value.rstrip(".")`
unfoldable pub rstrip_dots : Text → Text
rstrip_dots [] = []
rstrip_dots (c ∷ s) =
    let rest = rstrip_dots s in if (c == b'.') && is_nil rest then [] else c ∷ rest

-- `value.split(".")`: `label` is what of the current label has been read, backwards.
add_to_first : ℕ → List Text → List Text
add_to_first c [] = (c ∷ []) ∷ []
add_to_first c (label ∷ labels) = (c ∷ label) ∷ labels

split_dots : Text → List Text
unfolding add_to_first
split_dots [] = [] ∷ []
split_dots (c ∷ s) =
    let labels = split_dots s in if c == b'.' then [] ∷ labels else add_to_first c labels

starts_with_char : ℕ → Text → Bool
starts_with_char c [] = false
starts_with_char c (d ∷ s) = c == d

ends_with_char : ℕ → Text → Bool
ends_with_char c [] = false
ends_with_char c (d ∷ []) = c == d
ends_with_char c (d ∷ e ∷ s) = ends_with_char c (e ∷ s)

-- `".." in value`
has_double_dot : Text → Bool
has_double_dot [] = false
has_double_dot (c ∷ []) = false
has_double_dot (c ∷ d ∷ s) = ((c == b'.') && (d == b'.')) || has_double_dot (d ∷ s)

-- An ASCII letter, digit or hyphen.
abbrev pub is_host_char : ℕ → Bool
is_host_char c =
    (leb b'0' c && leb c b'9')
    || (leb b'A' c && leb c b'Z')
    || (leb b'a' c && leb c b'z')
    || (c == b'-')

unfoldable pub is_bad_label : Text → Bool
unfolding starts_with_char ends_with_char
is_bad_label label =
    is_nil label
    || ltb 63 (length label)
    || starts_with_char b'-' label
    || ends_with_char b'-' label
    || any (λ c. not (is_host_char c)) label

unfoldable pub is_unsafe_ip : IpFlags → Bool
is_unsafe_ip ip =
    ip.is_private || ip.is_loopback || ip.is_link_local || ip.is_multicast || ip.is_unspecified
    || ip.is_reserved

abbrev pub flags_of : Address → IpFlags
flags_of (v4 ip) = ip
flags_of (v6 ip _ _) = ip

-- The tests on a host that is no literal address.
is_bad_name : Text → Bool
unfolding is_bad_label split_dots starts_with_char has_double_dot
is_bad_name host =
    starts_with_char b'.' host || has_double_dot host || any is_bad_label (split_dots host)

check_host : Option Address → Text → Result Text
unfolding is_unsafe_ip is_bad_name
check_host none host = if is_bad_name host then raise (value_error hostname_invalid) else ok host
check_host (some address) host =
    let ip = flags_of address in
    if is_unsafe_ip ip then raise (value_error unsafe_ip_host_forbidden) else ok ip.compressed

module _ (net : Net) where
  open net use {urlsplit, ip_address, lower}

  unfoldable pub normalize_hostname : Text → Result Text
  unfolding check_host strip rstrip_dots
  normalize_hostname value = do
    let normalized = rstrip_dots (lower (strip value))
    raise_if (is_nil normalized) (value_error hostname_required)
    raise_if (ltb 253 (length normalized)) (value_error hostname_too_long)
    check_host (ip_address normalized) normalized

  -- `hostname` where it is neither None nor empty.
  unfoldable pub hostname_of : Option Text → Result Text
  hostname_of none = raise (value_error url_hostname_required)
  hostname_of (some h) = if is_nil h then raise (value_error url_hostname_required) else ok h

  -- The port, once reading it has not raised.
  unfoldable pub check_port : Option (Option ℕ) → Text → Result (Unit {0})
  unfolding ends_with_char
  check_port none netloc = raise (value_error url_port_invalid)
  check_port (some none) netloc =
      raise_if (ends_with_char b':' netloc) (value_error url_port_invalid)
  check_port (some (some port)) netloc = raise_if (port == 0) (value_error url_port_invalid)

  unfoldable pub check_expected : Text → Option Text → Result (Unit {0})
  unfolding normalize_hostname text_eq
  check_expected host none = ok tt
  check_expected host (some expected) = do
    wanted ← normalize_hostname expected
    raise_if (not (text_eq host wanted)) (value_error url_hostname_mismatch)

  unfoldable pub check_split : SplitUrl → Option Text → Result (Unit {0})
  unfolding hostname_of check_port check_expected
  check_split url expected = do
    raise_if (not (text_eq (lower url.scheme) (codes "https"))) (value_error https_required)
    hostname ← hostname_of url.hostname
    raise_if (is_some url.username || is_some url.password) (value_error url_credentials_forbidden)
    check_port url.port url.netloc
    host ← normalize_hostname hostname
    check_expected host expected

  unfoldable pub ensure_https_url : Text → Option Text → Result (Unit {0})
  unfolding check_split
  ensure_https_url value expected = elim (urlsplit value) [
    | none ↦ raise (value_error url_hostname_required)
    | some url ↦ check_split url expected
  ]
