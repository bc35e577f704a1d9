-- ===== src/Net/Resolve.antt =====
-- app/infrastructure/feeds/dns.py: the addresses of a feed host.
pub mod Laws
use automation_portfolio.Prelude.{Bool, Option, none, some, List, [], ◌∷◌, if◌then◌else◌, is_nil}
use automation_portfolio.Prelude.Sort.{occurs, sort}
use automation_portfolio.Prelude.Text.{Text, text_eq}
use automation_portfolio.Prelude.Result.{Result, ok, raise, ◌>>=◌, ◌>>◌, raise_if}
use automation_portfolio.Messages.{
  value_error, dns_error, feed_ip_invalid, feed_dns_resolution_failed, feed_dns_result_empty,
}
use automation_portfolio.Net.{Address, Net}
use automation_portfolio.Net.Hosts.{flags_of, normalize_hostname}
use automation_portfolio.Net.Policy.{ensure_public_ip}

-- `str(address)`
abbrev pub text_of : Address → Text
text_of address = (flags_of address).compressed

-- `set.add`
unfoldable pub add_to_set : Text → List Text → List Text
unfolding occurs text_eq
add_to_set text texts = if occurs text_eq text texts then texts else text ∷ texts

module _ (net : Net) where
  -- The set of the addresses. `getaddrinfo` gives addresses, on which `ip_address` does not raise; on
  -- another text it raises ValueError.
  unfoldable pub addresses_of : List (Option Text) → Result (List Text)
  unfolding add_to_set
  addresses_of [] = ok []
  addresses_of (none ∷ answers) = addresses_of answers
  addresses_of (some text ∷ answers) = elim (net.ip_address text) [
    | none ↦ raise (value_error feed_ip_invalid)
    | some address ↦ do rest ← addresses_of answers; ok (add_to_set (text_of address) rest)
  ]

  unfoldable pub ensure_all_public : List Text → Result (Unit {0})
  unfolding ensure_public_ip
  ensure_all_public [] = ok tt
  ensure_all_public (address ∷ addresses) = do
    ensure_public_ip net address
    ensure_all_public addresses

-- `before` compares the version and then the bytes of two addresses. `getaddrinfo` is none where it
-- raises OSError, and holds `sockaddr[0]` of each result, which is none for an empty tuple.
module _ (net : Net) (before : Text → Text → Bool) where
  unfoldable pub public_addresses : List (Option Text) → Result (List Text)
  unfolding addresses_of ensure_all_public sort
  public_addresses answers = do
    addresses ← addresses_of net answers
    raise_if (is_nil addresses) (dns_error feed_dns_result_empty)
    ensure_all_public net addresses
    ok (sort before addresses)

  unfoldable pub resolve_name : Option (List (Option Text)) → Result (List Text)
  unfolding public_addresses
  resolve_name none = raise (dns_error feed_dns_resolution_failed)
  resolve_name (some answers) = public_addresses answers

module _ (net : Net) (before : Text → Text → Bool)
    (getaddrinfo : Text → Option (List (Option Text))) where
  unfoldable pub resolve_normalized : Text → Option Address → Result (List Text)
  unfolding resolve_name ensure_public_ip
  resolve_normalized name none = resolve_name net before (getaddrinfo name)
  resolve_normalized name (some literal) = do
    ensure_public_ip net (text_of literal)
    ok (text_of literal ∷ [])

  unfoldable pub resolve_public_addresses : Text → Result (List Text)
  unfolding resolve_normalized normalize_hostname
  resolve_public_addresses hostname = do
    name ← normalize_hostname net hostname
    resolve_normalized name (net.ip_address name)
