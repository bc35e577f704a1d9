-- ===== src/Net/Policy/Laws.antt =====
-- What a feed URL satisfies that `ensure_feed_url` of app/domain/feed_policy.py lets through.
use automation_portfolio.Prelude.{
  ℕ, ◌≡◌, ◌≢◌, ◌⊎◌, inl, inr, Option, none, some, false, arith, Option-cases, is_some, not, ◌||◌,
  sym, ap, ◌∙◌,
}
use mathlib.Core.Path.{subst}
use automation_portfolio.Prelude.Text.{Text, codes, text_eq}
use automation_portfolio.Prelude.Text.Laws.{text_eq→eq, text_eq_refl}
use automation_portfolio.Prelude.Result.{ok, ok-injective, >>=-eq-ok, ◌>>=◌, raise_if}
use automation_portfolio.Messages.{value_error, https_required, url_credentials_forbidden}
use automation_portfolio.Net.{SplitUrl, Address, Net}
use automation_portfolio.Net.Hosts.{
  normalize_hostname, ensure_https_url, check_split, check_expected, check_port, hostname_of,
}
use automation_portfolio.Net.Policy.{
  is_not_public, tested_flags, has_scope, ends_with, ensure_feed_url, check_feed_port,
  check_feed_host, hostname_or_empty,
}

-- `host` is the normalized host of `url` and of the allowlist.
pub record IsSafeFeedUrl (net : Net) (allowed_host : Text) (url : SplitUrl) (host : Text)
    : Type 0 where
  pub https : net.lower url.scheme ≡ codes "https"
  pub no_username : url.username ≡ none
  pub no_password : url.password ≡ none
  pub default_port : (url.port ≡ some none) ⊎ (url.port ≡ some (some 443))
  pub named : (h : Text) × (url.hostname ≡ some h) × (normalize_hostname net h ≡ ok host)
  pub allowed : normalize_hostname net allowed_host ≡ ok host
  pub no_localhost : (host ≢ codes "localhost") × (ends_with host (codes ".localhost") ≡ false)
  pub public :
      (address : Address)
      → net.ip_address host ≡ some address
      → (has_scope address ≡ false) × (is_not_public (tested_flags address) ≡ false)

module _ (net : Net) (allowed_host : Text) where
  check_expected-ok :
      (host : Text)
      → check_expected net host (some allowed_host) ≡ ok tt
      → normalize_hostname net allowed_host ≡ ok host
  unfolding check_expected
  check_expected-ok host h =
      let (wanted, e, h₁) = >>=-eq-ok (normalize_hostname net allowed_host) _ h in
      let same : host ≡ wanted = text_eq→eq host wanted (ground (arith, h₁)) in rw same e

  check_split-ok :
      (url : SplitUrl)
      → check_split net url (some allowed_host) ≡ ok tt
      → (h : Text) × (host : Text) × (net.lower url.scheme ≡ codes "https")
        × (url.hostname ≡ some h)
        × (url.username ≡ none)
        × (url.password ≡ none)
        × (normalize_hostname net h ≡ ok host)
        × (normalize_hostname net allowed_host ≡ ok host)
  unfolding check_split hostname_of
  check_split-ok url h =
      let (_, e₁, h₁) =
        >>=-eq-ok
          (raise_if (not (text_eq (net.lower url.scheme) (codes "https")))
            (value_error https_required))
          _ h in
      let (name, e₂, h₂) = >>=-eq-ok (hostname_of net url.hostname) _ h₁ in
      let (_, e₃, h₃) =
        >>=-eq-ok
          (raise_if (is_some url.username || is_some url.password)
            (value_error url_credentials_forbidden))
          _ h₂ in
      let (_, e₄, h₄) = >>=-eq-ok (check_port net url.port url.netloc) _ h₃ in
      let (host, e₅, h₅) = >>=-eq-ok (normalize_hostname net name) _ h₄ in
      (
        name,
        host,
        text_eq→eq (net.lower url.scheme) (codes "https") (ground (arith, e₁)),
        ground (arith, e₂),
        ground (arith, e₃),
        ground (arith, e₃),
        e₅,
        check_expected-ok host h₅,
      )

  check_feed_port-ok :
      (port : Option (Option ℕ))
      → check_feed_port port ≡ ok tt
      → (port ≡ some none) ⊎ (port ≡ some (some 443))
  unfolding check_feed_port
  check_feed_port-ok port h = ground arith

  check_feed_host-public :
      (host : Text) (address : Address)
      → check_feed_host net host ≡ ok tt
      → net.ip_address host ≡ some address
      → (has_scope address ≡ false) × (is_not_public (tested_flags address) ≡ false)
  unfolding check_feed_host
  check_feed_host-public host address h e = ground (arith, e)

  check_feed_host-no_localhost :
      (host : Text)
      → check_feed_host net host ≡ ok tt
      → (text_eq host (codes "localhost") ≡ false) × (ends_with host (codes ".localhost") ≡ false)
  unfolding check_feed_host
  check_feed_host-no_localhost host h = ground arith

  -- A feed URL that ensure_feed_url lets through is HTTPS without credentials on the default port,
  -- its normalized host is the one of the allowlist and is not localhost or below it, and if it is
  -- an IP address it is one without a scope that no test for non-public ranges matches.
  pub ensure_feed_url-IsSafeFeedUrl :
      (value : Text)
      → ensure_feed_url net value allowed_host ≡ ok tt
      → (url : SplitUrl) × (host : Text) × (net.urlsplit value ≡ some url)
        × IsSafeFeedUrl net allowed_host url host
  unfolding ensure_feed_url ensure_https_url
  ensure_feed_url-IsSafeFeedUrl value h = elim (Option-cases (net.urlsplit value)) [
    | inl e ↦ ground (arith, e)
    | inr (url, e) ↦
        let (name, host, https, named, u, p, normal, allowed) =
          check_split-ok url (ground (arith, e)) in
        let (_, e₁, h₁) =
          >>=-eq-ok (check_feed_port url.port)
            (λ _. normalize_hostname net (hostname_or_empty url.hostname) >>= check_feed_host net)
            (ground (arith, e)) in
        let (host', e₂, h₂) =
          >>=-eq-ok (normalize_hostname net (hostname_or_empty url.hostname)) _ h₁ in
        let same : host' ≡ host =
          ok-injective
            (sym e₂ ∙ ap (λ n. normalize_hostname net (hostname_or_empty n)) named ∙ normal) in
        let checked : check_feed_host net host ≡ ok tt =
          subst (λ x. check_feed_host net x ≡ ok tt) same h₂ in
        (
          url,
          host,
          e,
          record {
            https = https;
            no_username = u;
            no_password = p;
            default_port = check_feed_port-ok url.port e₁;
            named = (name, named, normal);
            allowed = allowed;
            no_localhost = (
              λ l. ground (
                arith,
                l,
                text_eq_refl (codes "localhost"),
                check_feed_host-no_localhost host checked,
              ),
              (check_feed_host-no_localhost host checked).1,
            );
            public = λ address a. check_feed_host-public host address checked a;
          },
        )
  ]
