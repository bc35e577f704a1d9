-- ===== src/Ingest/Url.antt =====
-- `canonicalize_url` of app/domain/url_normalization.py.
use automation_portfolio.Prelude.{
  ℕ, Bool, true, false, not, ◌&&◌, ◌||◌, Option, none, some, List, [], ◌∷◌, ◌++◌, ltb, ◌==◌,
  if◌then◌else◌, any, is_nil, is_some,
}
use automation_portfolio.Prelude.Text.{Text, codes, strip, text_eq}
use automation_portfolio.Prelude.Show.{show_nat}
use automation_portfolio.Prelude.Sort.{sort}
use automation_portfolio.Prelude.Result.{Result, ok, raise, ◌>>=◌, ◌>>◌, raise_if}
use automation_portfolio.Messages.{
  value_error, url_canonicalize_failed, url_scheme_unsupported, url_port_invalid,
}
use automation_portfolio.Net.{SplitUrl}
use automation_portfolio.Net.Hosts.{rstrip_dots}
use automation_portfolio.Ingest.Libraries.{Library}

unfoldable pub starts_with : Text → Text → Bool
starts_with [] s = true
starts_with (c ∷ p) [] = false
starts_with (c ∷ p) (d ∷ s) = (c == d) && starts_with p s

-- `a < b` of two strings.
unfoldable pub text_lt : Text → Text → Bool
text_lt s [] = false
text_lt [] (d ∷ t) = true
text_lt (c ∷ s) (d ∷ t) = ltb c d || ((c == d) && text_lt s t)

-- Not after it, as pairs.
abbrev pair_le : Text × Text → Text × Text → Bool
pair_le a b = text_lt a.0 b.0 || (text_eq a.0 b.0 && not (text_lt b.1 a.1))

abbrev tracking_names : List Text
tracking_names =
    codes "gclid"
    ∷ codes "fbclid"
    ∷ codes "mc_cid"
    ∷ codes "mc_eid"
    ∷ codes "igshid"
    ∷ codes "_ga"
    ∷ []

-- `f"{ascii_host}:{parsed.port}" if parsed.port not in (None, 443) else ascii_host`
abbrev with_port : Text → Option ℕ → Text
with_port host none = host
with_port host (some p) = if p == 443 then host else host ++ (b':' ∷ show_nat p)

module _ (library : Library) where
  open library.net use {urlsplit, lower}

  unfoldable pub is_tracking_param : Text → Bool
  unfolding starts_with
  is_tracking_param name =
      let lowered = lower name in
      starts_with (codes "utm_") lowered || any (text_eq lowered) tracking_names

  unfoldable pub without_tracking : List (Text × Text) → List (Text × Text)
  unfolding is_tracking_param
  without_tracking [] = []
  without_tracking (p ∷ pairs) =
      let rest = without_tracking pairs in if is_tracking_param p.0 then rest else p ∷ rest

  -- The end of the function, from the ASCII host on.
  unfoldable pub assemble : Text → Text → SplitUrl → Text → Result Text
  unfolding without_tracking sort text_lt
  assemble raw scheme parsed ascii = elim parsed.port [
    | none ↦ raise (value_error url_port_invalid)
    | some port ↦
        let path = library.url_path raw in
        let pairs = sort pair_le (without_tracking (library.parse_qsl (library.url_query raw))) in
        ok (
          library.urlunsplit scheme (with_port (lower ascii) port)
            (if is_nil path then codes "/" else path) (library.urlencode pairs))
  ]

  unfoldable pub encode_host : Option Text → Result Text
  unfolding strip rstrip_dots
  encode_host none = raise (value_error url_canonicalize_failed)
  encode_host (some hostname) =
      if is_nil (strip hostname)
      then raise (value_error url_canonicalize_failed)
      else elim (library.idna (rstrip_dots (strip hostname))) [
        | none ↦ raise (value_error url_canonicalize_failed)
        | some ascii ↦ ok ascii
      ]

  unfoldable pub canonicalize_split : Text → Option SplitUrl → Result Text
  unfolding encode_host assemble
  canonicalize_split raw none = raise (value_error url_canonicalize_failed)
  canonicalize_split raw (some parsed) = do
    let scheme = lower parsed.scheme
    raise_if (not (text_eq scheme (codes "https"))) (value_error url_scheme_unsupported)
    raise_if (is_some parsed.username || is_some parsed.password)
        (value_error url_canonicalize_failed)
    ascii ← encode_host parsed.hostname
    assemble raw scheme parsed ascii

  unfoldable pub canonicalize_url : Text → Result Text
  unfolding canonicalize_split strip
  canonicalize_url value = do
    let raw = strip value
    raise_if (is_nil raw) (value_error url_canonicalize_failed)
    canonicalize_split raw (urlsplit raw)
