-- ===== src/Ingest/Clean.antt =====
-- app/domain/text_sanitize.py and hashing.py.
use automation_portfolio.Prelude.{ℕ, Bool, false, [], ◌∷◌, ◌++◌, leb, if◌then◌else◌, length, take}
use automation_portfolio.Prelude.Text.{Text, strip, rstrip, is_space}
use automation_portfolio.Ingest.Libraries.{Library}

-- `sub(r"\s+", " ", value)`: `inside` is set in a run of white space.
unfoldable pub collapse : Bool → Text → Text
unfolding is_space
collapse inside [] = []
collapse inside (c ∷ s) =
    let rest = collapse (is_space c) s in
    if is_space c then (if inside then rest else b' ' ∷ rest) else c ∷ rest

module _ (library : Library) where
  unfoldable pub sanitize_feed_text : Text → ℕ → Text
  unfolding collapse strip rstrip
  sanitize_feed_text value maximum_length =
      let collapsed = strip (collapse false (library.unescape (library.nh3_clean value))) in
      if leb (length collapsed) maximum_length
      then collapsed
      else rstrip (take maximum_length collapsed)

  unfoldable pub normalize_title : Text → Text
  unfolding collapse strip
  normalize_title value = library.net.lower (strip (collapse false value))

  abbrev pub url_hash : Text → Text
  url_hash canonical_url = library.sha256_hex canonical_url

  abbrev pub content_hash : Text → Text → Text
  content_hash normalized_title sanitized_summary =
      library.sha256_hex (normalized_title ++ (10 ∷ sanitized_summary))
