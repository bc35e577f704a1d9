-- ===== src/Digest/Item.antt =====
-- `DigestItem` and its `__post_init__`.
use automation_portfolio.Prelude.{ℕ, not, ◌&&◌, List, [], ◌∷◌, if◌then◌else◌}
use automation_portfolio.Prelude.Text.{Text, codes, strip, text_eq}
use automation_portfolio.Prelude.Int.{ℤ, pos, leb_ℤ}
use automation_portfolio.Prelude.Decimal.{Decimal, is_within}
use automation_portfolio.Prelude.Result.{Result, ok, raise, ◌>>=◌, ◌>>◌, raise_if}
use automation_portfolio.Messages.{
  value_error, item_position_invalid, digest_tag_invalid, item_relevance_invalid,
}
use automation_portfolio.Enums.{DigestTag, tag_value, digest_tags}
use automation_portfolio.Validators.{ensure_non_negative_int, normalize_bounded_string}
use automation_portfolio.Net.{Net}

pub record DigestItem : Type 0 where
  pub news_item_id : ℕ
  pub position : ℤ
  pub summary : Text
  pub tag : Text
  pub relevance_score : Decimal
  pub selection_reason : Text

-- `DigestTag(text)`
unfoldable pub find_tag : Text → List DigestTag → Result DigestTag
unfolding text_eq tag_value
find_tag text [] = raise (value_error digest_tag_invalid)
find_tag text (t ∷ tags) = if text_eq text (codes (tag_value t)) then ok t else find_tag text tags

unfoldable pub item_post_init : Net → DigestItem → Result DigestItem
unfolding ensure_non_negative_int strip find_tag tag_value is_within
item_post_init net i = do
  _ ← ensure_non_negative_int i.position
  raise_if (not (leb_ℤ (pos 1) i.position && leb_ℤ i.position (pos 7)))
      (value_error item_position_invalid)
  summary ← normalize_bounded_string i.summary 80 280
  tag ← find_tag (net.upper (strip i.tag)) digest_tags
  reason ← normalize_bounded_string i.selection_reason 1 300
  raise_if (not (is_within 1 i.relevance_score)) (value_error item_relevance_invalid)
  ok (record i { summary = summary; tag = codes (tag_value tag); selection_reason = reason })
