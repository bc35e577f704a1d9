-- ===== src/Render/Compose.antt =====
-- The pieces of a digest's text, with the constants of app/texts/digest_format.py.
use automation_portfolio.Prelude.{
  ℕ, Option, none, some, List, [], ◌∷◌, ◌++◌, map, ◌==◌, if◌then◌else◌, length,
}
use automation_portfolio.Prelude.Text.{Text, codes, strip, join}
use automation_portfolio.Prelude.Int.{pos}
use automation_portfolio.Prelude.Show.{show}
use automation_portfolio.Digest.{DigestItem}
use automation_portfolio.News.{NewsItem}
use automation_portfolio.Source.{Source}

pub record RenderedDigestLine : Type 0 where
  pub item : DigestItem
  pub news_item : NewsItem
  pub source : Source

-- `html.escape(text)`, which also replaces quotes by default.
escape_char : ℕ → Text
escape_char c =
    if c == b'&'
    then codes "&amp;"
    else if c == b'<'
    then codes "&lt;"
    else if c == b'>'
    then codes "&gt;"
    else if c == 34
    then codes "&quot;"
    else if c == 39
    then codes "&#x27;"
    else c ∷ []

unfoldable pub escape : Text → Text
unfolding escape_char
escape [] = []
escape (c ∷ s) = escape_char c ++ escape s

abbrev newline : Text
newline = 10 ∷ []

abbrev title_emoji : Text
title_emoji = 0x1f5de ∷ []

abbrev tag_emoji : Text
tag_emoji = 0x1f3f7 ∷ []

abbrev link_emoji : Text
link_emoji = 0x2197 ∷ []

abbrev pub item_separator : Text
item_separator = 10 ∷ 10 ∷ 10 ∷ []

abbrev pub part_separator : Text
part_separator = 10 ∷ 10 ∷ []

unfoldable pub format_title : Text → Text
unfolding escape strip
format_title title = title_emoji ++ (codes " <b>" ++ (escape (strip title) ++ codes "</b>"))

unfoldable pub item_block : RenderedDigestLine → Text
unfolding escape show join
item_block line = join newline (
    (codes "<b>"
      ++ (show line.item.position ++ (codes ". " ++ (escape line.news_item.title ++ codes "</b>"))))
    ∷ (codes "<blockquote>"
        ++ (tag_emoji ++ (codes " " ++ (escape line.item.tag ++ codes "</blockquote>"))))
    ∷ escape line.item.summary
    ∷ (link_emoji
        ++ (codes " <a href="
            ++ ((34 ∷ [])
                ++ (escape line.news_item.canonical_url
                    ++ ((34 ∷ [])
                        ++ (codes ">Read on " ++ (escape line.source.name ++ codes "</a>")))))))
    ∷ [])

-- The middle dot of "stories · AI-generated digest" is written by its code.
unfoldable pub footer : ℕ → Text
unfolding show join
footer count = join newline (
    (show (pos count) ++ (codes " stories " ++ (0xb7 ∷ codes " AI-generated digest")))
    ∷ codes "Always verify details at the original source."
    ∷ [])

-- The pieces that are there.
abbrev pub title_pieces : Option Text → List Text
title_pieces none = []
title_pieces (some t) = strip t ∷ []

abbrev pub block_pieces : List Text → List Text
block_pieces [] = []
block_pieces (b ∷ bs) = join item_separator (b ∷ bs) ∷ []

abbrev pub footer_pieces : Option Text → List Text
footer_pieces none = []
footer_pieces (some f) = f ∷ []

unfoldable pub compose_digest_part : Option Text → List Text → Option Text → Text
unfolding join strip
compose_digest_part title item_blocks foot =
    strip
      (join part_separator (title_pieces title ++ (block_pieces item_blocks ++ footer_pieces foot)))
    ++ newline

unfoldable pub render_digest_text : Text → List RenderedDigestLine → Text
unfolding compose_digest_part format_title item_block footer
render_digest_text title lines =
    compose_digest_part (some (format_title title)) (map item_block lines)
      (some (footer (length lines)))
