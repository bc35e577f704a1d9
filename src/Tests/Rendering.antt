-- ===== src/Tests/Rendering.antt =====
-- Digest texts on concrete inputs.
use automation_portfolio.Prelude.{◌≡◌, refl, ◌⊎◌, arith, List, ◌∷◌, [], map}
use automation_portfolio.Prelude.Text.{Text, codes}
use automation_portfolio.Prelude.Result.{ok}
use automation_portfolio.Messages.{split_error, split_no_items, split_item_too_large}
use automation_portfolio.Render.{
  render_digest_text, split_digest_messages, format_title, item_block, footer, escape, probe,
}
use automation_portfolio.Render.Parts.{
  FitAlone, IsSplit, split_digest_messages-IsSplit, split_digest_messages-raise,
  split_digest_messages_one,
}
use automation_portfolio.Tests.Samples.{first_line, second_line}

split_digest_messages-IsSplit_example :
    (messages : List Text) × (split_digest_messages
        (codes "News")
        (first_line ∷ second_line ∷ [])
        400
      ≡ ok messages)
    × IsSplit
        (format_title (codes "News"))
        (footer 2)
        400
        (map item_block (first_line ∷ second_line ∷ []))
        messages
unfolding probe format_title footer item_block
split_digest_messages-IsSplit_example =
    split_digest_messages-IsSplit (codes "News") first_line (second_line ∷ []) 400
      (omega arith, (omega arith, tt))

split_digest_messages_one_example :
    split_digest_messages (codes "News") (first_line ∷ second_line ∷ []) 4096
    ≡ ok (render_digest_text (codes "News") (first_line ∷ second_line ∷ []) ∷ [])
unfolding render_digest_text
split_digest_messages_one_example =
    split_digest_messages_one (codes "News") first_line (second_line ∷ []) 4096 (omega arith)

split_digest_messages-raise_example :
    ((first_line ∷ []) ≡ []) × (split_error split_item_too_large ≡ split_error split_no_items)
    ⊎ (split_error split_item_too_large ≡ split_error split_item_too_large)
      × ¬ FitAlone (codes "News") (first_line ∷ []) 20
unfolding split_digest_messages
split_digest_messages-raise_example =
    split_digest_messages-raise (codes "News") (first_line ∷ []) 20
      (split_error split_item_too_large) refl

escape_markup : escape (codes "<a> & b") ≡ codes "&lt;a&gt; &amp; b"
unfolding escape
escape_markup = refl
