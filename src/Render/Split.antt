-- ===== src/Render/Split.antt =====
-- `split_digest_messages`.
use automation_portfolio.Prelude.{
  ℕ, Bool, true, false, none, some, List, [], ◌∷◌, ◌++◌, map, leb, ltb, if◌then◌else◌, length,
  is_nil,
}
use automation_portfolio.Prelude.Text.{Text}
use automation_portfolio.Prelude.Result.{Result, ok, ◌>>=◌, ◌>>◌, raise_if}
use automation_portfolio.Messages.{
  split_error, split_no_items, split_item_too_large, split_part_too_large,
}
use automation_portfolio.Render.Compose.{
  RenderedDigestLine, compose_digest_part, format_title, item_block, footer,
}

abbrev pub telegram_message_limit : ℕ
telegram_message_limit = 4096

-- The texts of a group of blocks, for the formatted title and the footer.
module _ (title foot : Text) where
  -- `compose_digest_part(title=formatted_title, item_blocks=…, footer=footer)`
  unfoldable pub probe : List Text → Text
  unfolding compose_digest_part
  probe blocks = compose_digest_part (some title) blocks (some foot)

  -- The part of a group: the title on the first, the footer on the last.
  unfoldable pub part_of : Bool → Bool → List Text → Text
  unfolding compose_digest_part
  part_of is_first is_last group =
      compose_digest_part (if is_first then some title else none) group
        (if is_last then some foot else none)

-- The loops over the blocks, for the formatted title, the footer and the limit.
module _ (title foot : Text) (limit : ℕ) where
  -- The first loop: each block alone.
  unfoldable pub check_blocks : List Text → Result (Unit {0})
  unfolding probe
  check_blocks [] = ok tt
  check_blocks (b ∷ bs) =
      raise_if (ltb limit (length (probe title foot (b ∷ [])))) (split_error split_item_too_large)
      >>= λ _. check_blocks bs

  -- The second loop: `group` is `groups[-1]`, to which blocks are added while they fit.
  unfoldable pub group_blocks : List Text → List Text → List (List Text)
  unfolding probe
  group_blocks group [] = group ∷ []
  group_blocks group (b ∷ bs) =
      let fits = group_blocks (group ++ b ∷ []) bs in
      let full = group_blocks (b ∷ []) bs in
      if leb (length (probe title foot (group ++ b ∷ []))) limit then fits else group ∷ full

  -- The third loop.
  unfoldable pub make_parts : Bool → List (List Text) → Result (List Text)
  unfolding part_of
  make_parts is_first [] = ok []
  make_parts is_first (g ∷ gs) =
      let part = part_of title foot is_first (is_nil gs) g in
      raise_if (ltb limit (length part)) (split_error split_part_too_large) >>= λ _.
      make_parts false gs >>= λ parts. ok (part ∷ parts)

  unfoldable pub split_blocks : List Text → Result (List Text)
  unfolding check_blocks group_blocks make_parts
  split_blocks blocks = do check_blocks blocks; make_parts true (group_blocks [] blocks)

unfoldable pub split_digest_messages : Text → List RenderedDigestLine → ℕ → Result (List Text)
unfolding split_blocks format_title footer item_block
split_digest_messages title lines limit = do
  raise_if (is_nil lines) (split_error split_no_items)
  split_blocks (format_title title) (footer (length lines)) limit (map item_block lines)
