-- ===== src/Render/Parts.antt =====
-- The messages that `split_digest_messages` makes, or the error that it raises.
use automation_portfolio.Prelude.{
  ◌≡◌, refl, ◌⊎◌, ◌≤◌, ℕ, Bool, true, false, List, [], ◌∷◌, map, length, is_nil, All, arith, inl,
  inr, le→not_ltb,
}
use mathlib.Core.Path.{sym, ◌∙◌}
use mathlib.Core.List.{flatten}
use native.Mathlib.Nat.{le_trans}
use automation_portfolio.Messages.{Exc, split_error, split_no_items, split_item_too_large}
use automation_portfolio.Prelude.Text.{Text}
use automation_portfolio.Prelude.Result.{ok, raise, raise-ne-ok, Result-cases, >>=-raise}
use automation_portfolio.Render.Compose.{
  RenderedDigestLine, format_title, item_block, footer, render_digest_text,
}
use automation_portfolio.Render.Split.{
  probe, part_of, check_blocks, group_blocks, make_parts, split_blocks, split_digest_messages,
}
use automation_portfolio.Render.Fit.{part_of-le-probe}
use automation_portfolio.Render.Groups.{
  Alone, IsGroup, IsPacked, check_blocks-ok, check_blocks-raise, check_blocks-All,
  group_blocks-IsGroup, group_blocks-IsPacked, flatten-group_blocks, group_blocks_one,
  group_blocks_start, All-Alone,
}

module _ (title foot : Text) (limit : ℕ) where
  -- The parts of the groups: the title on the first, the footer on the last.
  unfoldable pub parts_of : Bool → List (List Text) → List Text
  parts_of is_first [] = []
  parts_of is_first (g ∷ gs) = part_of title foot is_first (is_nil gs) g ∷ parts_of false gs

  part_of-le :
      (is_first is_last : Bool) (g : List Text)
      → IsGroup title foot limit g
      → length (part_of title foot is_first is_last g) ≤ limit
  part_of-le is_first is_last [] h = ground (arith, h.is_full)
  part_of-le is_first is_last (b ∷ g) h =
      le_trans (part_of-le-probe title foot is_first is_last b g) h.fits

  make_parts-ok :
      (is_first : Bool) (gs : List (List Text))
      → All (IsGroup title foot limit) gs
      → make_parts title foot limit is_first gs ≡ ok (parts_of is_first gs)
  unfolding make_parts parts_of
  make_parts-ok is_first [] h = refl
  make_parts-ok is_first (g ∷ gs) h =
      rw (le→not_ltb _ _ (part_of-le is_first (is_nil gs) g h.0))
        (rw (make_parts-ok false gs h.1) refl)

  parts_of-All :
      (is_first : Bool) (gs : List (List Text))
      → All (IsGroup title foot limit) gs
      → All (λ part. length part ≤ limit) (parts_of is_first gs)
  unfolding parts_of
  parts_of-All is_first [] h = tt
  parts_of-All is_first (g ∷ gs) h =
      (part_of-le is_first (is_nil gs) g h.0, parts_of-All false gs h.1)

  -- Blocks that each fit alone are split, into the parts of their groups.
  split_blocks-ok :
      (b : Text) (bs : List Text)
      → All (Alone title foot limit) (b ∷ bs)
      → split_blocks title foot limit (b ∷ bs)
        ≡ ok (parts_of true (group_blocks title foot limit [] (b ∷ bs)))
  unfolding split_blocks
  split_blocks-ok b bs h =
      rw (check_blocks-ok title foot limit (b ∷ bs) h)
        (make_parts-ok true _ (group_blocks-IsGroup title foot limit b bs h))

  split_blocks-raise :
      (b : Text) (bs : List Text) (e : Exc)
      → split_blocks title foot limit (b ∷ bs) ≡ raise e
      → (e ≡ split_error split_item_too_large) × ¬ All (Alone title foot limit) (b ∷ bs)
  split_blocks-raise b bs e h = elim (Result-cases (check_blocks title foot limit (b ∷ bs))) [
    | inl (_, e₁) ↦
        absurd (
          raise-ne-ok
            (sym h ∙ split_blocks-ok b bs (check_blocks-All title foot limit (b ∷ bs) e₁)))
    | inr (x, e₁) ↦ (
      check_blocks-raise title foot limit (b ∷ bs) e (
          >>=-raise (check_blocks title foot limit (b ∷ bs))
            (λ _. make_parts title foot limit true (group_blocks title foot limit [] (b ∷ bs))) e₁
            (unfold split_blocks in h)),
      λ alone. raise-ne-ok (sym e₁ ∙ check_blocks-ok title foot limit (b ∷ bs) alone),
    )
  ]

  -- A split of blocks into messages: its groups keep the blocks in their order, each fits and takes
  -- what it can, and the messages are the groups' texts, none longer than the limit.
  pub record IsSplit (blocks messages : List Text) : Type 0 where
    pub groups : List (List Text)
    pub keeps : flatten groups ≡ blocks
    pub are_groups : All (IsGroup title foot limit) groups
    pub are_packed : IsPacked title foot limit groups
    pub are_parts : messages ≡ parts_of true groups
    pub are_short : All (λ part. length part ≤ limit) messages

  group_blocks-IsSplit :
      (b : Text) (bs : List Text)
      → All (Alone title foot limit) (b ∷ bs)
      → IsSplit (b ∷ bs) (parts_of true (group_blocks title foot limit [] (b ∷ bs)))
  group_blocks-IsSplit b bs h = record {
    groups = group_blocks title foot limit [] (b ∷ bs);
    keeps = flatten-group_blocks title foot limit [] (b ∷ bs);
    are_groups = group_blocks-IsGroup title foot limit b bs h;
    are_packed =
        rw (group_blocks_start title foot limit b bs h.0)
          (group_blocks-IsPacked title foot limit b [] bs);
    are_parts = refl;
    are_short = parts_of-All true _ (group_blocks-IsGroup title foot limit b bs h);
  }

  -- Blocks that fit in one message are that message.
  split_blocks_one :
      (b : Text) (bs : List Text)
      → length (probe title foot (b ∷ bs)) ≤ limit
      → split_blocks title foot limit (b ∷ bs) ≡ ok (probe title foot (b ∷ bs) ∷ [])
  unfolding parts_of part_of probe
  split_blocks_one b bs h =
      let alone = All-Alone title foot limit [] (b ∷ bs) h in
      split_blocks-ok b bs alone
      ∙ rw (group_blocks_start title foot limit b bs alone.0)
          (rw (group_blocks_one title foot limit b [] bs h) refl)

-- Every line's block fits in a message of its own, with the digest's title and footer.
abbrev pub FitAlone : Text → List RenderedDigestLine → ℕ → Type 0
FitAlone title lines limit =
    All (Alone (format_title title) (footer (length lines)) limit) (map item_block lines)

-- A digest with at least one line, each of whose blocks fits in a message of its own with the
-- title and the footer, is split without an error; the groups of blocks keep all blocks in order,
-- no group has room for the first block of the next, and every message is at most as long as the
-- limit.
pub split_digest_messages-IsSplit :
    (title : Text) (line : RenderedDigestLine) (lines : List RenderedDigestLine) (limit : ℕ)
    → FitAlone title (line ∷ lines) limit
    → (messages : List Text) × (split_digest_messages title (line ∷ lines) limit ≡ ok messages)
      × IsSplit
          (format_title title)
          (footer (length (line ∷ lines)))
          limit
          (map item_block (line ∷ lines))
          messages
unfolding split_digest_messages
split_digest_messages-IsSplit title line lines limit h = (
  _,
  split_blocks-ok _ _ limit (item_block line) (map item_block lines) h,
  group_blocks-IsSplit _ _ limit (item_block line) (map item_block lines) h,
)

-- If split_digest_messages raises, then either there is no line and the error says so, or some
-- block does not fit alone and the error is that of a block that is too large; the error of a part
-- that is too large is never raised.
pub split_digest_messages-raise :
    (title : Text) (lines : List RenderedDigestLine) (limit : ℕ) (e : Exc)
    → split_digest_messages title lines limit ≡ raise e
    → (lines ≡ []) × (e ≡ split_error split_no_items)
      ⊎ (e ≡ split_error split_item_too_large) × ¬ FitAlone title lines limit
unfolding split_digest_messages
split_digest_messages-raise title [] limit e h = inl (refl, ground (arith, h))
split_digest_messages-raise title (line ∷ lines) limit e h = inr (
    split_blocks-raise (format_title title) (footer (length (line ∷ lines))) limit (item_block line)
      (map item_block lines) e h)

-- A digest with at least one line whose whole text fits the limit is split into one message, which
-- is the text that render_digest_text gives.
pub split_digest_messages_one :
    (title : Text) (line : RenderedDigestLine) (lines : List RenderedDigestLine) (limit : ℕ)
    → length (render_digest_text title (line ∷ lines)) ≤ limit
    → split_digest_messages title (line ∷ lines) limit
      ≡ ok (render_digest_text title (line ∷ lines) ∷ [])
unfolding split_digest_messages render_digest_text
split_digest_messages_one title line lines limit h =
    split_blocks_one (format_title title) (footer (length (line ∷ lines))) limit (item_block line)
      (map item_block lines) h
