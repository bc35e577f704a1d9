-- ===== src/Render/Groups.antt =====
-- The groups that `split_digest_messages` makes of the blocks.
use automation_portfolio.Prelude.{
  ◌≡◌, refl, ℕ, ◌≤◌, ◌<◌, false, List, [], ◌∷◌, ◌++◌, length, is_nil, All, Bool-cases, leb, ltb,
  leb→le, le→leb, arith, inl, inr,
}
use mathlib.Core.Path.{subst, sym, ap, ◌∙◌}
use mathlib.Core.List.{append_assoc, append-nil, flatten}
use native.Mathlib.Nat.{le_trans}
use automation_portfolio.Messages.{Exc, split_error, split_item_too_large}
use automation_portfolio.Prelude.Text.{Text}
use automation_portfolio.Prelude.Result.{ok, raise, raise_if-raise}
use automation_portfolio.Render.Split.{probe, check_blocks, group_blocks}
use automation_portfolio.Render.Fit.{probe-le-append, probe-le-prepend}

is_nil-append : (g : List Text) (b : Text) → is_nil (g ++ (b ∷ [])) ≡ false
is_nil-append [] b = refl
is_nil-append (x ∷ g) b = refl

module _ (title foot : Text) (limit : ℕ) where
  -- A block that fits in a message of its own, with the title and the footer.
  abbrev pub Alone : Text → Type 0
  Alone b = length (probe title foot (b ∷ [])) ≤ limit

  -- A group that has a block and fits with the title and the footer.
  pub record IsGroup (group : List Text) : Type 0 where
    pub is_full : is_nil group ≡ false
    pub fits : length (probe title foot group) ≤ limit

  -- No group has room for the first block of the next one.
  abbrev pub IsPacked : List (List Text) → Type 0
  IsPacked [] = Unit
  IsPacked (g ∷ []) = Unit
  IsPacked (g ∷ h ∷ rest) =
      ((b : Text) × (bs : List Text) × (h ≡ b ∷ bs)
        × (limit < length (probe title foot (g ++ (b ∷ [])))))
      × IsPacked (h ∷ rest)

  pub check_blocks-ok : (bs : List Text) → All Alone bs → check_blocks title foot limit bs ≡ ok tt
  unfolding check_blocks
  check_blocks-ok [] h = refl
  check_blocks-ok (b ∷ bs) h = ground (arith, check_blocks-ok bs h.1, h.0)

  pub check_blocks-All : (bs : List Text) → check_blocks title foot limit bs ≡ ok tt → All Alone bs
  unfolding check_blocks
  check_blocks-All [] h = tt
  check_blocks-All (b ∷ bs) h = (ground (arith, h), check_blocks-All bs (ground (arith, h)))

  pub check_blocks-raise :
      (bs : List Text) (e : Exc)
      → check_blocks title foot limit bs ≡ raise e
      → e ≡ split_error split_item_too_large
  unfolding check_blocks
  check_blocks-raise [] e h = ground arith
  check_blocks-raise (b ∷ bs) e h =
      elim (raise_if-raise (ltb limit (length (probe title foot (b ∷ []))))
        (split_error split_item_too_large) e (check_blocks title foot limit bs) h) [
          | inl same ↦ same
          | inr rest ↦ check_blocks-raise bs e rest
        ]

  pub flatten-group_blocks :
      (g bs : List Text) → flatten (group_blocks title foot limit g bs) ≡ g ++ bs
  unfolding group_blocks flatten
  flatten-group_blocks g [] = refl
  flatten-group_blocks g (b ∷ bs) =
      elim (Bool-cases (leb (length (probe title foot (g ++ (b ∷ [])))) limit)) [
        | inl h ↦ rw h (flatten-group_blocks (g ++ (b ∷ [])) bs ∙ append_assoc g (b ∷ []) bs)
        | inr h ↦ rw h (rw (flatten-group_blocks (b ∷ []) bs) refl)
      ]

  group_blocks-from :
      (g bs : List Text)
      → IsGroup g
      → All Alone bs
      → All IsGroup (group_blocks title foot limit g bs)
  unfolding group_blocks
  group_blocks-from g [] h hs = (h, tt)
  group_blocks-from g (b ∷ bs) h hs =
      elim (Bool-cases (leb (length (probe title foot (g ++ (b ∷ [])))) limit)) [
        | inl fit ↦ rw fit (
            group_blocks-from (g ++ (b ∷ [])) bs
              (record { is_full = is_nil-append g b; fits = leb→le _ _ fit }) hs.1)
        | inr full ↦
            rw full (h, group_blocks-from (b ∷ []) bs (record { is_full = refl; fits = hs.0 }) hs.1)
      ]

  -- The first block, which fits, opens the first group.
  pub group_blocks_start :
      (b : Text) (bs : List Text)
      → Alone b
      → group_blocks title foot limit [] (b ∷ bs) ≡ group_blocks title foot limit (b ∷ []) bs
  unfolding group_blocks
  group_blocks_start b bs h = rw (le→leb (length (probe title foot (b ∷ []))) limit h) refl

  pub group_blocks-IsGroup :
      (b : Text) (bs : List Text)
      → All Alone (b ∷ bs)
      → All IsGroup (group_blocks title foot limit [] (b ∷ bs))
  group_blocks-IsGroup b bs h =
      rw (group_blocks_start b bs h.0)
        (group_blocks-from (b ∷ []) bs (record { is_full = refl; fits = h.0 }) h.1)

  -- The first of the groups starts as the group that is open.
  Starts : Text → List (List Text) → Type 0
  Starts b groups = (t : List Text) × (rest : List (List Text)) × (groups ≡ (b ∷ t) ∷ rest)

  group_blocks-Starts :
      (b : Text) (g bs : List Text) → Starts b (group_blocks title foot limit (b ∷ g) bs)
  unfolding group_blocks Starts
  group_blocks-Starts b g [] = (g, [], refl)
  group_blocks-Starts b g (d ∷ bs) =
      elim (Bool-cases (leb (length (probe title foot ((b ∷ g) ++ (d ∷ [])))) limit)) [
        | inl fit ↦ rw fit (group_blocks-Starts b (g ++ (d ∷ [])) bs)
        | inr full ↦ rw full (g, _, refl)
      ]

  IsPacked-cons :
      (g : List Text) (b : Text) (groups : List (List Text))
      → limit < length (probe title foot (g ++ (b ∷ [])))
      → Starts b groups
      → IsPacked groups
      → IsPacked (g ∷ groups)
  unfolding Starts
  IsPacked-cons g b groups full (t, rest, e) packed =
      subst (λ gs. IsPacked (g ∷ gs)) (sym e) ((b, t, refl, full), subst IsPacked e packed)

  pub group_blocks-IsPacked :
      (b : Text) (g bs : List Text) → IsPacked (group_blocks title foot limit (b ∷ g) bs)
  unfolding group_blocks
  group_blocks-IsPacked b g [] = tt
  group_blocks-IsPacked b g (d ∷ bs) =
      elim (Bool-cases (leb (length (probe title foot ((b ∷ g) ++ (d ∷ [])))) limit)) [
        | inl fit ↦ rw fit (group_blocks-IsPacked b (g ++ (d ∷ [])) bs)
        | inr full ↦ rw full (
            IsPacked-cons (b ∷ g) d _ (ground (arith, full)) (group_blocks-Starts d [] bs)
              (group_blocks-IsPacked d [] bs))
      ]

  -- Blocks that all fit in one message make one group.
  pub group_blocks_one :
      (b : Text) (g bs : List Text)
      → length (probe title foot ((b ∷ g) ++ bs)) ≤ limit
      → group_blocks title foot limit (b ∷ g) bs ≡ ((b ∷ g) ++ bs) ∷ []
  unfolding group_blocks
  group_blocks_one b g [] h = rw (append-nil g) refl
  group_blocks_one b g (d ∷ bs) h =
      let whole =
        subst (λ l. length (probe title foot (b ∷ l)) ≤ limit) (sym (append_assoc g (d ∷ []) bs))
          h in
      rw
        (le→leb (length (probe title foot ((b ∷ g) ++ (d ∷ [])))) limit
          (le_trans (probe-le-append title foot b (g ++ (d ∷ [])) bs) whole))
        (group_blocks_one b (g ++ (d ∷ [])) bs whole
          ∙ ap (λ l. (b ∷ l) ∷ []) (append_assoc g (d ∷ []) bs))

  pub All-Alone : (g bs : List Text) → length (probe title foot (g ++ bs)) ≤ limit → All Alone bs
  All-Alone g [] h = tt
  All-Alone g (b ∷ bs) h = (
    le_trans (probe-le-append title foot b [] bs) (le_trans (probe-le-prepend title foot g b bs) h),
    All-Alone (g ++ (b ∷ [])) bs
        (subst (λ l. length (probe title foot l) ≤ limit) (sym (append_assoc g (b ∷ []) bs)) h),
  )
