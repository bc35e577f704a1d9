-- ===== src/Select/Eligible.antt =====
-- Which items `select_candidates` chooses, and which it ignores.
use mathlib.Core.List.{Mem, mem-cons_self, mem-cons_of_mem}
use automation_portfolio.Prelude.{
  ◌≡◌, ◌≢◌, refl, ℕ, suc, ◌+◌, ◌≤◌, not, any, Bool, false, ◌++◌, List, [], ◌∷◌, leb, Option, none,
  some, Bool-cases, inl, inr, length, arith, All, All-imp, Option-cases,
}
use automation_portfolio.Prelude.Text.{Text, strip}
use automation_portfolio.Prelude.Time.{Datetime, instant}
use automation_portfolio.Prelude.Sort.{sort-All}
use automation_portfolio.Enums.{IgnoreReason, NewsItemStatus}
use automation_portfolio.News.{NewsItem}
use automation_portfolio.Source.{Source}
use automation_portfolio.Select.Score.{
  Floats, SelectionProfile, score_item, item_age_anchor, hours, is_in,
}
use automation_portfolio.Select.Choose.{
  ScoredCandidate, IgnoredItem, take_capped, select_candidates, put, judge, judge_all, key_lt,
  add_judged,
}

module _ (f : Floats) where
  take_capped-All {ℓ} :
      (P : ScoredCandidate f → Type ℓ) (m k : ℕ) (per : ℕ → ℕ) (n : ℕ)
      (cs : List (ScoredCandidate f))
      → All P cs
      → All P (take_capped f m k per n cs)
  unfolding take_capped
  take_capped-All P m k per n [] h = tt
  take_capped-All P m k per n (c ∷ cs) h = elim (Bool-cases (leb k (per c.item.source_id))) [
    | inl full ↦ rw full (take_capped-All P m k per n cs h.1)
    | inr free ↦ rw free (
      h.0,
      elim (Bool-cases (leb m (suc n))) [
        | inl last ↦ rw last tt
        | inr more ↦ rw more (
            take_capped-All P m k (put per c.item.source_id (suc (per c.item.source_id))) (suc n) cs
              h.1)
      ],
    )
  ]

  add_judged-All {ℓ} :
      (P : ScoredCandidate f → Type ℓ) (item : NewsItem) (j : Option f.Float × Option IgnoreReason)
      (scored : List (ScoredCandidate f)) (ignored : List IgnoredItem)
      → ((x : f.Float) → j ≡ (some x, none) → P (record { item = item; score = x }))
      → All P scored
      → All P (add_judged f item j (scored, ignored)).0
  add_judged-All P item (some x, none) scored ignored new h = (new x refl, h)
  add_judged-All P item (some x, some r) scored ignored new h = h
  add_judged-All P item (none, some r) scored ignored new h = h
  add_judged-All P item (none, none) scored ignored new h = h

  add_judged-length :
      (item : NewsItem) (j : Option f.Float × Option IgnoreReason)
      (scored : List (ScoredCandidate f)) (ignored : List IgnoredItem)
      → let judged = add_judged f item j (scored, ignored) in
        length judged.0 + length judged.1 ≡ suc (length scored + length ignored)
  add_judged-length item (some x, none) scored ignored = omega arith
  add_judged-length item (some x, some r) scored ignored = omega arith
  add_judged-length item (none, some r) scored ignored = omega arith
  add_judged-length item (none, none) scored ignored = omega arith

  module _ (lower : Text → Text) (sources_by_id : ℕ → Option Source) (profile : SelectionProfile)
      (now : Datetime) (max_age_hours : ℕ) where
    -- What is asked of an item for which `score_item` gives a score: it has been neither used nor
    -- ignored, is not older than allowed, is long enough, and has no word that excludes it.
    pub record IsPresentable (item : NewsItem) : Type 0 where
      pub not_used : item.status ≢ NewsItemStatus.used
      pub not_ignored : item.status ≢ NewsItemStatus.ignored
      pub fresh : instant now ≤ instant (item_age_anchor item) + hours max_age_hours
      pub titled : profile.min_title_length ≤ length (strip item.title)
      pub summarized : profile.min_summary_length ≤ length (strip item.sanitized_summary)
      pub not_excluded :
          All
            (λ k.
              is_in k (lower (strip item.title) ++ (32 ∷ lower (strip item.sanitized_summary)))
              ≡ false)
            profile.exclude_keywords

    -- A candidate is a presentable item of a known source, with the score that `score_item` gives it
    -- with this source.
    pub record IsEligible (items : List NewsItem) (c : ScoredCandidate f) : Type 0 where
      pub among : Mem c.item items
      pub source : Source
      pub known : sources_by_id c.item.source_id ≡ some source
      pub presentable : IsPresentable c.item
      pub scored : score_item f lower c.item source profile now max_age_hours ≡ (some c.score, none)

    any-All :
        (test : Text → Bool) (texts : List Text)
        → any test texts ≡ false
        → All (λ k. test k ≡ false) texts
    any-All test [] h = tt
    any-All test (k ∷ texts) h = (ground arith, any-All test texts (ground arith))

    score_item-IsPresentable :
        (item : NewsItem) (source : Source) {x : f.Float}
        → score_item f lower item source profile now max_age_hours ≡ (some x, none)
        → IsPresentable item
    unfolding score_item
    score_item-IsPresentable item source h = record {
      not_used = λ e. ground (arith, e, h);
      not_ignored = λ e. ground (arith, e, h);
      fresh = ground (arith, h);
      titled = ground (arith, h);
      summarized = ground (arith, h);
      not_excluded = any-All _ profile.exclude_keywords (ground (arith, h));
    }

    judge-IsEligible :
        (items : List NewsItem) (item : NewsItem) (x : f.Float)
        → Mem item items
        → judge f lower sources_by_id profile now max_age_hours item ≡ (some x, none)
        → IsEligible items (record { item = item; score = x })
    unfolding judge
    judge-IsEligible items item x among h = elim (Option-cases (sources_by_id item.source_id)) [
      | inl e ↦ ground (arith, e, h)
      | inr (source, e) ↦
          let scored : score_item f lower item source profile now max_age_hours ≡ (some x, none) =
            ground (arith, e, h) in
          record {
            among = among;
            source = source;
            known = e;
            presentable = score_item-IsPresentable item source scored;
            scored = scored;
          }
    ]

    judge_all-IsEligible :
        (items : List NewsItem)
        → All (IsEligible items) (judge_all f lower sources_by_id profile now max_age_hours items).0
    unfolding judge_all
    judge_all-IsEligible [] = tt
    judge_all-IsEligible (item ∷ items) =
        let judged = judge_all f lower sources_by_id profile now max_age_hours items in
        add_judged-All (IsEligible (item ∷ items)) item _ judged.0 judged.1
          (λ x e. judge-IsEligible (item ∷ items) item x mem-cons_self e)
          (All-imp (IsEligible items) (IsEligible (item ∷ items)) judged.0
            (λ c h. record {
              among = mem-cons_of_mem item h.among;
              source = h.source;
              known = h.known;
              presentable = h.presentable;
              scored = h.scored;
            })
            (judge_all-IsEligible items))

    judge_all-length :
        (items : List NewsItem)
        → let judged = judge_all f lower sources_by_id profile now max_age_hours items in
          length judged.0 + length judged.1 ≡ length items
    unfolding judge_all
    judge_all-length [] = omega arith
    judge_all-length (item ∷ items) =
        let judged = judge_all f lower sources_by_id profile now max_age_hours items in
        omega (
          arith,
          judge_all-length items,
          add_judged-length item (judge f lower sources_by_id profile now max_age_hours item)
              judged.0 judged.1,
        )

    -- Every candidate chosen is one of the items, its source is known, and it carries the score
    -- that score_item gives it with this source; it has been neither used nor ignored, is not
    -- older than allowed, has a title and a summary of the length asked for, and contains no
    -- keyword that excludes it. The scored and the ignored items together are as many as the
    -- items.
    pub select_candidates-IsEligible :
        (items : List NewsItem) (m k : ℕ)
        → let result =
            select_candidates f lower sources_by_id profile now max_age_hours items m k in
          All (IsEligible items) result.candidates
          × (length (judge_all f lower sources_by_id profile now max_age_hours items).0
                + length result.ignored
              ≡ length items)
    unfolding select_candidates
    select_candidates-IsEligible items m k = (
      take_capped-All (IsEligible items) m k (λ _. 0) 0 _
          (sort-All (λ a b. not (key_lt f b a)) (IsEligible items) _ (judge_all-IsEligible items)),
      judge_all-length items,
    )
