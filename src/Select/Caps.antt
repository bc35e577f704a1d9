-- ===== src/Select/Caps.antt =====
-- The caps of `select_candidates`.
use automation_portfolio.Prelude.{
  ◌≡◌, ℕ, suc, ◌+◌, ◌≤◌, max, false, not, List, [], ◌∷◌, ◌==◌, leb, if◌then◌else◌, Option,
  Bool-cases, inl, inr, length, arith, ap, ==_iff,
}
use automation_portfolio.Prelude.Text.{Text}
use automation_portfolio.Prelude.Time.{Datetime}
use automation_portfolio.Prelude.Sort.{sort}
use automation_portfolio.News.{NewsItem}
use automation_portfolio.Source.{Source}
use automation_portfolio.Select.Score.{Floats, SelectionProfile}
use automation_portfolio.Select.Choose.{
  ScoredCandidate, take_capped, select_candidates, put, judge_all, key_lt,
}

put_le :
    (k : ℕ) (per : ℕ → ℕ) (source s : ℕ)
    → leb k (per source) ≡ false
    → per s ≤ k
    → put per source (suc (per source)) s ≤ k
put_le k per source s free h = ground arith

module _ (f : Floats) where
  -- How many candidates are of a source.
  unfoldable pub count_of : ℕ → List (ScoredCandidate f) → ℕ
  count_of s [] = 0
  count_of s (c ∷ cs) = let rest = count_of s cs in if s == c.item.source_id then suc rest else rest

  take_capped_source :
      (m k : ℕ) (per : ℕ → ℕ) (n : ℕ) (cs : List (ScoredCandidate f)) (s : ℕ)
      → per s ≤ k
      → count_of s (take_capped f m k per n cs) + per s ≤ k
  unfolding take_capped count_of
  take_capped_source m k per n [] s h = omega (arith, h)
  take_capped_source m k per n (c ∷ cs) s h = elim (Bool-cases (leb k (per c.item.source_id))) [
    | inl full ↦ rw full (take_capped_source m k per n cs s h)
    | inr free ↦
        let per' = put per c.item.source_id (suc (per c.item.source_id)) in
        let within = put_le k per c.item.source_id s free h in
        elim (Bool-cases (s == c.item.source_id)) [
          | inl same ↦ ground (
            arith,
            free,
            same,
            ap per ((==_iff s c.item.source_id).0 same),
            take_capped_source m k per' (suc n) cs s within,
          )
          | inr other ↦ ground (arith, free, other, take_capped_source m k per' (suc n) cs s within)
        ]
  ]

  take_capped_count :
      (m k : ℕ) (per : ℕ → ℕ) (n : ℕ) (cs : List (ScoredCandidate f))
      → length (take_capped f m k per n cs) + n ≤ max (suc n) m
  unfolding take_capped
  take_capped_count m k per n [] = omega arith
  take_capped_count m k per n (c ∷ cs) = ground (
    arith,
    take_capped_count m k per n cs,
    take_capped_count m k (put per c.item.source_id (suc (per c.item.source_id))) (suc n) cs,
  )

  -- For all items, sources, scores and limits, the candidates chosen are no more than
  -- max_candidates, or one where that is 0, and at most max_per_source of them are of any one
  -- source.
  pub select_candidates-caps :
      (lower : Text → Text) (sources_by_id : ℕ → Option Source) (profile : SelectionProfile)
      (now : Datetime) (max_age_hours : ℕ) (items : List NewsItem) (m k : ℕ)
      → let chosen =
          (select_candidates f lower sources_by_id profile now max_age_hours items m
            k).candidates in
        (length chosen ≤ max 1 m) × ((s : ℕ) → count_of s chosen ≤ k)
  unfolding select_candidates sort
  select_candidates-caps lower sources profile now hours items m k = (
    ground (
      arith,
      take_capped_count m k (λ _. 0) 0
          (sort (λ a b. not (key_lt f b a)) (judge_all f lower sources profile now hours items).0),
    ),
    λ s. ground (
      arith,
      take_capped_source m k (λ _. 0) 0
          (sort (λ a b. not (key_lt f b a)) (judge_all f lower sources profile now hours items).0) s
          (omega arith),
    ),
  )
