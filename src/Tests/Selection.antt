-- ===== src/Tests/Selection.antt =====
-- Candidates on concrete inputs.
use automation_portfolio.Prelude.{◌≡◌, refl, ℕ, ◌+◌, ◌≤◌, max, length, All, ◌∷◌, [], some}
use automation_portfolio.Prelude.Time.{aware}
use automation_portfolio.Select.{select_candidates, judge_all}
use automation_portfolio.Select.Caps.{count_of, select_candidates-caps}
use automation_portfolio.Select.Eligible.{IsEligible, select_candidates-IsEligible}
use automation_portfolio.Tests.Samples.{points, lenient, article, feed}

select_candidates-caps_example :
    let chosen =
      (select_candidates points
        (λ s. s)
        (λ _. some feed)
        lenient
        (aware 100)
        24
        (article ∷ record article { id = 12 } ∷ [])
        5
        1).candidates in
    (length chosen ≤ max 1 5) × ((s : ℕ) → count_of points s chosen ≤ 1)
select_candidates-caps_example =
    select_candidates-caps points (λ s. s) (λ _. some feed) lenient (aware 100) 24
      (article ∷ record article { id = 12 } ∷ []) 5 1

select_candidates-IsEligible_example :
    let result =
      select_candidates points
        (λ s. s)
        (λ _. some feed)
        lenient
        (aware 100)
        24
        (article ∷ record article { id = 12 } ∷ [])
        5
        1 in
    All
      (IsEligible points
        (λ s. s)
        (λ _. some feed)
        lenient
        (aware 100)
        24
        (article ∷ record article { id = 12 } ∷ []))
      result.candidates
    × (length
            (judge_all points
              (λ s. s)
              (λ _. some feed)
              lenient
              (aware 100)
              24
              (article ∷ record article { id = 12 } ∷ [])).0
          + length result.ignored
        ≡ 2)
select_candidates-IsEligible_example =
    select_candidates-IsEligible points (λ s. s) (λ _. some feed) lenient (aware 100) 24
      (article ∷ record article { id = 12 } ∷ []) 5 1

-- The second article is of the same source, which has its one candidate.
one_of_two :
    length
      (select_candidates points
        (λ s. s)
        (λ _. some feed)
        lenient
        (aware 100)
        24
        (article ∷ record article { id = 12 } ∷ [])
        5
        1).candidates
    ≡ 1
unfolding select_candidates
one_of_two = refl
