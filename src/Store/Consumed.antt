-- ===== src/Store/Consumed.antt =====
-- What `DigestRepository.create_generated` does to the tables.
use automation_portfolio.Prelude.{
  ◌≡◌, refl, inl, inr, Bool, Bool-cases, arith, true, false, not, none, List, [], ◌∷◌, ◌++◌, any,
  ◌||◌, ◌==◌, length, if◌then◌else◌,
}
use mathlib.Core.Path.{subst}
use automation_portfolio.Prelude.Result.{Result, ok, raise, Result-cases}
use automation_portfolio.Messages.{Exc}
use automation_portfolio.Enums.{NewsItemStatus, DigestStatus}
use automation_portfolio.Net.{Net}
use automation_portfolio.News.{NewsItem}
use automation_portfolio.Digest.{Digest}
use automation_portfolio.Store.Rows.{Store, where_rows}
use automation_portfolio.Store.Creation.{
  create_generated, consume_candidates, validated_digest, mark_used, is_selected, is_candidate,
  is_generated,
}
use automation_portfolio.Store.Change.{Each}

-- A selected candidate becomes used, and any other article stays as it is.
pub record Consumed (d : Digest) (before after : NewsItem) : Type 0 where
  pub selected :
      is_selected d before ≡ true
      → (before.status ≡ NewsItemStatus.candidate)
        × (after ≡ record before { status = NewsItemStatus.used; ignore_reason = none })
  pub other : is_selected d before ≡ false → after ≡ before

-- Of a row in the list of the articles found: the tests that it and the others passed.
found_candidates :
    (test : Bool) (row : NewsItem) (rest : List NewsItem)
    → any (λ m. not (is_candidate m.status)) (if test then row ∷ rest else rest) ≡ false
    → (test ≡ true → row.status ≡ NewsItemStatus.candidate)
      × (any (λ m. not (is_candidate m.status)) rest ≡ false)
found_candidates true row rest h = (λ _. ground (arith, h), ground (arith, h))
found_candidates false row rest h = (λ n. cc, h)

mark_used-Consumed :
    (d : Digest) (rows : List NewsItem)
    → any (λ m. not (is_candidate m.status)) (where_rows (is_selected d) rows) ≡ false
    → Each (Consumed d) rows (mark_used d rows)
unfolding mark_used where_rows
mark_used-Consumed d [] h = tt
mark_used-Consumed d (row ∷ rows) h =
    let rest = where_rows (is_selected d) rows in
    let (first, others) = found_candidates (is_selected d row) row rest h in
    elim (Bool-cases (is_selected d row)) [
      | inl chosen ↦ rw chosen (
        record { selected = λ _. (first chosen, refl); other = λ n. cc },
        mark_used-Consumed d rows others,
      )
      | inr passed ↦
          rw passed
            (record { selected = λ n. cc; other = λ _. refl }, mark_used-Consumed d rows others)
    ]

abbrev pub CreatedFrom : Digest → Store → Store → Type 0
CreatedFrom d before after =
    Each (Consumed d) before.news_items after.news_items
    × (length (where_rows (is_selected d) before.news_items) ≡ length d.items)
    × (after
        ≡ record before { digests = before.digests ++ (d ∷ []); news_items = after.news_items })

consume_candidates-CreatedFrom :
    (d : Digest) (s : Store)
    → (consume_candidates d s).0 ≡ ok tt
    → CreatedFrom d s (consume_candidates d s).1
unfolding consume_candidates
consume_candidates-CreatedFrom d s h =
    let models = where_rows (is_selected d) s.news_items in
    let f₁ : (length models == length d.items) ≡ true = ground arith in
    let f₂ : any (λ m. not (is_candidate m.status)) models ≡ false = ground arith in
    let f₃ : any (λ x. (x.id == d.id) || (x.run_id == d.run_id)) s.digests ≡ false = ground arith in
    rw (f₁, f₂, f₃) (mark_used-Consumed d s.news_items f₂, ground (arith, f₁), refl)

create_generated-through :
    (net : Net) (digest : Digest) (s : Store) {v : Digest} {x : Unit {0}}
    → validated_digest net digest ≡ ok v
    → is_generated v.status ≡ true
    → (consume_candidates v s).0 ≡ ok x
    → (create_generated net digest s).1 ≡ (consume_candidates v s).1
unfolding create_generated
create_generated-through net digest s e new k = ground (arith, e, new, k)

create_generated-CreatedFrom :
    (net : Net) (digest : Digest) (s : Store) {d : Digest}
    → (create_generated net digest s).0 ≡ ok d
    → (d.status ≡ DigestStatus.generated) × CreatedFrom d s (create_generated net digest s).1
unfolding create_generated
create_generated-CreatedFrom net digest s {d = d} h =
    elim (Result-cases (validated_digest net digest)) [
      | inr (_, e) ↦ ground (arith, e, h)
      | inl (v, e) ↦ elim (Bool-cases (is_generated v.status)) [
        | inr other ↦ ground (arith, e, other, h)
        | inl new ↦ elim (Result-cases (consume_candidates v s).0) [
          | inr (_, k) ↦ ground (arith, e, new, k, h)
          | inl (_, k) ↦
              let same : v ≡ d = ground (arith, e, new, k, h) in
              subst
                (λ z.
                  (z.status ≡ DigestStatus.generated)
                  × CreatedFrom z s (create_generated net digest s).1)
                same
                (
                  ground (arith, new),
                  rw (create_generated-through net digest s e new k)
                      (consume_candidates-CreatedFrom v s k),
                )
        ]
      ]
    ]

create_generated-raised :
    (net : Net) (digest : Digest) (s : Store) {e : Exc}
    → (create_generated net digest s).0 ≡ raise e
    → (create_generated net digest s).1 ≡ s
unfolding create_generated
create_generated-raised net digest s h = elim (Result-cases (validated_digest net digest)) [
  | inr (_, e) ↦ rw e refl
  | inl (v, e) ↦ elim (Bool-cases (is_generated v.status)) [
    | inr other ↦ rw (e, other) refl
    | inl new ↦ elim (Result-cases (consume_candidates v s).0) [
      | inr (_, k) ↦ ground (arith, e, new, k)
      | inl (_, k) ↦ ground (arith, e, new, k, h)
    ]
  ]
]

-- What the caller sees: all of the creation, or nothing of it.
abbrev pub CreationOutcome : Store → Result Digest × Store → Type 0
CreationOutcome before (ok d, after) =
    (d.status ≡ DigestStatus.generated) × CreatedFrom d before after
CreationOutcome before (raise e, after) = after ≡ before

outcome_of :
    (before : Store) (p : Result Digest × Store)
    → ((d : Digest) → p.0 ≡ ok d → CreationOutcome before (ok d, p.1))
    → ((e : Exc) → p.0 ≡ raise e → p.1 ≡ before)
    → CreationOutcome before p
outcome_of before (ok d, after) f g = f d refl
outcome_of before (raise e, after) f g = g e refl

-- create_generated does all of the creation or nothing of it. If it gives a digest, this is newly
-- generated and was added to the digests, as many articles were selected as it has items, every
-- selected article was a candidate and is now used without a reason to ignore it, and nothing else
-- has changed; if it raises, the store is as it was.
pub create_generated-CreationOutcome :
    (net : Net) (digest : Digest) (s : Store) → CreationOutcome s (create_generated net digest s)
create_generated-CreationOutcome net digest s =
    outcome_of s (create_generated net digest s)
      (λ d h. create_generated-CreatedFrom net digest s h)
      (λ e h. create_generated-raised net digest s h)
