-- ===== src/Store/Grown.antt =====
-- How the rows of delivery attempts may change over time.
use automation_portfolio.Prelude.{
  ◌≡◌, refl, sym, ap, ◌∙◌, ◌≢◌, ℕ, true, List, [], ◌∷◌, ◌++◌, some, ◌==◌, inl, inr, Bool-cases,
  arith,
}
use automation_portfolio.Enums.{DeliveryStatus}
use automation_portfolio.Attempt.{Attempt, is_pending}
use automation_portfolio.Store.Rows.{find, update}
use automation_portfolio.Store.Attempts.{with_result}

-- A row keeps its identity, and once it is completed it keeps everything.
pub record Settled (before after : Attempt) : Type 0 where
  pub same_id : after.id ≡ before.id
  pub same_digest : after.digest_id ≡ before.digest_id
  pub same_part : after.part_number ≡ before.part_number
  pub same_number : after.attempt_number ≡ before.attempt_number
  pub final : before.status ≢ DeliveryStatus.pending → after ≡ before

-- No row disappears, each is settled, and new rows stand after the old ones.
abbrev pub Grown : List Attempt → List Attempt → Type 0
Grown [] after = Unit
Grown (x ∷ xs) [] = ⊥
Grown (x ∷ xs) (y ∷ ys) = Settled x y × Grown xs ys

Settled-refl : (x : Attempt) → Settled x x
Settled-refl x = record {
  same_id = refl;
  same_digest = refl;
  same_part = refl;
  same_number = refl;
  final = λ h. refl;
}

Settled-trans : (x y z : Attempt) → Settled x y → Settled y z → Settled x z
Settled-trans x y z p q = record {
  same_id = q.same_id ∙ p.same_id;
  same_digest = q.same_digest ∙ p.same_digest;
  same_part = q.same_part ∙ p.same_part;
  same_number = q.same_number ∙ p.same_number;
  final = λ h. q.final (λ e. h (sym (ap (λ a. a.status) (p.final h)) ∙ e)) ∙ p.final h;
}

pub Grown-refl : (xs : List Attempt) → Grown xs xs
Grown-refl [] = tt
Grown-refl (x ∷ xs) = (Settled-refl x, Grown-refl xs)

pub Grown-trans : (xs ys zs : List Attempt) → Grown xs ys → Grown ys zs → Grown xs zs
Grown-trans [] ys zs p q = tt
Grown-trans (x ∷ xs) (y ∷ ys) (z ∷ zs) p q =
    (Settled-trans x y z p.0 q.0, Grown-trans xs ys zs p.1 q.1)
Grown-trans (x ∷ xs) [] zs p q = absurd p
Grown-trans (x ∷ xs) (y ∷ ys) [] p q = absurd q

pub Grown-append : (xs ys : List Attempt) → Grown xs (xs ++ ys)
Grown-append [] ys = tt
Grown-append (x ∷ xs) ys = (Settled-refl x, Grown-append xs ys)

-- The result of an attempt is written to a row that is pending.
Settled-with_result :
    (v row : Attempt) → is_pending row.status ≡ true → Settled row (with_result v row)
Settled-with_result v row h = record {
  same_id = refl;
  same_digest = refl;
  same_part = refl;
  same_number = refl;
  final = λ n. absurd (n (ground arith));
}

pub Grown-update :
    (v : Attempt) (id : ℕ) (rows : List Attempt) (row : Attempt)
    → find (λ a. a.id) id rows ≡ some row
    → is_pending row.status ≡ true
    → Grown rows (update (λ a. a.id) id (with_result v) rows)
unfolding find update
Grown-update v id [] row e h = tt
Grown-update v id (x ∷ xs) row e h = elim (Bool-cases (x.id == id)) [
  | inl here ↦ rw here (Settled-with_result v x (ground arith), Grown-refl xs)
  | inr there ↦ rw there (Settled-refl x, Grown-update v id xs row (ground arith) h)
]
