-- ===== src/Prelude/Action.antt =====
-- A method of a mutable object: the object comes back after a raise too, since what was assigned
-- stays assigned.
use mathlib.Core.Path.{◌≡◌, refl, ap}
use automation_portfolio.Prelude.Result.{Result, ok, raise}

abbrev pub Action : Type 0 → Type 0 → Type 0
Action S A = S → Result A × S

infixl 5 ◌>>=◌ ◌>>◌
abbrev pub ◌>>=◌ : {S A B : Type 0} → Action S A → (A → Action S B) → Action S B
◌>>=◌ m f s = let (r, s') = m s in elim r [ ok a ↦ f a s' | raise e ↦ (raise e, s') ]

abbrev pub ◌>>◌ : {S B : Type 0} → Action S (Unit {0}) → Action S B → Action S B
m >> k = m >>= λ _. k

-- A check that reads no object.
abbrev pub lift : {S A : Type 0} → Result A → Action S A
lift r s = (r, s)

abbrev pub get : {S : Type 0} → Action S S
get s = (ok s, s)

abbrev pub pure : {S A : Type 0} → A → Action S A
pure a s = (ok a, s)

abbrev pub modify : {S : Type 0} → (S → S) → Action S (Unit {0})
modify f s = (ok tt, f s)

-- What follows a call that gave a value.
pub >>=-ok :
    {S A B : Type 0} (m : Action S A) (f : A → Action S B) {s s' : S} {a : A}
    → m s ≡ (ok a, s')
    → (m >>= f) s ≡ f a s'
>>=-ok {S = S} {B = B} m f {s = s} h =
    ap (λ p. elim p.0 as (λ _. Result B × S) [ ok a ↦ f a p.1 | raise e ↦ (raise e, p.1) ]) h

after-lift :
    {S A B : Type 0} (f : A → Result B) (p : Result A × S)
    → (◌>>=◌ (λ _. p) (λ a. lift (f a)) p.1).1 ≡ p.1
after-lift f (ok a, s) = refl
after-lift f (raise e, s) = refl

-- A check that follows a call leaves the object as the call left it.
pub >>=-lift :
    {S A B : Type 0} (m : Action S A) (f : A → Result B) (s : S)
    → ((m >>= λ a. lift (f a)) s).1 ≡ (m s).1
>>=-lift m f s = after-lift f (m s)
