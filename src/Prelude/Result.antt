-- ===== src/Prelude/Result.antt =====
-- What a call gives: its value, or the exception that it raises. `do` chains such calls.
use mathlib.Core.Bool.{Bool, true, false}
use mathlib.Core.Option.{Option, none, some}
use mathlib.Core.Path.{◌≡◌, refl, sym, ap}
use mathlib.Core.Logic.{◌⊎◌, inl, inr}
use automation_portfolio.Messages.{Exc}

pub data Result {ℓ} (A : Type ℓ) : Type ℓ where
  ok : A → Result A
  raise : Exc → Result A

-- `if test: raise e`
abbrev pub raise_if : Bool → Exc → Result (Unit {0})
raise_if true e = raise e
raise_if false e = ok tt

-- A check that is made only on a value that is not None.
abbrev pub on_some : {A : Type 0} → (A → Result (Unit {0})) → Option A → Result (Unit {0})
on_some check none = ok tt
on_some check (some a) = check a

module _ {ℓ κ} {A : Type ℓ} {B : Type κ} where
  infixl 5 ◌>>=◌
  abbrev pub ◌>>=◌ : Result A → (A → Result B) → Result B
  ◌>>=◌ (raise e) rest = raise e
  ◌>>=◌ (ok value) rest = rest value

module _ {ℓ κ} {A : Type ℓ} {B : Type κ} where
  -- Of a chain that goes through, its first call gave a value, and the rest went through on it.
  pub >>=-eq-ok :
      (first : Result A) (rest : A → Result B) {b : B}
      → (first >>= rest) ≡ ok b
      → (value : A) × (first ≡ ok value) × (rest value ≡ ok b)
  >>=-eq-ok (raise e) rest h = cc
  >>=-eq-ok (ok value) rest h = (value, refl, h)

-- A statement whose value is not used.
infixl 5 ◌>>◌
abbrev pub ◌>>◌ {ℓ} : {B : Type ℓ} → Result (Unit {0}) → Result B → Result B
check >> rest = check >>= λ _. rest

pub raise-ne-ok {ℓ} : {A : Type ℓ} {e : Exc} {a : A} → raise e ≡ ok a → ⊥
raise-ne-ok h = cc

-- To split on a call and keep the equation.
pub Result-cases {ℓ} :
    {A : Type ℓ} (r : Result A) → ((a : A) × (r ≡ ok a)) ⊎ ((e : Exc) × (r ≡ raise e))
Result-cases (ok a) = inl (a, refl)
Result-cases (raise e) = inr (e, refl)

pub ok-injective {ℓ} : {A : Type ℓ} {a b : A} → ok a ≡ ok b → a ≡ b
ok-injective h = cc

-- What follows a check that raises: the exception is the check's or that of the rest.
pub raise_if-raise {ℓ} :
    {A : Type ℓ} (test : Bool) (e₁ e : Exc) (k : Result A)
    → (raise_if test e₁ >>= λ _. k) ≡ raise e
    → (e ≡ e₁) ⊎ (k ≡ raise e)
raise_if-raise true e₁ e k h = inl cc
raise_if-raise false e₁ e k h = inr h

pub raise-injective {ℓ} : {A : Type ℓ} {x y : Exc} → Path (Result A) (raise x) (raise y) → x ≡ y
raise-injective h = cc

-- What a call raises, what it is followed by raises too.
pub >>=-raise {ℓ κ} :
    {A : Type ℓ} {B : Type κ} (m : Result A) (f : A → Result B) {x e : Exc}
    → m ≡ raise x
    → (m >>= f) ≡ raise e
    → m ≡ raise e
>>=-raise (ok a) f hm h = absurd (raise-ne-ok (sym hm))
>>=-raise (raise y) f hm h = ap raise (raise-injective h)
