-- ===== src/Store/Post.antt =====
-- What holds after an action on the store: one thing where it gives a value, another where it raises.
use mathlib.Core.Path.{subst}
use automation_portfolio.Prelude.{◌≡◌, refl}
use automation_portfolio.Prelude.Result.{Result, ok, raise, ok-injective, raise-ne-ok}
use automation_portfolio.Prelude.Action.{Action, ◌>>=◌, lift}
use automation_portfolio.Store.Rows.{Store, transaction}

abbrev pub Post : {A : Type 0} → (A → Store → Type 0) → (Store → Type 0) → Result A × Store → Type 0
Post Q R (ok a, s) = Q a s
Post Q R (raise e, s) = R s

Post-then :
    {A B : Type 0} (Q : A → Store → Type 0) (P : B → Store → Type 0) (R : Store → Type 0)
    (f : A → Action Store B) (p : Result A × Store)
    → Post Q R p
    → ((a : A) (s : Store) → Q a s → Post P R (f a s))
    → Post P R (◌>>=◌ (λ _. p) f p.1)
Post-then Q P R f (ok a, s) h k = k a s h
Post-then Q P R f (raise e, s) h k = h

pub Post-bind :
    {A B : Type 0} (Q : A → Store → Type 0) (P : B → Store → Type 0) (R : Store → Type 0)
    (m : Action Store A) (f : A → Action Store B) (s : Store)
    → Post Q R (m s)
    → ((a : A) (t : Store) → Q a t → Post P R (f a t))
    → Post P R ((m >>= f) s)
Post-bind Q P R m f s h k = Post-then Q P R f (m s) h k

Post-rolled_back :
    {A : Type 0} (Q : A → Store → Type 0) (R : Store → Type 0) (p : Result A × Store) (s : Store)
    → Post Q R p
    → R s
    → Post Q R (transaction (λ _. p) s)
Post-rolled_back Q R (ok a, t) s h r = h
Post-rolled_back Q R (raise e, t) s h r = r

pub Post-transaction :
    {A : Type 0} (Q : A → Store → Type 0) (R : Store → Type 0) (m : Action Store A) (s : Store)
    → Post Q R (m s)
    → R s
    → Post Q R (transaction m s)
Post-transaction Q R m s h r = Post-rolled_back Q R (m s) s h r

pub Post-imp :
    {A : Type 0} (Q P : A → Store → Type 0) (R T : Store → Type 0) (p : Result A × Store)
    → ((a : A) (s : Store) → Q a s → P a s)
    → ((s : Store) → R s → T s)
    → Post Q R p
    → Post P T p
Post-imp Q P R T (ok a, s) f g h = f a s h
Post-imp Q P R T (raise e, s) f g h = g s h

-- Of an action that leaves a part of the store as it is.
pub Post-same :
    {A B : Type 0} (part : Store → B) (b : B) (p : Result A × Store)
    → part p.1 ≡ b
    → Post (λ _ s. part s ≡ b) (λ s. part s ≡ b) p
Post-same part b (ok a, s) h = h
Post-same part b (raise e, s) h = h

-- What does not depend on the state: the value of a call that reads no object.
pub Post-lift :
    {A : Type 0} (R : Store → Type 0) (r : Result A) (s : Store)
    → R s
    → Post (λ a t. (r ≡ ok a) × (t ≡ s)) R (lift r s)
Post-lift R (ok a) s h = (refl, refl)
Post-lift R (raise e) s h = h

-- What holds of the value that the action gave.
pub Post-ok :
    {A : Type 0} (Q : A → Store → Type 0) (R : Store → Type 0) (p : Result A × Store) {a : A}
    → Post Q R p
    → p.0 ≡ ok a
    → Q a p.1
Post-ok Q R (ok b, s) h e = subst (λ x. Q x s) (ok-injective e) h
Post-ok Q R (raise x, s) h e = absurd (raise-ne-ok e)
