-- ===== src/Delivery/Monad.antt =====
-- The statements of the service: on the store and the world, either of which stays after a raise.
use automation_portfolio.Prelude.{ℕ}
use automation_portfolio.Prelude.Text.{Text}
use automation_portfolio.Prelude.Result.{Result, ok, raise}
use automation_portfolio.Prelude.Action.{Action}
use automation_portfolio.Messages.{Exc}
use automation_portfolio.Store.{Store, transaction}
use automation_portfolio.Delivery.Client.{Outside, SendResult}

pub record State (o : Outside) : Type 0 where
  pub store : Store
  pub world : o.World

abbrev pub Step : Outside → Type 0 → Type 0
Step o A = State o → Result A × State o

module _ {o : Outside} where
  infixl 5 ◌>>=◌
  unfoldable pub ◌>>=◌ : {A B : Type 0} → Step o A → (A → Step o B) → Step o B
  ◌>>=◌ m rest s =
      let (r, after) = m s in elim r [ ok a ↦ rest a after | raise e ↦ (raise e, after) ]

infixl 5 ◌>>◌
abbrev pub ◌>>◌ : {o : Outside} {B : Type 0} → Step o (Unit {0}) → Step o B → Step o B
m >> rest = m >>= λ _. rest

module _ {o : Outside} where
  unfoldable pub return : {A : Type 0} → A → Step o A
  return a s = (ok a, s)

  unfoldable pub throw : {A : Type 0} → Exc → Step o A
  throw e s = (raise e, s)

  unfoldable pub from : {A : Type 0} → Result A → Step o A
  from r s = (r, s)

  -- `async with transaction_scope(…)`
  unfoldable pub in_transaction : {A : Type 0} → Action Store A → Step o A
  in_transaction m s = let (r, after) = transaction m s.store in (r, record s { store = after })

  -- A call of the world.
  unfoldable pub call_world : {A : Type 0} → (o.World → A × o.World) → Step o A
  call_world f s = let (a, after) = f s.world in (ok a, record s { world = after })

  abbrev pub utc_now : Step o ℕ
  utc_now = call_world o.utc_now

  abbrev pub uuid4 : Step o ℕ
  uuid4 = call_world o.uuid4

  abbrev pub send_message : Text → Text → Step o SendResult
  send_message chat_id text = call_world (o.send_message chat_id text)

  abbrev pub sleep : ℕ → Step o (Unit {0})
  sleep seconds = call_world (λ w. (tt, o.sleep seconds w))
