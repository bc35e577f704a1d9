-- ===== src/Delivery/Resumed.antt =====
-- Where the loop over the parts of `deliver` resumes.
use mathlib.Core.List.{Memᴰ}
use automation_portfolio.Prelude.{
  ◌≡◌, refl, sym, ap, ◌∙◌, ℕ, zero, suc, ◌+◌, Bool, true, false, List, [], ◌∷◌, ◌++◌, length, inl,
  inr, arith, Bool-cases,
}
use automation_portfolio.Prelude.Text.{Text, codes}
use automation_portfolio.Prelude.Int.{ℤ, pos, negsuc, eqb_ℤ}
use automation_portfolio.Prelude.Sort.{occurs}
use automation_portfolio.Enums.{DeliveryStatus}
use automation_portfolio.Net.{Net}
use automation_portfolio.Attempt.{Attempt}
use automation_portfolio.Delivery.Client.{Outside, Settings}
use automation_portfolio.Delivery.Monad.{State, Step, ◌>>=◌, return}
use automation_portfolio.Delivery.Part.{or_else, deliver_part}
use automation_portfolio.Delivery.Deliver.{
  sent_parts, max_attempt, chat_of, after_part, part_step, deliver_parts,
}

-- A sent attempt of the part is among the attempts.
pub record IsSent (attempts : List Attempt) (part : ℕ) : Type 0 where
  pub attempt : Attempt
  pub among : Memᴰ attempt attempts
  pub sent : attempt.status ≡ DeliveryStatus.sent
  pub of_part : attempt.part_number ≡ pos part

-- So it is for `n` parts from number `part` on.
abbrev pub AllSent : List Attempt → ℕ → ℕ → Type 0
AllSent attempts zero part = Unit
AllSent attempts (suc n) part = IsSent attempts part × AllSent attempts n (suc part)

-- The first of the texts, if there is one, is of a part without a sent attempt.
abbrev pub FirstUnsent : List Attempt → List Text → ℕ → Type 0
FirstUnsent attempts [] part = Unit
FirstUnsent attempts (text ∷ texts) part = IsSent attempts part → ⊥

eqb_ℤ_refl : (n : ℕ) → eqb_ℤ (pos n) (pos n) ≡ true
eqb_ℤ_refl n = ground arith

eqb_ℤ→eq : (n : ℕ) (z : ℤ) → eqb_ℤ (pos n) z ≡ true → z ≡ pos n
eqb_ℤ→eq n (pos m) h = ap pos (ground arith)
eqb_ℤ→eq n (negsuc m) h = ground arith

later :
    {a : Attempt} {attempts : List Attempt} {n : ℕ} → IsSent attempts n → IsSent (a ∷ attempts) n
later h = record {
  attempt = h.attempt;
  among = Memᴰ.tail h.among;
  sent = h.sent;
  of_part = h.of_part;
}

-- Only numbers of parts with a sent attempt are in the set of sent parts.
occurs-IsSent :
    (attempts : List Attempt) (n : ℕ)
    → occurs eqb_ℤ (pos n) (sent_parts attempts) ≡ true
    → IsSent attempts n
unfolding sent_parts occurs
occurs-IsSent [] n h = cc
occurs-IsSent (a ∷ attempts) n h = elim (Bool-cases (occurs eqb_ℤ (pos n) (sent_parts attempts))) [
  | inl e ↦ later (occurs-IsSent attempts n e)
  | inr e ↦ go e a.status refl
]
  where
    go :
        occurs eqb_ℤ (pos n) (sent_parts attempts) ≡ false
        → (status : DeliveryStatus) → a.status ≡ status
        → IsSent (a ∷ attempts) n
    go e DeliveryStatus.sent same = record {
      attempt = a;
      among = Memᴰ.head refl;
      sent = same;
      of_part = eqb_ℤ→eq n a.part_number (ground (arith, e, h, same));
    }
    go e DeliveryStatus.pending same = ground (arith, e, h, same)
    go e DeliveryStatus.failed same = ground (arith, e, h, same)

-- And all of these are.
pub IsSent-occurs :
    (attempts : List Attempt) (a : Attempt) (n : ℕ)
    → Memᴰ a attempts
    → a.status ≡ DeliveryStatus.sent
    → a.part_number ≡ pos n
    → occurs eqb_ℤ (pos n) (sent_parts attempts) ≡ true
unfolding sent_parts occurs
IsSent-occurs [] a n among sent of_part = elim among [ ]
IsSent-occurs (b ∷ attempts) a n (Memᴰ.head same) sent of_part =
    let is_sent : b.status ≡ DeliveryStatus.sent = ap (λ x. x.status) (sym same) ∙ sent in
    let is_part : b.part_number ≡ pos n = ap (λ x. x.part_number) (sym same) ∙ of_part in
    rw is_sent (
      rw is_part (elim (Bool-cases (occurs eqb_ℤ (pos n) (sent_parts attempts))) [
        | inl e ↦ rw e e
        | inr e ↦ rw e (ground arith)
      ]))
IsSent-occurs (b ∷ attempts) a n (Memᴰ.tail among) sent of_part =
    go b.status refl (IsSent-occurs attempts a n among sent of_part)
  where
    go :
        (status : DeliveryStatus)
        → b.status ≡ status
        → occurs eqb_ℤ (pos n) (sent_parts attempts) ≡ true
        → occurs eqb_ℤ (pos n) (sent_parts (b ∷ attempts)) ≡ true
    go DeliveryStatus.sent same e = ground (arith, same, e)
    go DeliveryStatus.pending same e = ground (arith, same, e)
    go DeliveryStatus.failed same e = ground (arith, same, e)

module _ (net : Net) {o : Outside} (settings : Settings) (id : ℕ) where
  -- The loop that begins by sending the first of the texts.
  abbrev pub resumed : List Attempt → List Text → ℕ → ℕ → Step o (Bool × ℕ)
  resumed attempts [] part count = return (true, count)
  resumed attempts (text ∷ texts) part count =
      deliver_part net settings.telegram_max_retries id part text
        (or_else (chat_of settings) (codes "demo-chat")) (max_attempt part 0 attempts)
      >>= after_part net settings id count (deliver_parts net settings id attempts texts (suc part))

  skip-AllSent :
      (attempts : List Attempt) (sent texts : List Text) (part count : ℕ)
      → AllSent attempts (length sent) part
      → deliver_parts net {o = o} settings id attempts (sent ++ texts) part count
        ≡ deliver_parts net settings id attempts texts (length sent + part) count
  unfolding deliver_parts part_step
  skip-AllSent attempts [] texts part count h =
      ap (λ p. deliver_parts net {o = o} settings id attempts texts p count) (omega arith)
  skip-AllSent attempts (text ∷ sent) texts part count (h, others) =
      rw (IsSent-occurs attempts h.attempt part h.among h.sent h.of_part) (
        skip-AllSent attempts sent texts (suc part) count others
        ∙ ap (λ p. deliver_parts net {o = o} settings id attempts texts p count) (omega arith))

  start-FirstUnsent :
      (attempts : List Attempt) (texts : List Text) (part count : ℕ)
      → FirstUnsent attempts texts part
      → deliver_parts net {o = o} settings id attempts texts part count
        ≡ resumed attempts texts part count
  unfolding deliver_parts part_step
  start-FirstUnsent attempts [] part count h = refl
  start-FirstUnsent attempts (text ∷ texts) part count h =
      elim (Bool-cases (occurs eqb_ℤ (pos part) (sent_parts attempts))) [
        | inl e ↦ absurd (h (occurs-IsSent attempts part e))
        | inr e ↦ rw e refl
      ]

  -- If the first parts have a sent attempt among those that were loaded, and the next part, if
  -- there is one, has none, then the loop over the parts is the loop that begins with that part:
  -- the parts before it send nothing, count nothing and change nothing, and that part is
  -- delivered.
  pub deliver_parts-AllSent :
      (attempts : List Attempt) (sent texts : List Text) (part count : ℕ) (s : State o)
      → AllSent attempts (length sent) part
      → FirstUnsent attempts texts (length sent + part)
      → deliver_parts net settings id attempts (sent ++ texts) part count s
        ≡ resumed attempts texts (length sent + part) count s
  deliver_parts-AllSent attempts sent texts part count s h first =
      ap (λ m. m s)
        (skip-AllSent attempts sent texts part count h
          ∙ start-FirstUnsent attempts texts (length sent + part) count first)
