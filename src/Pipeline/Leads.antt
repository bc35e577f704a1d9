-- ===== src/Pipeline/Leads.antt =====
-- What the statements of `_run_locked` lead to, where they give a value.
use automation_portfolio.Prelude.{◌≡◌}
use automation_portfolio.Prelude.Result.{Result, ok, raise}
use automation_portfolio.Delivery.{Outside}
use automation_portfolio.Run.{PipelineRun}
use automation_portfolio.Pipeline.Flow.{FlowState, Flow, ◌>>=◌, in_transaction}

module _ {o : Outside} where
  abbrev pub OnOk : {A : Type 0} → (A → FlowState o → Type 0) → Result A × FlowState o → Type 0
  OnOk Q (ok a, s) = Q a s
  OnOk Q (raise e, s) = Unit

  pub record Leads {A : Type 0} (P : FlowState o → Type 0) (m : Flow o A)
      (Q : A → FlowState o → Type 0) : Type 0 where
    pub at : (s : FlowState o) → P s → OnOk Q (m s)

  abbrev pub Any : FlowState o → Type 0
  Any s = Unit

  OnOk-then :
      {A B : Type 0} (Q : A → FlowState o → Type 0) (R : B → FlowState o → Type 0)
      (k : A → Flow o B) (p : Result A × FlowState o)
      → OnOk Q p
      → ((a : A) → Leads (Q a) (k a) R)
      → OnOk R (◌>>=◌ (λ _. p) k p.1)
  unfolding ◌>>=◌
  OnOk-then Q R k (ok a, s) h f = (f a).at s h
  OnOk-then Q R k (raise e, s) h f = tt

  pub Leads-bind :
      {A B : Type 0} {P : FlowState o → Type 0} {m : Flow o A} {k : A → Flow o B}
      (Q : A → FlowState o → Type 0) {R : B → FlowState o → Type 0}
      → Leads P m Q
      → ((a : A) → Leads (Q a) (k a) R)
      → Leads P (m >>= k) R
  unfolding ◌>>=◌
  Leads-bind {m = m} {k = k} Q {R = R} h f = record {
    at = λ s p. OnOk-then Q R k (m s) (h.at s p) f;
  }

  OnOk-Any : {A : Type 0} (p : Result A × FlowState o) → OnOk (λ _. Any) p
  OnOk-Any (ok a, s) = tt
  OnOk-Any (raise e, s) = tt

  pub Leads-Any : {A : Type 0} {P : FlowState o → Type 0} (m : Flow o A) → Leads P m (λ _. Any)
  Leads-Any m = record { at = λ s _. OnOk-Any (m s) }

  -- Whatever came before, what follows leads to the result.
  pub Leads-after :
      {A B : Type 0} {P : FlowState o → Type 0} (m : Flow o A) {k : A → Flow o B}
      {R : B → FlowState o → Type 0}
      → ((a : A) → Leads Any (k a) R)
      → Leads P (m >>= k) R
  Leads-after m f = Leads-bind (λ _. Any) (Leads-Any m) f

  -- Statements that leave the run as it is keep what holds of it.
  OnOk-run :
      {A : Type 0} (P : PipelineRun → Type 0) (p : Result A × FlowState o)
      → P p.1.run
      → OnOk (λ _ s. P s.run) p
  OnOk-run P (ok a, s) h = h
  OnOk-run P (raise e, s) h = tt

  pub Leads-keep :
      {A : Type 0} (P : PipelineRun → Type 0) (m : Flow o A)
      → ((s : FlowState o) → (m s).1.run ≡ s.run)
      → Leads (λ s. P s.run) m (λ _ s. P s.run)
  Leads-keep P m k = record { at = λ s h. OnOk-run P (m s) (rw (k s) h) }

  transaction-OnOk :
      {A : Type 0} (Q : A → FlowState o → Type 0) (p : Result A × FlowState o) (s : FlowState o)
      → OnOk Q p
      → OnOk Q (in_transaction (λ _. p) s)
  unfolding in_transaction
  transaction-OnOk Q (ok a, t) s h = h
  transaction-OnOk Q (raise e, t) s h = tt

  pub Leads-transaction :
      {A : Type 0} {P : FlowState o → Type 0} {m : Flow o A} {Q : A → FlowState o → Type 0}
      → Leads P m Q
      → Leads P (in_transaction m) Q
  unfolding in_transaction
  Leads-transaction {m = m} {Q = Q} h = record { at = λ s p. transaction-OnOk Q (m s) s (h.at s p) }
