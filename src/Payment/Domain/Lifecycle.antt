-- ===== src/Payment/Domain/Lifecycle.antt =====
-- The life of a payment under payment.rs: which statuses follow which, what a payment carries in
-- each, and what the providers' reports can change.
use ussd_polyglot.Prelude.{
  ℕ, ◌≡◌, refl, subst, ◌≢◌, ◌⊎◌, inl, inr, true, false, Option, none, List, [], ◌∷◌, String, arith,
}
use ussd_polyglot.Payment.Provider.{ProviderStatus}
use ussd_polyglot.Payment.Domain.{
  PaymentStatus, pending, processing, completed, failed, cancelled, refunded, Payment, is_open,
  mark_processing, apply_provider_status,
}

-- the edges of the state machine
infix 40 ◌⟶◌
pub data ◌⟶◌ : PaymentStatus → PaymentStatus → Type 0 where
  begin : pending ⟶ processing
  complete_pending : pending ⟶ completed
  complete_processing : processing ⟶ completed
  fail_pending : pending ⟶ failed
  fail_processing : processing ⟶ failed
  cancel_pending : pending ⟶ cancelled
  cancel_processing : processing ⟶ cancelled
  refund : completed ⟶ refunded

ruleset edges = (
  begin, complete_pending, complete_processing, fail_pending, fail_processing, cancel_pending,
  cancel_processing, refund,
)

infix 40 ◌⟶*◌
pub data ◌⟶*◌ : PaymentStatus → PaymentStatus → Type 0 where
  here : {s : PaymentStatus} → s ⟶* s
  then : {s t u : PaymentStatus} → s ⟶ t → t ⟶* u → s ⟶* u

-- the statuses that no edge leaves
abbrev pub IsSettled : PaymentStatus → Type 0
IsSettled s = (s ≡ failed) ⊎ (s ≡ cancelled) ⊎ (s ≡ refunded)

-- what a payment carries in its status
pub record IsConsistent {A : Type 0} (p : Payment A) : Type 0 where
  pub still_open : is_open p.status ≡ true → (p.completed_at ≡ none) × (p.failure_reason ≡ none)
  pub closed : is_open p.status ≡ false → p.completed_at ≢ none
  pub paid : (p.status ≡ completed) ⊎ (p.status ≡ refunded) → p.provider_reference ≢ none
  pub given_up : p.status ≡ failed → p.failure_reason ≢ none

module _ {A : Type 0} where
  apply_provider_status-⟶ :
      (now : ℕ) (s : ProviderStatus) (ref : Option String) (p : Payment A)
      → let p' = apply_provider_status now s ref p in
        (p'.status ≡ p.status) ⊎ (p.status ⟶ p'.status)
  unfolding apply_provider_status
  apply_provider_status-⟶ now s ref p = grind (arith, edges)

  -- Every transition of a payment keeps what its status promises.
  pub apply_provider_status-IsConsistent :
      (now : ℕ) (s : ProviderStatus) (ref : Option String) (p : Payment A)
      → IsConsistent p
      → IsConsistent (apply_provider_status now s ref p)
  unfolding apply_provider_status
  apply_provider_status-IsConsistent now s ref p c = ground arith

  mark_processing-IsConsistent :
      (p : Payment A) → IsConsistent p → IsConsistent (mark_processing p).0
  unfolding mark_processing
  mark_processing-IsConsistent p c = ground arith

  -- A report that is delivered twice has the effect of one delivery, also when the second arrives
  -- later and names another reference.
  pub apply_provider_status_idem :
      (now later : ℕ) (s : ProviderStatus) (ref ref' : Option String) (p : Payment A)
      → apply_provider_status later s ref' (apply_provider_status now s ref p)
        ≡ apply_provider_status now s ref p
  unfolding apply_provider_status
  apply_provider_status_idem now later s ref ref' p = ground arith

  -- one report after another
  pub run : List (ℕ × ProviderStatus × Option String) → Payment A → Payment A
  run [] p = p
  run ((now, s, ref) ∷ reports) p = run reports (apply_provider_status now s ref p)

  pub run-⟶* :
      (reports : List (ℕ × ProviderStatus × Option String)) (p : Payment A)
      → p.status ⟶* (run reports p).status
  unfolding run
  run-⟶* [] p = here
  run-⟶* ((now, s, ref) ∷ reports) p = elim (apply_provider_status-⟶ now s ref p) [
    | inl same ↦
        let p' = apply_provider_status now s ref p in
        subst (λ status. status ⟶* (run reports p').status) same (run-⟶* reports p')
    | inr edge ↦ then edge (run-⟶* reports (apply_provider_status now s ref p))
  ]

  run-IsConsistent :
      (reports : List (ℕ × ProviderStatus × Option String)) (p : Payment A)
      → IsConsistent p
      → IsConsistent (run reports p)
  unfolding run
  run-IsConsistent [] p c = c
  run-IsConsistent ((now, s, ref) ∷ reports) p c =
      run-IsConsistent reports (apply_provider_status now s ref p)
        (apply_provider_status-IsConsistent now s ref p c)

  -- what a report never changes
  abbrev pub SameTerms : Payment A → Payment A → Type 0
  SameTerms p q =
      (q.payment_id ≡ p.payment_id)
      × (q.tenant_id ≡ p.tenant_id)
      × (q.idempotency_key ≡ p.idempotency_key)
      × (q.provider ≡ p.provider)
      × (q.phone_number ≡ p.phone_number)
      × (q.amount ≡ p.amount)
      × (q.currency ≡ p.currency)
      × (q.reference ≡ p.reference)
      × (q.description ≡ p.description)
      × (q.initiated_at ≡ p.initiated_at)

  apply_provider_status-SameTerms :
      (now : ℕ) (s : ProviderStatus) (ref : Option String) (p : Payment A)
      → SameTerms p (apply_provider_status now s ref p)
  unfolding apply_provider_status
  apply_provider_status-SameTerms now s ref p = ground arith

  run-SameTerms :
      (reports : List (ℕ × ProviderStatus × Option String)) (p : Payment A)
      → SameTerms p (run reports p)
  unfolding run
  run-SameTerms [] p = ground arith
  run-SameTerms ((now, s, ref) ∷ reports) p = ground (
    arith,
    apply_provider_status-SameTerms now s ref p,
    run-SameTerms reports (apply_provider_status now s ref p),
  )

  pub settled_stays :
      (now : ℕ) (s : ProviderStatus) (ref : Option String) (p : Payment A)
      → IsSettled p.status
      → apply_provider_status now s ref p ≡ p
  unfolding apply_provider_status
  settled_stays now s ref p h = ground arith

  -- Whatever the provider reports on a consistent payment, in any order and however often: the
  -- status moves along the edges of the machine, the payment stays consistent, and its identity,
  -- its parties, its amount and its other terms do not change.
  pub run_lem :
      (reports : List (ℕ × ProviderStatus × Option String)) (p : Payment A)
      → IsConsistent p
      → (p.status ⟶* (run reports p).status)
        × IsConsistent (run reports p)
        × SameTerms p (run reports p)
  run_lem reports p c = (run-⟶* reports p, run-IsConsistent reports p c, run-SameTerms reports p)

  -- A failed, cancelled or refunded payment is as it was after any reports.
  pub run-IsSettled :
      (reports : List (ℕ × ProviderStatus × Option String)) (p : Payment A)
      → IsSettled p.status
      → run reports p ≡ p
  unfolding run
  run-IsSettled [] p h = refl
  run-IsSettled ((now, s, ref) ∷ reports) p h =
      rw (settled_stays now s ref p h) (run-IsSettled reports p h)
