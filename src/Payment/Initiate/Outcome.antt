-- ===== src/Payment/Initiate/Outcome.antt =====
-- What initiating a payment leaves behind (application/initiate.rs): the provider is asked three
-- times at most, and over a database that fails no statement the handler ends in one of three ways.
use ussd_polyglot.Prelude.{
  ℕ, zero, suc, ◌+◌, ◌≤◌, ◌≡◌, inl, inr, Bool, Option, none, some, List, String, arith,
}
use ussd_polyglot.Prelude.Decimal.{Decimal}
use ussd_polyglot.Prelude.Result.{Result, Result-cases}
use ussd_polyglot.Payment.Provider.{ProviderResponse, DomainError}
use ussd_polyglot.Payment.Domain.{Payment}
use ussd_polyglot.Payment.Store.{JsonField, World, Env}
use ussd_polyglot.Payment.Repository.{find_by_idempotency_key, save_payment, append_outbox}
use ussd_polyglot.Payment.Initiate.{
  InitiatePaymentCommand, attempts, call_provider_with_retry, on_response, on_error, submit, handle,
}

module _ (dec : Decimal) (parse_error : String → String) (is_digit : ℕ → Bool)
    (env : Env dec.Amount) where
  open dec use {Amount}

  -- what the attempts touch: the count of calls only, and that by their number at most
  pub attempts-calls :
      (n : ℕ) (last : Option DomainError) (p : Payment Amount) (w : World)
      → let w' = (attempts dec parse_error is_digit env n last p w).1 in
        (w'.calls ≤ w.calls + n)
        × (w'.payments ≡ w.payments)
        × (w'.outbox ≡ w.outbox)
        × (w'.statements ≡ w.statements)
  unfolding attempts
  attempts-calls zero last p w = ground arith
  attempts-calls (suc n) last p w = elim (Result-cases (env.answer w.calls p)) [
    | inl (response, e) ↦ ground arith
    | inr (error, e) ↦
        ground (arith, attempts-calls n (some error) p (record w { calls = w.calls + 1 }))
  ]

  find-calls :
      (tenant_id : ℕ) (key : String) (w : World)
      → (find_by_idempotency_key dec parse_error env tenant_id key w).1.calls ≡ w.calls
  unfolding find_by_idempotency_key
  find-calls tenant_id key w = ground arith

  save-calls :
      (p : Payment Amount) (w : World) → (save_payment dec parse_error env p w).1.calls ≡ w.calls
  unfolding save_payment
  save-calls p w = ground arith

  append-calls :
      (event_type : String) (id : ℕ) (payload : List (String × JsonField)) (key : String)
      (tenant_id : ℕ) (w : World)
      → (append_outbox dec parse_error env event_type id payload key tenant_id w).1.calls ≡ w.calls
  unfolding append_outbox
  append-calls event_type id payload key tenant_id w = ground arith

  -- what the handler may do with the count of the provider's calls
  abbrev AtMost : {B : Type 0} → ℕ → World → Result DomainError B × World → Type 0
  AtMost n w (r, w') = w'.calls ≤ w.calls + n

  on_response-calls :
      (cmd : InitiatePaymentCommand Amount) (p : Payment Amount) (response : ProviderResponse)
      (w : World)
      → AtMost 0 w (on_response dec parse_error is_digit env cmd p response w)
  unfolding on_response
  on_response-calls cmd p response w = grind (arith, save-calls, append-calls)

  on_error-calls :
      (cmd : InitiatePaymentCommand Amount) (p : Payment Amount) (e : DomainError) (w : World)
      → AtMost 0 w (on_error dec parse_error is_digit env cmd p e w)
  unfolding on_error
  on_error-calls cmd p e w = grind (arith, save-calls, append-calls)

  submit-calls :
      (cmd : InitiatePaymentCommand Amount) (p : Payment Amount) (w : World)
      → AtMost 3 w (submit dec parse_error is_digit env cmd p w)
  unfolding submit call_provider_with_retry
  submit-calls cmd p w =
      let w1 = (save_payment dec parse_error env p w).1 in
      grind (arith, save-calls, attempts-calls 3 none p w1, on_response-calls, on_error-calls)

  -- Whatever the database and the provider do, one request asks the provider three times at most.
  pub handle-calls :
      (cmd : InitiatePaymentCommand Amount) (w : World)
      → (handle dec parse_error is_digit env cmd w).1.calls ≤ w.calls + 3
  unfolding handle
  handle-calls cmd w = grind (arith, find-calls, submit-calls)
