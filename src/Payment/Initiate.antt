-- ===== src/Payment/Initiate.antt =====
-- rust-engine/payment-engine/src/application/initiate.rs: the handler that initiates a payment.
--
-- The waits between the attempts change nothing of the state and are left out. The clock is read
-- through `now` at the number of the statements run so far; `payment.mark_failed` and `Payment::new`
-- read it.
pub mod Outcome
pub mod Endings
use ussd_polyglot.Prelude.{ℕ, zero, suc, ◌+◌, Bool, Option, none, some, List, [], ◌∷◌, String, ◌<>◌}
use ussd_polyglot.Prelude.Decimal.{Decimal}
use ussd_polyglot.Prelude.Result.{Result, ok, err}
use ussd_polyglot.Payment.Provider.{
  MobileMoneyProvider, ProviderResponse, DomainError, idempotency_violation, provider_error,
  error_text,
}
use ussd_polyglot.Payment.Domain.{Payment, status_as_str, new, mark_processing, mark_failed}
use ussd_polyglot.Payment.Store.{
  JsonField, text, uuid, World, Env, Io, ◌>>=◌, ◌>>◌, pure, raise, lift, ignore,
}
use ussd_polyglot.Payment.Repository.{find_by_idempotency_key, save_payment, append_outbox}

pub record InitiatePaymentCommand (A : Type 0) : Type 0 where
  pub payment_id : ℕ
  pub tenant_id : ℕ
  pub idempotency_key : String
  pub provider : MobileMoneyProvider
  pub phone_number : String
  pub amount : A
  pub currency : String
  pub reference : String
  pub description : String

pub record InitiateResult (A : Type 0) : Type 0 where
  pub payment : Payment A
  pub provider_reference : Option String

module _ (dec : Decimal) (parse_error : String → String) (is_digit : ℕ → Bool)
    (env : Env dec.Amount) where
  open dec use {Amount}

  -- `self.provider.initiate(payment)`
  unfoldable pub call_provider :
      Payment Amount → World → Result DomainError ProviderResponse × World
  call_provider p w = (env.answer w.calls p, record w { calls = w.calls + 1 })

  -- `for attempt in 0..max_attempts`, with the attempts left and the last error
  unfoldable pub attempts : ℕ → Option DomainError → Payment Amount → Io ProviderResponse
  unfolding call_provider
  attempts zero last_error p w = (
    err (elim last_error [
      | some e ↦ e
      | none ↦ provider_error "Unknown provider error after retries"
    ]),
    w,
  )
  attempts (suc left) last_error p w =
      let (r, w') = call_provider p w in
      elim r [ ok response ↦ (ok response, w') | err e ↦ attempts left (some e) p w' ]

  unfoldable pub call_provider_with_retry : Payment Amount → Io ProviderResponse
  call_provider_with_retry = attempts 3 none

  -- the arm `Ok(response)`
  unfoldable pub on_response :
      InitiatePaymentCommand Amount → Payment Amount → ProviderResponse → Io (InitiateResult Amount)
  on_response cmd payment response = do
    lift (mark_processing payment).1
    let payment' = record (mark_processing payment).0 {
      provider_reference = some response.provider_reference;
    }
    save_payment dec parse_error env payment'
    append_outbox dec parse_error env "PaymentInitiated" payment'.payment_id
        (("event", text "PaymentInitiated")
          ∷ ("payment_id", uuid payment'.payment_id)
          ∷ ("provider_reference", text response.provider_reference)
          ∷ ("status", text (status_as_str payment'.status))
          ∷ [])
        (cmd.idempotency_key <> "-initiated") payment'.tenant_id
    pure (record { payment = payment'; provider_reference = some response.provider_reference })

  -- the arm `Err(e)`
  unfoldable pub on_error :
      InitiatePaymentCommand Amount → Payment Amount → DomainError → Io (InitiateResult Amount)
  on_error cmd payment e w =
      let payment' = (mark_failed (env.now w.statements) (error_text e) payment).0 in
      (do
        save_payment dec parse_error env payment'
        ignore (
            append_outbox dec parse_error env "PaymentFailed" payment'.payment_id
              (("event", text "PaymentFailed")
                ∷ ("payment_id", uuid payment'.payment_id)
                ∷ ("reason", text (error_text e))
                ∷ ("status", text (status_as_str payment'.status))
                ∷ [])
              (cmd.idempotency_key <> "-failed") payment'.tenant_id)
        raise e)
        w

  -- steps 3 and 4, once the payment is created
  unfoldable pub submit :
      InitiatePaymentCommand Amount → Payment Amount → Io (InitiateResult Amount)
  submit cmd payment = do
    save_payment dec parse_error env payment
    λ w.
        (let (r, w') = call_provider_with_retry payment w in
          elim r [
            | ok response ↦ on_response cmd payment response w'
            | err e ↦ on_error cmd payment e w'
          ])

  unfoldable pub handle : InitiatePaymentCommand Amount → Io (InitiateResult Amount)
  handle cmd = do
    existing ← find_by_idempotency_key dec parse_error env cmd.tenant_id cmd.idempotency_key
    elim existing [
      | some p ↦ raise idempotency_violation
      | none ↦ λ w.
          (lift (
                new dec is_digit (env.now w.statements) cmd.payment_id cmd.tenant_id
                  cmd.idempotency_key cmd.provider cmd.phone_number cmd.amount cmd.currency
                  cmd.reference cmd.description)
              >>= submit cmd)
            w
    ]
