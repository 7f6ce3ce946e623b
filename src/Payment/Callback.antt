-- ===== src/Payment/Callback.antt =====
-- rust-engine/payment-engine/src/application/callback.rs: the handler that processes a provider's
-- callback.
pub mod Outcome
use ussd_polyglot.Prelude.{
  ℕ, Bool, true, false, not, Option, none, some, List, [], ◌∷◌, String, if◌then◌else◌, Bytes, ◌<>◌,
}
use ussd_polyglot.Prelude.Decimal.{Decimal}
use ussd_polyglot.Prelude.Result.{Result, ok, err}
use ussd_polyglot.Payment.Provider.{ProviderStatus, DomainError, provider_error, not_found}
use ussd_polyglot.Payment.Domain.{PaymentStatus, Payment, status_as_str, apply_provider_status}
use ussd_polyglot.Payment.Store.{JsonField, text, uuid, World, Env, Io, ◌>>=◌, ◌>>◌, pure, raise}
use ussd_polyglot.Payment.Repository.{
  get_payment_by_provider_ref, get_payment_by_id, save_payment, append_outbox,
}

pub record ProcessCallbackCommand : Type 0 where
  pub tenant_id : ℕ
  pub provider_reference : String
  pub payment_id : Option ℕ
  pub status : ProviderStatus
  pub signature : String
  pub raw_payload : Bytes

pub record CallbackResult (A : Type 0) : Type 0 where
  pub payment : Payment A
  pub accepted : Bool
  pub new_status : String

unfoldable pub event_type_of : ProviderStatus → String
event_type_of ProviderStatus.completed = "PaymentCompleted"
event_type_of ProviderStatus.failed = "PaymentFailed"
event_type_of ProviderStatus.cancelled = "PaymentCancelled"
event_type_of ProviderStatus.refunded = "PaymentRefunded"
event_type_of _ = "PaymentStatusUpdated"

module _ (dec : Decimal) (parse_error : String → String) (env : Env dec.Amount) where
  open dec use {Amount}

  abbrev pub missing : ProcessCallbackCommand → DomainError
  missing cmd =
      not_found ("Payment with provider_reference " <> cmd.provider_reference <> " not found")

  -- step 2: by the provider's reference, or else by the payment's identifier if one was given
  unfoldable pub find_payment : ProcessCallbackCommand → Io (Payment Amount)
  find_payment cmd = do
    found ←
        get_payment_by_provider_ref dec parse_error env (some cmd.tenant_id) cmd.provider_reference
    elim found [
      | some p ↦ pure p
      | none ↦ elim cmd.payment_id [
        | none ↦ raise (missing cmd)
        | some pid ↦ do
          by_id ← get_payment_by_id dec parse_error env cmd.tenant_id pid
          elim by_id [ some p ↦ pure p | none ↦ raise (missing cmd) ]
      ]
    ]

  -- the payment after step 3
  unfoldable pub updated : ProcessCallbackCommand → ℕ → Payment Amount → Payment Amount
  updated cmd now p = apply_provider_status now cmd.status (some cmd.provider_reference) p

  -- the object of step 5
  abbrev pub outbox_payload :
      ProcessCallbackCommand → Payment Amount → Payment Amount → List (String × JsonField)
  outbox_payload cmd p p' =
      ("event", text (event_type_of cmd.status))
      ∷ ("payment_id", uuid p'.payment_id)
      ∷ ("previous_status", text (status_as_str p.status))
      ∷ ("new_status", text (status_as_str p'.status))
      ∷ ("provider_reference", text cmd.provider_reference)
      ∷ []

  -- steps 3 to 5
  unfoldable pub record_status :
      ProcessCallbackCommand → Payment Amount → Io (CallbackResult Amount)
  record_status cmd p w =
      let p' = updated cmd (env.now w.statements) p in
      (do
        save_payment dec parse_error env p'
        append_outbox dec parse_error env (event_type_of cmd.status) p'.payment_id
            (outbox_payload cmd p p') (cmd.provider_reference <> "-" <> event_type_of cmd.status)
            p'.tenant_id
        pure (record { payment = p'; accepted = true; new_status = status_as_str p'.status }))
        w

  unfoldable pub handle : ProcessCallbackCommand → Io (CallbackResult Amount)
  handle cmd =
      if not (env.verify_callback_signature cmd.raw_payload cmd.signature)
      then raise (provider_error "Invalid callback signature")
      else (find_payment cmd >>= record_status cmd)
