-- ===== src/Messaging/Handler.antt =====
-- rust-engine/messaging-engine/src/application/handler.rs: MessagingHandler.
--
-- The adapters of the operators are ports. `World` holds the map of the delivery log, which an attempt
-- enters under its message's id, and how often an adapter and the log were called; `Env` holds the
-- adapters, whose answers depend on the number of the call, the calls of the log that fail, and the
-- clock. The
-- identifier that `Uuid::new_v4()` gives to a one-time password's message is an argument.
pub mod Batch
use ussd_polyglot.Prelude.{
  take_chars, ℕ, zero, suc, ◌+◌, Bool, true, false, not, Option, none, some, List, [], ◌∷◌, ◌++◌,
  map, String, if◌then◌else◌, str_eq, ◌==◌, ◌<>◌,
}
use ussd_polyglot.Prelude.Int.{ℤ, pos}
use ussd_polyglot.Prelude.Dict.{Dict, nat_key, lookup, insert}
use ussd_polyglot.Prelude.Effect.{Effect}
pub use ussd_polyglot.Prelude.Effect.{◌>>=◌, ◌>>◌, pure, raise, lift}
use ussd_polyglot.Prelude.Result.{Result, ok, err}
use ussd_polyglot.Messaging.Domain.{
  Provider, eco_cash, one_money, tele_cash, MessageChannel, sms, whats_app, email, push, Priority,
  normal, high, Message, DeliveryStatus, queued, sent, delivered, read, failed, rejected, expired,
  cancelled, DeliveryAttempt, ProviderReceipt, MessagingError, invalid_phone, provider_unavailable,
  internal, route_provider,
}

pub record Adapter : Type 0 where
  pub provider_name : String
  pub send_sms : ℕ → String → String → String → Result MessagingError ProviderReceipt
  pub get_status : ℕ → String → Result MessagingError DeliveryStatus

pub record World : Type 0 where
  -- the map of the delivery log, by message id
  pub log : Dict ℕ DeliveryAttempt
  pub adapter_calls : ℕ
  pub log_calls : ℕ

pub record Env : Type 0 where
  pub providers : List Adapter
  pub log_fault : ℕ → Option MessagingError
  -- the text of an identifier
  pub id_text : ℕ → String
  pub now : ℕ → ℕ

abbrev pub Io : Type 0 → Type 0
Io = Effect World MessagingError

-- the pairs that `matches!` names
unfoldable pub serves : Provider → String → Bool
serves eco_cash name = str_eq name "ecocash"
serves one_money name = str_eq name "onemoney"
serves tele_cash name = str_eq name "telecash"

unfoldable pub find_adapter : Provider → List Adapter → Option Adapter
find_adapter expected [] = none
find_adapter expected (adapter ∷ adapters) =
    let rest = find_adapter expected adapters in
    if serves expected adapter.provider_name then some adapter else rest

abbrev pub status_number : DeliveryStatus → ℕ
status_number queued = 0
status_number sent = 1
status_number delivered = 2
status_number read = 3
status_number failed = 4
status_number rejected = 5
status_number expired = 6
status_number cancelled = 7

abbrev pub or_eco_cash : Option Provider → Provider
or_eco_cash none = eco_cash
or_eco_cash (some provider) = provider

module _ (env : Env) where
  unfoldable pub select_provider : String → Result MessagingError Adapter
  select_provider recipient = elim (route_provider recipient) [
    | none ↦ err (invalid_phone recipient)
    | some expected ↦ elim (find_adapter expected env.providers) [
      | some adapter ↦ ok adapter
      | none ↦ err (provider_unavailable ("No adapter found for recipient " <> recipient))
    ]
  ]

  unfoldable pub log_attempt : DeliveryAttempt → Io (Unit {0})
  log_attempt attempt w =
      let w' = record w { log_calls = w.log_calls + 1 } in
      elim (env.log_fault w.log_calls) [
        | some e ↦ (err e, w')
        | none ↦ (ok tt, record w' { log = insert attempt.message_id attempt w.log })
      ]

  -- `provider.send_sms(&msg.recipient, &msg.body, "USSD-KERNEL").await`
  unfoldable pub call_adapter : Adapter → Message → Io ProviderReceipt
  call_adapter adapter msg w = (
    adapter.send_sms w.adapter_calls msg.recipient msg.body "USSD-KERNEL",
    record w { adapter_calls = w.adapter_calls + 1 },
  )

  abbrev pub attempt_of :
      Message → MessageChannel → Provider → ProviderReceipt → ℕ → DeliveryAttempt
  attempt_of msg channel provider receipt now = record {
    message_id = msg.id;
    tenant_id = msg.tenant_id;
    recipient = msg.recipient;
    channel = channel;
    body_preview = take_chars 160 msg.body;
    session_id = msg.session_id;
    provider = provider;
    status = sent;
    sent_at = some now;
    delivered_at = none;
    provider_ref = some receipt.provider_ref;
    error_message = none;
    retry_count = pos 0;
  }

  -- what the three ways to send share after the adapter is chosen
  unfoldable pub deliver : Adapter → Message → MessageChannel → Provider → Io DeliveryAttempt
  deliver adapter msg channel provider = do
    receipt ← call_adapter adapter msg
    λ w.
        (let attempt = attempt_of msg channel provider receipt (env.now w.adapter_calls) in
          (log_attempt attempt >> pure attempt) w)

  unfoldable pub send_sms : Message → Io DeliveryAttempt
  send_sms msg = do
    adapter ← lift (select_provider msg.recipient)
    deliver adapter msg msg.channel (or_eco_cash (route_provider msg.recipient))

  unfoldable pub send_whatsapp : Message → Io DeliveryAttempt
  send_whatsapp msg = do
    adapter ← lift (select_provider msg.recipient)
    deliver adapter msg whats_app (or_eco_cash (route_provider msg.recipient))

  unfoldable pub send_email : Message → Io DeliveryAttempt
  send_email msg = elim env.providers [
    | [] ↦ raise (provider_unavailable "No providers configured")
    | adapter ∷ adapters ↦ deliver adapter msg email eco_cash
  ]

  unfoldable pub send_otp : ℕ → String → String → Io DeliveryAttempt
  send_otp id recipient code = send_sms (record {
    id = id;
    recipient = recipient;
    body = "Your OTP code is: " <> code;
    channel = sms;
    priority = high;
    tenant_id = 0;
    session_id = none;
  })

  -- the arm `Ok(status)`
  unfoldable pub refresh : DeliveryAttempt → DeliveryStatus → Io DeliveryAttempt
  refresh attempt status w =
      let delivered_at =
        if status_number status == status_number delivered
        then some (env.now w.adapter_calls)
        else attempt.delivered_at in
      let updated = record attempt { status = status; delivered_at = delivered_at } in
      let logged = (log_attempt updated >> pure updated) w in
      if status_number status == status_number attempt.status then (ok attempt, w) else logged

  unfoldable pub get_message_status : ℕ → Io DeliveryAttempt
  get_message_status message_id w = elim (lookup message_id w.log) [
    | none ↦ (err (internal ("Message " <> env.id_text message_id <> " not found")), w)
    | some attempt ↦ elim attempt.provider_ref [
      | none ↦ (ok attempt, w)
      | some ref ↦ elim (select_provider attempt.recipient) [
        | err e ↦ (ok attempt, w)
        | ok adapter ↦
            let w' = record w { adapter_calls = w.adapter_calls + 1 } in
            elim (adapter.get_status w.adapter_calls ref) [
              | err e ↦ (ok attempt, w')
              | ok status ↦ refresh attempt status w'
            ]
      ]
    ]
  ]

  -- `match msg.channel`: nothing where a push is skipped as a success
  unfoldable pub send_by_channel :
      Message → World → Option (Result MessagingError DeliveryAttempt) × World
  send_by_channel msg w = elim msg.channel [
    | sms ↦ (let (r, w') = send_sms msg w in (some r, w'))
    | whats_app ↦ (let (r, w') = send_whatsapp msg w in (some r, w'))
    | email ↦ (let (r, w') = send_email msg w in (some r, w'))
    | push ↦ (none, w)
  ]

pub record BatchResult : Type 0 where
  pub success_count : ℕ
  pub failure_count : ℕ
  pub errors : List (ℕ × MessagingError)

module _ (env : Env) (continue_on_error : Bool) where
  -- the loop over the messages, from number `idx` on
  unfoldable pub batch_from : ℕ → BatchResult → List Message → World → BatchResult × World
  batch_from idx so_far [] w = (so_far, w)
  batch_from idx so_far (msg ∷ messages) w =
      let (result, w') = send_by_channel env msg w in
      let success = record so_far { success_count = so_far.success_count + 1 } in
      elim result [
        | none ↦ batch_from (idx + 1) success messages w'
        | some (ok attempt) ↦ batch_from (idx + 1) success messages w'
        | some (err e) ↦
            let failure = record so_far {
              failure_count = so_far.failure_count + 1;
              errors = so_far.errors ++ (idx, e) ∷ [];
            } in
            elim continue_on_error [
              | true ↦ batch_from (idx + 1) failure messages w'
              | false ↦ (failure, w')
            ]
      ]

  unfoldable pub send_batch : List Message → Io BatchResult
  send_batch messages w =
      let (result, w') =
        batch_from 0 (record { success_count = 0; failure_count = 0; errors = [] }) messages w in
      (ok result, w')
