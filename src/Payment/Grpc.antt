-- ===== src/Payment/Grpc.antt =====
-- rust-engine/payment-engine/src/ports/grpc.rs: the methods that are implemented, over the handlers
-- and the repository, with the numbers that protos/v1/payment/payment.proto and
-- protos/v1/common/common.proto give the enumerations.
--
-- `Crates` holds what the libraries give: the reading and writing of UUIDs and numbers, a new UUID,
-- and the conversions between cents and decimal amounts. Instants are answered as they are. The
-- metrics and spans are left out.
pub mod ReadBack
use ussd_polyglot.Prelude.{
  ℕ, ◌+◌, ◌==◌, Bool, true, false, Option, none, some, List, [], ◌∷◌, String, if◌then◌else◌, str_eq,
  Bytes, ◌<>◌,
}
use ussd_polyglot.Prelude.Int.{ℤ, pos, eq_ℤ}
use ussd_polyglot.Prelude.Decimal.{Decimal}
use ussd_polyglot.Prelude.Effect.{Effect}
use ussd_polyglot.Prelude.Result.{Result, ok, err}
use ussd_polyglot.Payment.Provider.{
  MobileMoneyProvider, eco_cash, one_money, telecash, ProviderStatus, DomainError,
  invalid_phone_number, invalid_amount, invalid_reference, provider_error, idempotency_violation,
  not_found, invalid_status_transition, database_error, error_text,
}
use ussd_polyglot.Payment.Domain.{
  PaymentStatus, pending, processing, completed, failed, cancelled, refunded, Payment,
}
use ussd_polyglot.Payment.Store.{World, Env, Io, find_row, transpose_row}
use ussd_polyglot.Payment.Repository.{
  execute, select_payment, get_payment_by_id, get_payment_by_provider_ref,
}
use ussd_polyglot.Payment.Initiate.{InitiatePaymentCommand, InitiateResult}
use ussd_polyglot.Payment.Initiate.{handle as initiate}
use ussd_polyglot.Payment.Callback.{ProcessCallbackCommand, CallbackResult}
use ussd_polyglot.Payment.Callback.{handle as process}

-- the codes of `tonic::Status` that the methods answer, by their numbers
abbrev pub Status : Type 0
Status = ℕ × String

unfoldable pub invalid_argument : String → Status
invalid_argument message = (3, message)

-- `common.v1.Error` without the copies of the trace identifier
pub record ProtoError : Type 0 where
  pub code : ℤ
  pub message : String
  pub trace_id : String
  pub grpc_code : ℤ

-- the code of an error for the caller and for the structure that goes with a response
unfoldable pub codes_of : DomainError → ℕ × ℕ
codes_of (invalid_phone_number s) = (3, 1)
codes_of (invalid_amount s) = (3, 1)
codes_of (invalid_reference s) = (3, 1)
codes_of (provider_error s) = (9, 18)
codes_of idempotency_violation = (6, 12)
codes_of (not_found s) = (5, 2)
codes_of (invalid_status_transition from to) = (9, 6)
codes_of (database_error s) = (13, 8)

unfoldable pub map_domain_error : DomainError → String → Status × ProtoError
unfolding codes_of error_text
map_domain_error e trace_id = (
  ((codes_of e).0, error_text e),
  record {
    code = pos (codes_of e).1;
    message = error_text e;
    trace_id = trace_id;
    grpc_code = pos (codes_of e).0;
  },
)

unfoldable pub map_domain_status : PaymentStatus → ℤ
map_domain_status pending = pos 1
map_domain_status processing = pos 2
map_domain_status completed = pos 4
map_domain_status failed = pos 5
map_domain_status cancelled = pos 6
map_domain_status refunded = pos 7

pub record Money : Type 0 where
  pub currency_code : String
  pub amount_cents : ℤ

pub record InitiatePaymentRequest : Type 0 where
  pub tenant_id : String
  pub payment_id : String
  pub idempotency_key : Option String
  pub provider : ℤ
  pub phone_number : String
  pub amount : Option Money
  pub reference : String
  pub description : String

pub record InitiatePaymentResponse : Type 0 where
  pub payment_id : String
  pub status : ℤ
  pub provider_reference : String
  pub initiated_at : ℕ
  pub estimated_completion_seconds : ℤ
  pub message : String
  pub total_amount : Money

-- `error` is none in the answer of a payment; the other fields of an answer with an error but
-- `payment_id` are the defaults
pub record GetPaymentStatusResponse : Type 0 where
  pub payment_id : String
  pub status : ℤ
  pub amount : Option Money
  pub provider_reference : String
  pub initiated_at : Option ℕ
  pub completed_at : Option ℕ
  pub failure_reason : String
  pub error : Option ProtoError

pub record ProcessCallbackRequest : Type 0 where
  pub payment_id : String
  pub provider_reference : String
  pub status : ℤ
  pub signature : String
  pub raw_payload : Bytes

pub record ProcessCallbackResponse : Type 0 where
  pub accepted : Bool
  pub message : String
  pub payment_id : String
  pub new_status : ℤ
  pub error : Option ProtoError

pub record Crates (A : Type 0) : Type 0 where
  pub parse : String → Option ℕ
  pub uuid_text : ℕ → String
  pub i32_text : ℤ → String
  pub new_id : ℕ
  -- `Decimal::new(cents, 2)`, and `(amount * 100).to_i64().unwrap_or(0)`
  pub from_cents : ℤ → A
  pub to_cents : A → ℤ

unfoldable pub text_or_empty : Option String → String
text_or_empty none = ""
text_or_empty (some s) = s

module _ (dec : Decimal) (crates : Crates dec.Amount) where
  open dec use {Amount}
  open crates use {parse, uuid_text, i32_text, new_id, from_cents, to_cents}

  unfoldable pub map_proto_provider : ℤ → Result Status MobileMoneyProvider
  unfolding invalid_argument
  map_proto_provider provider =
      if eq_ℤ provider (pos 1)
      then ok eco_cash
      else if eq_ℤ provider (pos 2)
      then ok one_money
      else if eq_ℤ provider (pos 3)
      then ok telecash
      else err (invalid_argument ("Unsupported provider: " <> i32_text provider))

  unfoldable pub map_callback_status : ℤ → Result Status ProviderStatus
  unfolding invalid_argument
  map_callback_status n =
      if eq_ℤ n (pos 1)
      then ok ProviderStatus.completed
      else if eq_ℤ n (pos 2)
      then ok ProviderStatus.failed
      else if eq_ℤ n (pos 3)
      then ok ProviderStatus.failed
      else if eq_ℤ n (pos 4)
      then ok ProviderStatus.cancelled
      else if eq_ℤ n (pos 5)
      then ok ProviderStatus.pending
      else err (invalid_argument ("Unknown callback status: " <> i32_text n))

  unfoldable pub map_proto_money : Amount → String → Money
  map_proto_money amount currency = record {
    currency_code = currency;
    amount_cents = to_cents amount;
  }

  unfoldable pub parse_uuid : String → Result Status ℕ
  unfolding invalid_argument
  parse_uuid s = elim (parse s) [
    | some id ↦ ok id
    | none ↦ err (invalid_argument ("Invalid UUID: " <> s))
  ]

  unfoldable pub proto_money_to_decimal : Option Money → Result Status Amount
  unfolding invalid_argument
  proto_money_to_decimal none = err (invalid_argument "Amount is required")
  proto_money_to_decimal (some m) = ok (from_cents m.amount_cents)

  unfoldable pub build_initiate_response : InitiateResult Amount → InitiatePaymentResponse
  unfolding map_domain_status map_proto_money text_or_empty
  build_initiate_response result = record {
    payment_id = uuid_text result.payment.payment_id;
    status = map_domain_status result.payment.status;
    provider_reference = text_or_empty result.provider_reference;
    initiated_at = result.payment.initiated_at;
    estimated_completion_seconds = pos 30;
    message = "Payment initiated";
    total_amount = map_proto_money result.payment.amount result.payment.currency;
  }

  -- `parse_uuid(&req.payment_id).unwrap_or_else(|_| Uuid::new_v4())`
  unfoldable pub payment_id_of : InitiatePaymentRequest → ℕ
  payment_id_of req = elim (parse req.payment_id) [ some id ↦ id | none ↦ new_id ]

  -- the command of a request: its key is the payment's identifier where it names none, and its
  -- currency is the amount's
  unfoldable pub command_of : InitiatePaymentRequest → Result Status (InitiatePaymentCommand Amount)
  unfolding parse_uuid payment_id_of map_proto_provider proto_money_to_decimal
  command_of req = elim (parse_uuid req.tenant_id) [
    | err e ↦ err e
    | ok tenant_id ↦ elim (map_proto_provider req.provider) [
      | err e ↦ err e
      | ok provider ↦ elim (proto_money_to_decimal req.amount) [
        | err e ↦ err e
        | ok amount ↦ ok (record {
          payment_id = payment_id_of req;
          tenant_id = tenant_id;
          idempotency_key = elim req.idempotency_key [
            | some k ↦ k
            | none ↦ uuid_text (payment_id_of req)
          ];
          provider = provider;
          phone_number = req.phone_number;
          amount = amount;
          currency = elim req.amount [ some m ↦ m.currency_code | none ↦ "USD" ];
          reference = req.reference;
          description = req.description;
        })
      ]
    ]
  ]

  unfoldable pub status_response : Payment Amount → GetPaymentStatusResponse
  unfolding map_domain_status map_proto_money text_or_empty
  status_response p = record {
    payment_id = uuid_text p.payment_id;
    status = map_domain_status p.status;
    amount = some (map_proto_money p.amount p.currency);
    provider_reference = text_or_empty p.provider_reference;
    initiated_at = some p.initiated_at;
    completed_at = p.completed_at;
    failure_reason = text_or_empty p.failure_reason;
    error = none;
  }

  unfoldable pub status_refused : ℕ → DomainError → String → GetPaymentStatusResponse
  unfolding map_domain_error
  status_refused payment_id e trace_id = record {
    payment_id = uuid_text payment_id;
    status = pos 0;
    amount = none;
    provider_reference = "";
    initiated_at = none;
    completed_at = none;
    failure_reason = "";
    error = some (map_domain_error e trace_id).1;
  }

  unfoldable pub callback_refused : String → String → ProtoError → ProcessCallbackResponse
  callback_refused payment_id message e = record {
    accepted = false;
    message = message;
    payment_id = payment_id;
    new_status = pos 0;
    error = some e;
  }

  -- the error of a payment that is not found
  unfoldable pub not_found_error : String → ProtoError
  not_found_error trace_id = record {
    code = pos 2;
    message = "Payment not found";
    trace_id = trace_id;
    grpc_code = pos 5;
  }

  module _ (parse_error : String → String) (is_digit : ℕ → Bool) (env : Env Amount) where
    unfoldable pub initiate_payment :
        InitiatePaymentRequest → String → World → Result Status InitiatePaymentResponse × World
    unfolding command_of initiate build_initiate_response map_domain_error
    initiate_payment req trace_id w = elim (command_of req) [
      | err e ↦ (err e, w)
      | ok cmd ↦
          let (r, w') = initiate dec parse_error is_digit env cmd w in
          (
            elim r [
              | ok result ↦ ok (build_initiate_response result)
              | err e ↦ err (map_domain_error e trace_id).0
            ],
            w',
          )
    ]

    unfoldable pub get_payment_status :
        String → String → String → World → Result Status GetPaymentStatusResponse × World
    unfolding parse_uuid get_payment_by_id status_response status_refused
    get_payment_status tenant payment trace_id w = elim (parse_uuid tenant) [
      | err e ↦ (err e, w)
      | ok tenant_id ↦ elim (parse_uuid payment) [
        | err e ↦ (err e, w)
        | ok payment_id ↦
            let (r, w') = get_payment_by_id dec parse_error env tenant_id payment_id w in
            (
              ok (elim r [
                | ok found ↦ elim found [
                  | some p ↦ status_response p
                  | none ↦ status_refused payment_id (not_found payment) trace_id
                ]
                | err e ↦ status_refused payment_id e trace_id
              ]),
              w',
            )
      ]
    ]

    -- `get_payment_by_id_untenantized`
    unfoldable pub get_payment_by_id_untenantized : ℕ → Io (Option (Payment Amount))
    unfolding select_payment
    get_payment_by_id_untenantized payment_id =
        select_payment dec parse_error env none (λ row. row.payment_id == payment_id)

    -- the payment of a callback: by the provider's reference, or else by the identifier; or the
    -- response that refuses the callback
    unfoldable pub payment_of_callback :
        ProcessCallbackRequest
        → Option ℕ
        → String
        → World
        → Result ProcessCallbackResponse (Payment Amount) × World
    unfolding get_payment_by_provider_ref get_payment_by_id_untenantized callback_refused
        not_found_error map_domain_error
    payment_of_callback req payment_id trace_id w =
        let (r, w') =
          get_payment_by_provider_ref dec parse_error env none req.provider_reference w in
        elim r [
          | err e ↦ (
            err (
                callback_refused (elim payment_id [ some id ↦ uuid_text id | none ↦ "" ])
                  "Database error" (map_domain_error e trace_id).1),
            w',
          )
          | ok found ↦ elim found [
            | some p ↦ (ok p, w')
            | none ↦ elim payment_id [
              | none ↦
                  (err (callback_refused "" "Payment not found" (not_found_error trace_id)), w')
              | some id ↦
                  let (r', w'') = get_payment_by_id_untenantized id w' in
                  (
                    elim r' [
                      | err e ↦ err (
                          callback_refused (uuid_text id) "Payment not found"
                            (not_found_error trace_id))
                      | ok found' ↦ elim found' [
                        | some p ↦ ok p
                        | none ↦ err (
                            callback_refused (uuid_text id) "Payment not found"
                              (not_found_error trace_id))
                      ]
                    ],
                    w'',
                  )
            ]
          ]
        ]

    unfoldable pub callback_command :
        ProcessCallbackRequest → ProviderStatus → Payment Amount → ProcessCallbackCommand
    callback_command req provider_status p = record {
      tenant_id = p.tenant_id;
      provider_reference = req.provider_reference;
      payment_id = some p.payment_id;
      status = provider_status;
      signature = req.signature;
      raw_payload = req.raw_payload;
    }

    unfoldable pub callback_response :
        Payment Amount
        → String
        → Result DomainError (CallbackResult Amount)
        → ProcessCallbackResponse
    unfolding map_domain_status callback_refused map_domain_error
    callback_response p trace_id (ok result) = record {
      accepted = result.accepted;
      message = "Callback processed";
      payment_id = uuid_text result.payment.payment_id;
      new_status = map_domain_status result.payment.status;
      error = none;
    }
    callback_response p trace_id (err e) =
        callback_refused (uuid_text p.payment_id) "Callback processing failed"
          (map_domain_error e trace_id).1

    -- `if req.payment_id.is_empty() { None } else { Some(parse_uuid(&req.payment_id)?) }`
    unfoldable pub optional_id : String → Result Status (Option ℕ)
    unfolding parse_uuid
    optional_id s =
        if str_eq s ""
        then ok none
        else elim (parse_uuid s) [ ok id ↦ ok (some id) | err e ↦ err e ]

    unfoldable pub process_callback :
        ProcessCallbackRequest → String → World → Result Status ProcessCallbackResponse × World
    unfolding optional_id map_callback_status payment_of_callback callback_command callback_response
        process
    process_callback req trace_id w = elim (optional_id req.payment_id) [
      | err e ↦ (err e, w)
      | ok payment_id ↦ elim (map_callback_status req.status) [
        | err e ↦ (err e, w)
        | ok provider_status ↦
            let (r, w') = payment_of_callback req payment_id trace_id w in
            elim r [
              | err response ↦ (ok response, w')
              | ok p ↦
                  let (r', w'') =
                    process dec parse_error env (callback_command req provider_status p) w' in
                  (ok (callback_response p trace_id r'), w'')
            ]
      ]
    ]
