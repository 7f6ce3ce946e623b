-- ===== src/Tests/PaymentGrpc.antt =====
-- The payments' table after two saves, a provider that answers at its third call, and a payment that
-- is initiated and asked for over the wire.
use ussd_polyglot.Prelude.{◌≡◌, refl, none, some, [], ◌∷◌, str_eq, leb, if◌then◌else◌}
use ussd_polyglot.Prelude.Int.{ℤ, pos}
use ussd_polyglot.Prelude.Result.{ok, err}
use ussd_polyglot.Payment.Provider.{ProviderStatus, provider_error}
use ussd_polyglot.Payment.Domain.{new, is_blank, matches_phone, mark_processing}
use ussd_polyglot.Payment.Store.{World, Env, find_row, row_of, transpose_row}
use ussd_polyglot.Payment.Repository.{
  find_by_idempotency_key, save_payment, append_outbox, get_payment_by_id,
}
use ussd_polyglot.Payment.Repository.Refinement.{
  save_all, replay, table_of, get_payment_by_id-replay,
}
use ussd_polyglot.Payment.Initiate.{submit, call_provider_with_retry, attempts, on_response}
use ussd_polyglot.Payment.Grpc.{
  Crates, InitiatePaymentRequest, InitiatePaymentResponse, GetPaymentStatusResponse, command_of,
  initiate_payment, get_payment_status,
}
use ussd_polyglot.Payment.Grpc.ReadBack.{get_payment_status-initiate_payment}
use ussd_polyglot.Tests.Common.{wholes, wholes-ParsesBack, is_ascii_digit}
use ussd_polyglot.Tests.Payment.{env, fresh, lost, parse_error, empty_world, command}

-- the failed payment is saved, then saved again as it was created
get_payment_by_id-replay_example :
    (w' : World) × (w'' : World) × (save_all wholes parse_error env (lost ∷ fresh ∷ []) empty_world
      ≡ (ok tt, w'))
    × (get_payment_by_id wholes parse_error env 5 9 w' ≡ (
      transpose_row wholes parse_error (
          replay
            (table_of empty_world.payments)
            (row_of wholes parse_error lost ∷ row_of wholes parse_error fresh ∷ [])
            9),
      w'',
    ))
get_payment_by_id-replay_example =
    get_payment_by_id-replay wholes parse_error env 5 9 (lost ∷ fresh ∷ []) empty_world (λ n. refl)
      (λ row. refl)

-- a provider that answers at the third call
abbrev slow_env : Env ℤ
slow_env = record env {
  answer = λ n p.
      if leb 2 n
      then ok
          (record { provider_reference = "EC-9"; status = ProviderStatus.pending; message = none })
      else err (provider_error "timeout");
}

abbrev toy_crates : Crates ℤ
toy_crates = record {
  parse = λ s. if str_eq s "nine" then some 9 else if str_eq s "five" then some 5 else none;
  uuid_text = λ n. "id";
  i32_text = λ z. "number";
  new_id = 1;
  from_cents = λ z. z;
  to_cents = λ z. z;
}

abbrev request : InitiatePaymentRequest
request = record {
  tenant_id = "five";
  payment_id = "nine";
  idempotency_key = some "k1";
  provider = pos 1;
  phone_number = "2637712345678";
  amount = some (record { currency_code = "USD"; amount_cents = pos 25 });
  reference = "INV-1";
  description = "airtime";
}

abbrev answered : InitiatePaymentResponse
answered = record {
  payment_id = "id";
  status = pos 2;
  provider_reference = "EC-9";
  initiated_at = 12;
  estimated_completion_seconds = pos 30;
  message = "Payment initiated";
  total_amount = record { currency_code = "USD"; amount_cents = pos 25 };
}

abbrev after_initiation : World
after_initiation =
    (initiate_payment wholes toy_crates parse_error is_ascii_digit slow_env request "trace"
      empty_world).1

accepts :
    initiate_payment wholes toy_crates parse_error is_ascii_digit slow_env request "trace"
      empty_world
    ≡ (ok answered, after_initiation)
unfolding initiate_payment find_by_idempotency_key transpose_row find_row new is_blank matches_phone
    submit save_payment call_provider_with_retry attempts on_response mark_processing append_outbox
accepts = refl

get_payment_status-initiate_payment_example :
    (s : GetPaymentStatusResponse) × (w'' : World) × (get_payment_status wholes toy_crates
        parse_error is_ascii_digit slow_env "five" "nine" "trace" after_initiation
      ≡ (ok s, w''))
    × (pos 2 ≡ pos 2)
    × ((s.payment_id ≡ "id")
        × (s.status ≡ pos 2)
        × (s.provider_reference ≡ "EC-9")
        × (s.amount ≡ some (record { currency_code = "USD"; amount_cents = pos 25 }))
        × (s.initiated_at ≡ some 12)
        × (s.error ≡ none))
unfolding command_of find_row
get_payment_status-initiate_payment_example =
    get_payment_status-initiate_payment wholes parse_error is_ascii_digit slow_env toy_crates
      (λ n. refl) request "trace" command answered empty_world after_initiation wholes-ParsesBack
      (λ t row. refl) refl refl refl accepts
