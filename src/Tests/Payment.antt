-- ===== src/Tests/Payment.antt =====
-- A payment's life: validated, stored, asked of the provider, and settled by callbacks.
use ussd_polyglot.Prelude.{
  ℕ, ◌+◌, ◌≤◌, ◌≡◌, refl, ◌↔◌, inl, true, Option, none, some, List, [], ◌∷◌, String, arith,
}
use ussd_polyglot.Prelude.Int.{ℤ, pos}
use ussd_polyglot.Prelude.Result.{ok, err, is_ok}
use ussd_polyglot.Payment.Provider.{ProviderStatus, eco_cash, provider_error}
use ussd_polyglot.Payment.Domain.{Payment, pending, failed, is_open, status_as_str, new}
use ussd_polyglot.Payment.Domain.Lifecycle.{
  ◌⟶*◌, IsConsistent, SameTerms, run, run_lem, run-IsSettled,
}
use ussd_polyglot.Payment.Domain.Validation.{IsPayable, new-IsPayable}
use ussd_polyglot.Payment.Store.{
  World, Env, PaymentRow, row_of, payment_of, transpose_row, find_row, status_of, provider_of,
  upsert,
}
use ussd_polyglot.Payment.Store.RoundTrip.{payment_of-row_of}
use ussd_polyglot.Payment.Repository.{get_payment_by_provider_ref}
use ussd_polyglot.Payment.Initiate.{InitiatePaymentCommand, handle as initiate}
use ussd_polyglot.Payment.Initiate.Outcome.{handle-calls}
use ussd_polyglot.Payment.Initiate.Endings.{Initiated, handle-Initiated}
use ussd_polyglot.Payment.Callback.{
  ProcessCallbackCommand, find_payment, handle as process_callback,
}
use ussd_polyglot.Payment.Callback.Outcome.{Ended, announced, handle-Ended, handle_settled}
use ussd_polyglot.Tests.Common.{wholes, wholes-ParsesBack, is_ascii_digit}

abbrev pub fresh : Payment ℤ
fresh = record {
  payment_id = 9;
  tenant_id = 5;
  idempotency_key = "k1";
  provider = eco_cash;
  phone_number = "2637712345678";
  amount = pos 25;
  currency = "USD";
  reference = "INV-1";
  description = "airtime";
  status = pending;
  provider_reference = none;
  failure_reason = none;
  initiated_at = 3;
  completed_at = none;
}

abbrev pub lost : Payment ℤ
lost = record fresh {
  status = failed;
  provider_reference = some "EC-1";
  failure_reason = some "Provider reported failure";
  completed_at = some 8;
}

fresh-IsConsistent : IsConsistent fresh
unfolding is_open
fresh-IsConsistent = ground arith

abbrev reports : List (ℕ × ProviderStatus × Option String)
reports =
    (4, ProviderStatus.processing, none)
    ∷ (5, ProviderStatus.completed, some "EC-1")
    ∷ (6, ProviderStatus.failed, none)
    ∷ (7, ProviderStatus.refunded, none)
    ∷ []

run_lem_example :
    (fresh.status ⟶* (run reports fresh).status)
    × IsConsistent (run reports fresh)
    × SameTerms fresh (run reports fresh)
run_lem_example = run_lem reports fresh fresh-IsConsistent

run-IsSettled_example : run reports lost ≡ lost
run-IsSettled_example = run-IsSettled reports lost (inl refl)

new-IsPayable_example :
    (is_ok (
        new wholes is_ascii_digit 3 9 5 "k1" eco_cash "2637712345678"
          (pos 25)
          "USD"
          "INV-1"
          "airtime")
      ≡ true)
    ↔ IsPayable wholes is_ascii_digit "2637712345678" (pos 25) "INV-1"
new-IsPayable_example =
    new-IsPayable wholes is_ascii_digit 3 9 5 "k1" eco_cash "2637712345678" (pos 25) "USD" "INV-1"
      "airtime"

abbrev pub parse_error : String → String
parse_error s = "invalid digit"

payment_of-row_of_example : payment_of wholes parse_error (row_of wholes parse_error lost) ≡ ok lost
payment_of-row_of_example = payment_of-row_of wholes parse_error lost wholes-ParsesBack

-- a database that fails no statement, and a provider that is never there
abbrev pub env : Env ℤ
env = record {
  fault = λ n. none;
  visible = λ tenant_id row. true;
  topic = some 77;
  now = λ n. 10 + n;
  answer = λ n p. err (provider_error "timeout");
  verify_callback_signature = λ payload signature. true;
}

abbrev stored_row : PaymentRow
stored_row = record {
  payment_id = 9;
  tenant_id = 5;
  idempotency_key = "k1";
  provider = "ecocash";
  phone_number = "2637712345678";
  amount = "iii";
  currency = "USD";
  reference = "INV-1";
  description = "airtime";
  status = "failed";
  provider_reference = some "EC-1";
  failure_reason = some "Provider reported failure";
  initiated_at = 3;
  completed_at = some 8;
}

abbrev pub empty_world : World
empty_world = record { payments = []; outbox = []; statements = 0; calls = 0 }

abbrev one_payment : World
one_payment = record empty_world { payments = stored_row ∷ [] }

abbrev pub command : InitiatePaymentCommand ℤ
command = record {
  payment_id = 9;
  tenant_id = 5;
  idempotency_key = "k1";
  provider = eco_cash;
  phone_number = "2637712345678";
  amount = pos 25;
  currency = "USD";
  reference = "INV-1";
  description = "airtime";
}

handle-calls_example :
    (initiate wholes parse_error is_ascii_digit env command empty_world).1.calls ≤ 3
handle-calls_example = handle-calls wholes parse_error is_ascii_digit env command empty_world

abbrev callback : ProcessCallbackCommand
callback = record {
  tenant_id = 5;
  provider_reference = "EC-1";
  payment_id = none;
  status = ProviderStatus.completed;
  signature = "sig";
  raw_payload = [];
}

handle-Ended_example :
    Ended wholes parse_error env
      (λ n. refl)
      callback
      one_payment
      (process_callback wholes parse_error env callback one_payment)
handle-Ended_example = handle-Ended wholes parse_error env (λ n. refl) callback one_payment

abbrev stored_payment : Payment ℤ
stored_payment = record lost { amount = pos 3 }

finds : (find_payment wholes parse_error env callback one_payment).0 ≡ ok stored_payment
unfolding find_payment get_payment_by_provider_ref find_row payment_of status_of provider_of
    transpose_row
finds = refl

handle_settled_example :
    let (r, w') = process_callback wholes parse_error env callback one_payment in
    (r ≡ ok (record { payment = stored_payment; accepted = true; new_status = "failed" }))
    × (w'.payments ≡ upsert (row_of wholes parse_error stored_payment) one_payment.payments)
    × (w'.outbox
        ≡ (announced wholes parse_error env
            (λ n. refl)
            callback
            stored_payment
            stored_payment
            one_payment).outbox)
unfolding status_as_str
handle_settled_example =
    handle_settled wholes parse_error env (λ n. refl) callback one_payment refl finds (inl refl)

handle-Initiated_example :
    Initiated wholes parse_error is_ascii_digit env
      (λ n. refl)
      command
      empty_world
      (initiate wholes parse_error is_ascii_digit env command empty_world)
handle-Initiated_example =
    handle-Initiated wholes parse_error is_ascii_digit env (λ n. refl) command empty_world
