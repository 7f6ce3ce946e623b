-- ===== src/Tests/DeliveryLog.antt =====
-- A text message that is logged twice, and the messages of its tenant that were sent from second 3 on;
-- a tenant that Redis counts once in three calls.
use ussd_polyglot.Prelude.{
  inr, refl, ◌+◌, ◌%◌, ◌^◌, ◌≡◌, ◌↔◌, ℕ, none, some, List, [], ◌∷◌, leb, get_elem?,
}
use ussd_polyglot.Prelude.Int.{pos}
use ussd_polyglot.Prelude.Result.{ok, err}
use ussd_polyglot.Messaging.Domain.{eco_cash, sms, DeliveryStatus, queued, sent, DeliveryAttempt}
use ussd_polyglot.Messaging.DeliveryLog.{
  MessageFilters, Log, log_attempt, get_attempt, values, list_attempts,
}
use ussd_polyglot.Messaging.DeliveryLog.Selection.{IsSelected}
use ussd_polyglot.Messaging.DeliveryLog.Logged.{list_attempts-log_attempt}
use ussd_polyglot.Messaging.RateLimit.{check_and_increment}
use ussd_polyglot.Messaging.RateLimit.Window.{Call, run, fallbacks, check_and_increment-run}

abbrev attempt : DeliveryStatus → DeliveryAttempt
attempt status = record {
  message_id = 7;
  tenant_id = 5;
  recipient = "+263771000001";
  channel = sms;
  body_preview = "Your balance is 5";
  session_id = none;
  provider = eco_cash;
  status = status;
  sent_at = some 4;
  delivered_at = none;
  provider_ref = some "R";
  error_message = none;
  retry_count = pos 0;
}

abbrev log : Log
log = (7, attempt queued) ∷ []

abbrev filters : MessageFilters
filters = record {
  channels = sms ∷ [];
  statuses = [];
  recipient = none;
  from_date = some 3;
  to_date = none;
  session_id = none;
}

list_attempts-log_attempt_example :
    let logged = log_attempt none (attempt sent) log in
    (found : List DeliveryAttempt) × (logged.0 ≡ ok tt)
    × (get_attempt 7 logged.1 ≡ ok (some (attempt sent)))
    × ((i : ℕ) × (get_elem? (values logged.1) i ≡ some (attempt sent)))
    × (list_attempts none 5 filters logged.1 ≡ ok found)
    × ((((i : ℕ) × (get_elem? (values logged.1) i ≡ some (attempt sent)))
          × IsSelected 5 filters (attempt sent))
        ↔ ((j : ℕ) × (get_elem? found j ≡ some (attempt sent))))
list_attempts-log_attempt_example =
    list_attempts-log_attempt (attempt sent) 5 filters log (attempt sent)

abbrev calls : List Call
calls = (none, "acme", 2) ∷ (some (ok 1), "acme", 2) ∷ (some (err "timeout"), "acme", 2) ∷ []

check_and_increment-run_example :
    (check_and_increment (some (err "timeout")) "acme" 2 (run calls [])).0
    ≡ leb ((fallbacks "acme" calls + 1) % 2 ^ 32) 2
check_and_increment-run_example =
    check_and_increment-run "acme" 2 calls (some (err "timeout")) (inr ("timeout", refl))
