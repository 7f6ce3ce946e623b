-- ===== src/Messaging/Handler/Batch.antt =====
-- What sending leaves in the delivery log, and what a batch counts (application/handler.rs).
use ussd_polyglot.Prelude.{ℕ, ◌+◌, Option, none, some, List, [], ◌∷◌}
use ussd_polyglot.Prelude.Dict.{Dict, nat_key, insert}
use ussd_polyglot.Prelude.Result.{Result, ok, err}
use ussd_polyglot.Messaging.Domain.{push, Message, DeliveryAttempt, MessagingError}

-- what a result says of the log: an attempt is logged, an error logs nothing
abbrev pub logged : Result MessagingError DeliveryAttempt → List DeliveryAttempt
logged (ok attempt) = attempt ∷ []
logged (err e) = []

-- the log after some attempts are entered, the first one first
abbrev pub put : List DeliveryAttempt → Dict ℕ DeliveryAttempt → Dict ℕ DeliveryAttempt
put [] log = log
put (attempt ∷ attempts) log = put attempts (insert attempt.message_id attempt log)

abbrev pub handled : Option (Result MessagingError DeliveryAttempt) → List DeliveryAttempt
handled none = []
handled (some r) = logged r

abbrev pub pushes : List Message → ℕ
pushes [] = 0
pushes (msg ∷ messages) =
    let rest = pushes messages in elim msg.channel [ push ↦ rest + 1 | _ ↦ rest ]
