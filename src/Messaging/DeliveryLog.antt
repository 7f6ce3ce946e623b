-- ===== src/Messaging/DeliveryLog.antt =====
-- PostgresDeliveryLog of rust-engine/messaging-engine/src/infrastructure/postgres_delivery.rs, its
-- filters (ports/delivery_log.rs), and list_messages of application/handler.rs.
--
-- The log is the map that the process keeps: the database is only told the tenant, and whether that
-- fails is a parameter of a call. The map's values come in the order of the first insertions; a
-- HashMap promises no order, and nothing below depends on it.
pub mod Stages
pub mod Selection
pub mod Logged
use ussd_polyglot.Prelude.{
  ℕ, Bool, true, false, Option, none, some, List, [], ◌∷◌, String, if◌then◌else◌, leb, ◌==◌, str_eq,
  keep_if, map, ◌<>◌,
}
use ussd_polyglot.Prelude.Dict.{Dict, nat_key, lookup, insert}
use ussd_polyglot.Prelude.Result.{Result, ok, err}
use ussd_polyglot.Messaging.Domain.{
  MessageChannel, sms, whats_app, email, push, normal, Message, DeliveryStatus, DeliveryAttempt,
  MessagingError, database,
}
use ussd_polyglot.Messaging.Handler.{status_number}

pub record MessageFilters : Type 0 where
  pub channels : List MessageChannel
  pub statuses : List DeliveryStatus
  pub recipient : Option String
  pub from_date : Option ℕ
  pub to_date : Option ℕ
  pub session_id : Option String

abbrev pub Log : Type 0
Log = Dict ℕ DeliveryAttempt

-- what the statement `SET LOCAL` fails with, where there is a database and it fails
abbrev pub Fault : Type 0
Fault = Option String

unfoldable pub set_tenant_context : Fault → Result MessagingError (Unit {0})
set_tenant_context none = ok tt
set_tenant_context (some e) = err (database ("Failed to set tenant context: " <> e))

unfoldable pub log_attempt : Fault → DeliveryAttempt → Log → Result MessagingError (Unit {0}) × Log
log_attempt fault attempt log = elim (set_tenant_context fault) [
  | err e ↦ (err e, log)
  | ok u ↦ (ok tt, insert attempt.message_id attempt log)
]

unfoldable pub get_attempt : ℕ → Log → Result MessagingError (Option DeliveryAttempt)
get_attempt message_id log = ok (lookup message_id log)

unfoldable pub values : Log → List DeliveryAttempt
values [] = []
values ((id, attempt) ∷ log) = attempt ∷ values log

abbrev pub channel_number : MessageChannel → ℕ
channel_number sms = 0
channel_number whats_app = 1
channel_number email = 2
channel_number push = 3

-- `filters.channels.contains(&c)` and `filters.statuses.contains(&s)`
unfoldable pub has_channel : List MessageChannel → MessageChannel → Bool
has_channel [] c = false
has_channel (d ∷ ds) c = if channel_number d == channel_number c then true else has_channel ds c

unfoldable pub has_status : List DeliveryStatus → DeliveryStatus → Bool
has_status [] s = false
has_status (r ∷ rs) s = if status_number r == status_number s then true else has_status rs s

-- the six `if` statements of list_attempts
unfoldable pub retain_channels : List MessageChannel → List DeliveryAttempt → List DeliveryAttempt
retain_channels [] = λ results. results
retain_channels (c ∷ cs) = keep_if (λ a. has_channel (c ∷ cs) a.channel)

unfoldable pub retain_statuses : List DeliveryStatus → List DeliveryAttempt → List DeliveryAttempt
retain_statuses [] = λ results. results
retain_statuses (s ∷ ss) = keep_if (λ a. has_status (s ∷ ss) a.status)

unfoldable pub retain_recipient : Option String → List DeliveryAttempt → List DeliveryAttempt
retain_recipient none = λ results. results
retain_recipient (some recipient) = keep_if (λ a. str_eq a.recipient recipient)

-- `a.sent_at.map_or(false, |t| t >= from)` and `|t| t <= to`
unfoldable pub sent_from : ℕ → Option ℕ → Bool
sent_from start none = false
sent_from start (some t) = leb start t

unfoldable pub sent_to : ℕ → Option ℕ → Bool
sent_to end none = false
sent_to end (some t) = leb t end

unfoldable pub retain_from : Option ℕ → List DeliveryAttempt → List DeliveryAttempt
retain_from none = λ results. results
retain_from (some start) = keep_if (λ a. sent_from start a.sent_at)

unfoldable pub retain_to : Option ℕ → List DeliveryAttempt → List DeliveryAttempt
retain_to none = λ results. results
retain_to (some end) = keep_if (λ a. sent_to end a.sent_at)

-- `a.session_id.as_ref() == Some(session_id)`
unfoldable pub in_session : String → Option String → Bool
in_session session none = false
in_session session (some s) = str_eq s session

unfoldable pub retain_session : Option String → List DeliveryAttempt → List DeliveryAttempt
retain_session none = λ results. results
retain_session (some session) = keep_if (λ a. in_session session a.session_id)

-- the filter by the tenant and the six that follow it
unfoldable pub select : ℕ → MessageFilters → List DeliveryAttempt → List DeliveryAttempt
select tenant_id filters attempts =
    let mine = keep_if (λ a. a.tenant_id == tenant_id) attempts in
    let results = retain_channels filters.channels mine in
    let results = retain_statuses filters.statuses results in
    let results = retain_recipient filters.recipient results in
    let results = retain_from filters.from_date results in
    let results = retain_to filters.to_date results in retain_session filters.session_id results

unfoldable pub list_attempts :
    Fault → ℕ → MessageFilters → Log → Result MessagingError (List DeliveryAttempt)
list_attempts fault tenant_id filters log = elim (set_tenant_context fault) [
  | err e ↦ err e
  | ok u ↦ ok (select tenant_id filters (values log))
]

unfoldable pub message_of : DeliveryAttempt → Message
message_of a = record {
  id = a.message_id;
  recipient = a.recipient;
  body = a.body_preview;
  channel = a.channel;
  priority = normal;
  tenant_id = a.tenant_id;
  session_id = a.session_id;
}

unfoldable pub list_messages :
    Fault → ℕ → MessageFilters → Log → Result MessagingError (List Message)
list_messages fault tenant_id filters log = elim (list_attempts fault tenant_id filters log) [
  | err e ↦ err e
  | ok attempts ↦ ok (map message_of attempts)
]
