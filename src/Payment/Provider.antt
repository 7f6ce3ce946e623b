-- ===== src/Payment/Provider.antt =====
-- rust-engine/payment-engine/src/domain/provider.rs and error.rs: the mobile money providers, their
-- statuses and answers, and the engine's errors; and parse_provider_status of
-- infrastructure/providers/ecocash.rs.
pub mod Parsing
use ussd_polyglot.Prelude.{Option, String, if◌then◌else◌, str_eq, ◌||◌, ◌<>◌}

pub data MobileMoneyProvider : Type 0 where
  eco_cash one_money telecash : MobileMoneyProvider

unfoldable pub provider_as_str : MobileMoneyProvider → String
provider_as_str eco_cash = "ecocash"
provider_as_str one_money = "onemoney"
provider_as_str telecash = "telecash"

pub data ProviderStatus : Type 0 where
  pending processing completed failed cancelled refunded unknown : ProviderStatus

unfoldable pub provider_status_as_str : ProviderStatus → String
provider_status_as_str pending = "pending"
provider_status_as_str processing = "processing"
provider_status_as_str completed = "completed"
provider_status_as_str failed = "failed"
provider_status_as_str cancelled = "cancelled"
provider_status_as_str refunded = "refunded"
provider_status_as_str unknown = "unknown"

pub record ProviderResponse : Type 0 where
  pub provider_reference : String
  pub status : ProviderStatus
  pub message : Option String

pub data DomainError : Type 0 where
  invalid_phone_number : String → DomainError
  invalid_amount : String → DomainError
  invalid_reference : String → DomainError
  provider_error : String → DomainError
  idempotency_violation : DomainError
  not_found : String → DomainError
  invalid_status_transition : String → String → DomainError
  database_error : String → DomainError

-- the `#[error("…")]` texts, which `e.to_string()` gives
unfoldable pub error_text : DomainError → String
error_text (invalid_phone_number s) = "Invalid phone number: " <> s
error_text (invalid_amount s) = "Invalid amount: " <> s
error_text (invalid_reference s) = "Invalid reference: " <> s
error_text (provider_error s) = "Provider error: " <> s
error_text idempotency_violation = "Idempotency violation"
error_text (not_found s) = "Not found: " <> s
error_text (invalid_status_transition from to) =
    "Invalid status transition from " <> from <> " to " <> to
error_text (database_error s) = "Database error: " <> s

-- `to_lowercase` is the standard library's, over all of Unicode, and is an argument.
unfoldable pub parse_provider_status : (String → String) → String → ProviderStatus
parse_provider_status to_lowercase status =
    let s = to_lowercase status in
    if str_eq s "pending"
    then pending
    else if str_eq s "processing"
    then processing
    else if str_eq s "completed" || str_eq s "success"
    then completed
    else if str_eq s "failed" || str_eq s "failure"
    then failed
    else if str_eq s "cancelled"
    then cancelled
    else if str_eq s "refunded"
    then refunded
    else unknown
