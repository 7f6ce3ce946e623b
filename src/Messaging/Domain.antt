-- ===== src/Messaging/Domain.antt =====
-- rust-engine/messaging-engine/src/domain/: messages, delivery attempts, and the choice of an operator
-- by the prefix of the recipient's number.
use ussd_polyglot.Prelude.{
  ℕ, Bool, true, false, ◌||◌, Option, none, some, List, [], ◌∷◌, String, if◌then◌else◌, ◌==◌, codes,
}
use ussd_polyglot.Prelude.Int.{ℤ}

pub data Provider : Type 0 where
  eco_cash one_money tele_cash : Provider

pub data MessageChannel : Type 0 where
  sms whats_app email push : MessageChannel

pub data Priority : Type 0 where
  low normal high critical : Priority

pub record Message : Type 0 where
  pub id : ℕ
  pub recipient : String
  pub body : String
  pub channel : MessageChannel
  pub priority : Priority
  pub tenant_id : ℕ
  pub session_id : Option String

pub data DeliveryStatus : Type 0 where
  queued sent delivered read failed rejected expired cancelled : DeliveryStatus

pub record DeliveryAttempt : Type 0 where
  pub message_id : ℕ
  pub tenant_id : ℕ
  pub recipient : String
  pub channel : MessageChannel
  pub body_preview : String
  pub session_id : Option String
  pub provider : Provider
  pub status : DeliveryStatus
  pub sent_at : Option ℕ
  pub delivered_at : Option ℕ
  pub provider_ref : Option String
  pub error_message : Option String
  pub retry_count : ℤ

pub record ProviderReceipt : Type 0 where
  pub provider_ref : String
  pub raw_response : String

pub data MessagingError : Type 0 where
  invalid_phone : String → MessagingError
  provider_unavailable : String → MessagingError
  rate_limit_exceeded : String → MessagingError
  template_not_found : String → MessagingError
  database : String → MessagingError
  serialization : String → MessagingError
  internal : String → MessagingError
  provider_error : String → MessagingError
  validation : String → MessagingError

-- `trim_start_matches('+')`
unfoldable pub trim_plus : List ℕ → List ℕ
trim_plus [] = []
trim_plus (c ∷ cs) = let rest = trim_plus cs in if c == b'+' then rest else c ∷ cs

unfoldable pub starts_with : List ℕ → List ℕ → Bool
starts_with cs [] = true
starts_with [] (p ∷ ps) = false
starts_with (c ∷ cs) (p ∷ ps) = let rest = starts_with cs ps in if c == p then rest else false

unfoldable pub route_provider : String → Option Provider
route_provider recipient =
    let normalized = trim_plus (codes recipient) in
    if starts_with normalized (codes "26377") || starts_with normalized (codes "26378")
    then some eco_cash
    else if starts_with normalized (codes "26371") || starts_with normalized (codes "26372")
    then some one_money
    else if starts_with normalized (codes "26373") || starts_with normalized (codes "26374")
    then some tele_cash
    else none
