-- ===== src/Payment/Domain.antt =====
-- rust-engine/payment-engine/src/domain/payment.rs: a payment, its validation and its transitions.
--
-- A method on `&mut self` returns the new payment with its result. Amounts are `rust_decimal`'s;
-- the instant `Utc::now()` is an argument. The engine's regular expression is spelled out over the
-- code points, where `\d` is the `regex` crate's class of decimal digits, an argument too.
pub mod Lifecycle
pub mod Validation
use ussd_polyglot.Prelude.{
  ℕ, Bool, true, false, ◌&&◌, ◌||◌, not, Option, none, some, List, [], ◌∷◌, String, if◌then◌else◌,
  ltb, leb, ◌==◌, codes,
}
use ussd_polyglot.Prelude.Decimal.{Decimal}
use ussd_polyglot.Prelude.Result.{Result, ok, err}
use ussd_polyglot.Payment.Provider.{
  MobileMoneyProvider, ProviderStatus, DomainError, invalid_phone_number, invalid_amount,
  invalid_reference, invalid_status_transition,
}

pub data PaymentStatus : Type 0 where
  pending processing completed failed cancelled refunded : PaymentStatus

unfoldable pub status_as_str : PaymentStatus → String
status_as_str pending = "pending"
status_as_str processing = "processing"
status_as_str completed = "completed"
status_as_str failed = "failed"
status_as_str cancelled = "cancelled"
status_as_str refunded = "refunded"

pub record Payment (A : Type 0) : Type 0 where
  pub payment_id : ℕ
  pub tenant_id : ℕ
  pub idempotency_key : String
  pub provider : MobileMoneyProvider
  pub phone_number : String
  pub amount : A
  pub currency : String
  pub reference : String
  pub description : String
  pub status : PaymentStatus
  pub provider_reference : Option String
  pub failure_reason : Option String
  pub initiated_at : ℕ
  pub completed_at : Option ℕ

-- `char::is_whitespace`, by which `trim` trims: the code points with the property White_Space
unfoldable pub is_whitespace : ℕ → Bool
is_whitespace c =
    (leb 0x9 c && leb c 0xd)
    || c == 0x20
    || c == 0x85
    || c == 0xa0
    || c == 0x1680
    || (leb 0x2000 c && leb c 0x200a)
    || c == 0x2028
    || c == 0x2029
    || c == 0x202f
    || c == 0x205f
    || c == 0x3000

-- `s.trim().is_empty()`
unfoldable pub is_blank : List ℕ → Bool
unfolding is_whitespace
is_blank [] = true
is_blank (c ∷ cs) = is_whitespace c && is_blank cs

-- exactly `n` characters of a class, to the end of the text
unfoldable pub all_digits : (ℕ → Bool) → ℕ → List ℕ → Bool
all_digits is_digit ℕ.zero [] = true
all_digits is_digit ℕ.zero (c ∷ cs) = false
all_digits is_digit (ℕ.suc n) [] = false
all_digits is_digit (ℕ.suc n) (c ∷ cs) = is_digit c && all_digits is_digit n cs

-- `^2637[1378]\d{8}$`
unfoldable pub matches_phone : (ℕ → Bool) → List ℕ → Bool
unfolding all_digits
matches_phone is_digit (a ∷ b ∷ c ∷ d ∷ e ∷ rest) =
    a == b'2'
    && b == b'6'
    && c == b'3'
    && d == b'7'
    && (e == b'1' || e == b'3' || e == b'7' || e == b'8')
    && all_digits is_digit 8 rest
matches_phone is_digit _ = false

module _ (dec : Decimal) (is_digit : ℕ → Bool) where
  open dec use {Amount, zero as dec_zero, leb as dec_leb}

  -- the checks that `new` and `validate` make, in their order
  unfoldable pub validate : Payment Amount → Result DomainError (Unit {0})
  validate p =
      if dec_leb p.amount dec_zero
      then err (invalid_amount "Amount must be greater than zero")
      else if is_blank (codes p.reference)
      then err (invalid_reference "Reference must not be empty")
      else if not (matches_phone is_digit (codes p.phone_number))
      then err (invalid_phone_number p.phone_number)
      else ok tt

  unfoldable pub new :
      ℕ
      → ℕ
      → ℕ
      → String
      → MobileMoneyProvider
      → String
      → Amount
      → String
      → String
      → String
      → Result DomainError (Payment Amount)
  new now payment_id tenant_id idempotency_key provider phone_number amount currency reference
        description =
      if dec_leb amount dec_zero
      then err (invalid_amount "Amount must be greater than zero")
      else if is_blank (codes reference)
      then err (invalid_reference "Reference must not be empty")
      else if not (matches_phone is_digit (codes phone_number))
      then err (invalid_phone_number phone_number)
      else ok (record {
        payment_id = payment_id;
        tenant_id = tenant_id;
        idempotency_key = idempotency_key;
        provider = provider;
        phone_number = phone_number;
        amount = amount;
        currency = currency;
        reference = reference;
        description = description;
        status = pending;
        provider_reference = none;
        failure_reason = none;
        initiated_at = now;
        completed_at = none;
      })

-- `PaymentStatus::Pending | PaymentStatus::Processing`
unfoldable pub is_open : PaymentStatus → Bool
is_open pending = true
is_open processing = true
is_open completed = false
is_open failed = false
is_open cancelled = false
is_open refunded = false

unfoldable pub is_completed : PaymentStatus → Bool
is_completed completed = true
is_completed _ = false

-- `provider_ref.unwrap_or_default()`
abbrev pub text_or_default : Option String → String
text_or_default none = ""
text_or_default (some s) = s

abbrev pub Marked : Type 0 → Type 0
Marked A = Payment A × Result DomainError (Unit {0})

module _ {A : Type 0} where
  abbrev pub refused : Payment A → PaymentStatus → Marked A
  refused p to = (p, err (invalid_status_transition (status_as_str p.status) (status_as_str to)))

  unfoldable pub mark_processing : Payment A → Marked A
  unfolding is_open
  mark_processing p =
      if is_open p.status then (record p { status = processing }, ok tt) else refused p processing

  unfoldable pub mark_completed : ℕ → String → Payment A → Marked A
  unfolding is_open
  mark_completed now provider_ref p =
      if is_open p.status
      then (
        record p {
          status = completed;
          provider_reference = some provider_ref;
          completed_at = some now;
        },
        ok tt,
      )
      else refused p completed

  unfoldable pub mark_failed : ℕ → String → Payment A → Marked A
  unfolding is_open
  mark_failed now reason p =
      if is_open p.status
      then (
        record p { status = failed; failure_reason = some reason; completed_at = some now },
        ok tt,
      )
      else refused p failed

  unfoldable pub mark_refunded : ℕ → Payment A → Marked A
  unfolding is_completed
  mark_refunded now p =
      if is_completed p.status
      then (record p { status = refunded; completed_at = some now }, ok tt)
      else refused p refunded

  unfoldable pub apply_provider_status : ℕ → ProviderStatus → Option String → Payment A → Payment A
  unfolding mark_processing mark_completed mark_failed mark_refunded is_open
  apply_provider_status now ProviderStatus.completed provider_ref p =
      (mark_completed now (text_or_default provider_ref) p).0
  apply_provider_status now ProviderStatus.failed provider_ref p =
      (mark_failed now "Provider reported failure" p).0
  apply_provider_status now ProviderStatus.cancelled provider_ref p =
      if is_open p.status then record p { status = cancelled; completed_at = some now } else p
  apply_provider_status now ProviderStatus.refunded provider_ref p = (mark_refunded now p).0
  apply_provider_status now ProviderStatus.processing provider_ref p = (mark_processing p).0
  apply_provider_status now ProviderStatus.pending provider_ref p = p
  apply_provider_status now ProviderStatus.unknown provider_ref p = p
