-- ===== src/Payment/Store.antt =====
-- rust-engine/payment-engine/src/infrastructure/postgres.rs and outbox.rs: the rows of
-- `payment_engine.payments` and `events.cdc_outbox`, and the statements that the repositories run.
--
-- The database is Postgres's. A table is the list of its rows, and a statement does what its SQL
-- says; `Env` holds what the database decides: which statements fail, and with what message
-- (`fault`, by the number of the statement), which rows row-level security lets a tenant see
-- (`visible`), and the active topic. It also holds the clock and the provider's answers, for the
-- handlers. `Io` is a handler's computation: a result, and the world that it leaves.
pub mod RoundTrip
use ussd_polyglot.Prelude.{
  ℕ, ◌+◌, Bool, true, false, ◌&&◌, Option, none, some, List, [], ◌∷◌, ◌++◌, String, if◌then◌else◌,
  str_eq, ◌==◌, Bytes, ◌<>◌,
}
use ussd_polyglot.Prelude.Decimal.{Decimal}
use ussd_polyglot.Prelude.Effect.{Effect}
pub use ussd_polyglot.Prelude.Effect.{◌>>=◌, ◌>>◌, pure, raise, lift, ignore}
use ussd_polyglot.Prelude.Result.{Result, ok, err}
use ussd_polyglot.Payment.Provider.{
  MobileMoneyProvider, eco_cash, one_money, telecash, provider_as_str, ProviderResponse,
  DomainError, database_error,
}
use ussd_polyglot.Payment.Domain.{
  PaymentStatus, pending, processing, completed, failed, cancelled, refunded, status_as_str,
  Payment,
}

pub record PaymentRow : Type 0 where
  pub payment_id : ℕ
  pub tenant_id : ℕ
  pub idempotency_key : String
  pub provider : String
  pub phone_number : String
  pub amount : String
  pub currency : String
  pub reference : String
  pub description : String
  pub status : String
  pub provider_reference : Option String
  pub failure_reason : Option String
  pub initiated_at : ℕ
  pub completed_at : Option ℕ

-- a member of the object that `json!` builds
pub data JsonField : Type 0 where
  text : String → JsonField
  uuid : ℕ → JsonField

-- the columns that `append_outbox` inserts
pub record OutboxRow : Type 0 where
  pub topic_id : ℕ
  pub event_type : String
  pub aggregate_type : String
  pub aggregate_id : ℕ
  pub payload : List (String × JsonField)

pub record World : Type 0 where
  pub payments : List PaymentRow
  pub outbox : List OutboxRow
  -- the statements run so far
  pub statements : ℕ
  -- the calls of the provider made so far
  pub calls : ℕ

pub record Env (A : Type 0) : Type 0 where
  pub fault : ℕ → Option String
  pub visible : Option ℕ → PaymentRow → Bool
  pub topic : Option ℕ
  pub now : ℕ → ℕ
  pub answer : ℕ → Payment A → Result DomainError ProviderResponse
  pub verify_callback_signature : Bytes → String → Bool

abbrev pub Io : Type 0 → Type 0
Io = Effect World DomainError

-- `impl TryFrom<PaymentRow> for Payment`
unfoldable pub provider_of : String → Result DomainError MobileMoneyProvider
provider_of s =
    if str_eq s "ecocash"
    then ok eco_cash
    else if str_eq s "onemoney"
    then ok one_money
    else if str_eq s "telecash"
    then ok telecash
    else err (database_error ("Unknown provider: " <> s))

unfoldable pub status_of : String → Result DomainError PaymentStatus
status_of s =
    if str_eq s "pending"
    then ok pending
    else if str_eq s "processing"
    then ok processing
    else if str_eq s "completed"
    then ok completed
    else if str_eq s "failed"
    then ok failed
    else if str_eq s "cancelled"
    then ok cancelled
    else if str_eq s "refunded"
    then ok refunded
    else err (database_error ("Unknown status: " <> s))

-- the first row that a statement's `WHERE` selects
unfoldable pub find_row : (PaymentRow → Bool) → List PaymentRow → Option PaymentRow
find_row test [] = none
find_row test (row ∷ rows) = if test row then some row else find_row test rows

-- `INSERT … ON CONFLICT (payment_id) DO UPDATE SET …`
unfoldable pub upsert : PaymentRow → List PaymentRow → List PaymentRow
upsert new [] = new ∷ []
upsert new (row ∷ rows) =
    if row.payment_id == new.payment_id
    then record row {
      status = new.status;
      provider_reference = new.provider_reference;
      failure_reason = new.failure_reason;
      completed_at = new.completed_at;
    }
      ∷ rows
    else row ∷ upsert new rows

module _ (dec : Decimal) (parse_error : String → String) where
  open dec use {Amount}

  -- the values that `save_payment` binds
  unfoldable pub row_of : Payment Amount → PaymentRow
  row_of p = record {
    payment_id = p.payment_id;
    tenant_id = p.tenant_id;
    idempotency_key = p.idempotency_key;
    provider = provider_as_str p.provider;
    phone_number = p.phone_number;
    amount = dec.to_text p.amount;
    currency = p.currency;
    reference = p.reference;
    description = p.description;
    status = status_as_str p.status;
    provider_reference = p.provider_reference;
    failure_reason = p.failure_reason;
    initiated_at = p.initiated_at;
    completed_at = p.completed_at;
  }

  -- `row.amount.parse()`, with the crate's message where it fails
  abbrev pub amount_of : String → Result DomainError Amount
  amount_of s = elim (dec.parse s) [
    | some a ↦ ok a
    | none ↦ err (database_error ("Invalid amount in DB: " <> parse_error s))
  ]

  unfoldable pub payment_of : PaymentRow → Result DomainError (Payment Amount)
  payment_of row = elim (provider_of row.provider) [
    | err e ↦ err e
    | ok provider ↦ elim (status_of row.status) [
      | err e ↦ err e
      | ok status ↦ elim (amount_of row.amount) [
        | err e ↦ err e
        | ok amount ↦ ok (record {
          payment_id = row.payment_id;
          tenant_id = row.tenant_id;
          idempotency_key = row.idempotency_key;
          provider = provider;
          phone_number = row.phone_number;
          amount = amount;
          currency = row.currency;
          reference = row.reference;
          description = row.description;
          status = status;
          provider_reference = row.provider_reference;
          failure_reason = row.failure_reason;
          initiated_at = row.initiated_at;
          completed_at = row.completed_at;
        })
      ]
    ]
  ]

  -- `row.map(TryInto::try_into).transpose()`
  unfoldable pub transpose_row : Option PaymentRow → Result DomainError (Option (Payment Amount))
  transpose_row none = ok none
  transpose_row (some row) = elim (payment_of row) [ ok p ↦ ok (some p) | err e ↦ err e ]
