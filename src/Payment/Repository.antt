-- ===== src/Payment/Repository.antt =====
-- rust-engine/payment-engine/src/infrastructure/postgres.rs (PgPaymentRepository) and outbox.rs
-- (OutboxRepository): the statements in their order, each of which the database may fail.
pub mod Laws
pub mod Refinement
use ussd_polyglot.Prelude.{
  ℕ, ◌+◌, Bool, ◌&&◌, Option, none, some, List, [], ◌∷◌, ◌++◌, String, if◌then◌else◌, str_eq, ◌==◌,
}
use ussd_polyglot.Prelude.Decimal.{Decimal}
use ussd_polyglot.Prelude.Result.{Result, ok, err}
use ussd_polyglot.Payment.Provider.{DomainError, database_error}
use ussd_polyglot.Payment.Domain.{Payment}
use ussd_polyglot.Payment.Store.{
  PaymentRow, OutboxRow, JsonField, World, Env, Io, ◌>>=◌, ◌>>◌, pure, lift, find_row, upsert,
  row_of, transpose_row,
}

abbrev pub is_provider_ref : String → PaymentRow → Bool
is_provider_ref provider_ref row = elim row.provider_reference [
  | some r ↦ str_eq r provider_ref
  | none ↦ Bool.false
]

module _ (dec : Decimal) (parse_error : String → String) (env : Env dec.Amount) where
  open dec use {Amount}

  -- one statement: it is counted, and fails with a database error or goes on
  unfoldable pub execute : Io (Unit {0})
  execute w =
      let w' = record w { statements = w.statements + 1 } in
      elim (env.fault w.statements) [
        | some message ↦ (err (database_error message), w')
        | none ↦ (ok tt, w')
      ]

  unfoldable pub set_tenant : ℕ → Io (Unit {0})
  unfolding execute
  set_tenant tenant_id = execute

  -- `fetch_optional` of a `SELECT … WHERE test` by a tenant, or with none set, and the conversion of the row
  unfoldable pub select_payment : Option ℕ → (PaymentRow → Bool) → Io (Option (Payment Amount))
  unfolding execute
  select_payment tenant_id test = do
    execute
    λ w. (
      transpose_row dec parse_error
          (find_row (λ row. env.visible tenant_id row && test row) w.payments),
      w,
    )

  unfoldable pub find_by_idempotency_key : ℕ → String → Io (Option (Payment Amount))
  unfolding set_tenant select_payment
  find_by_idempotency_key tenant_id key = do
    set_tenant tenant_id
    select_payment (some tenant_id) (λ row. str_eq row.idempotency_key key)

  unfoldable pub get_payment_by_provider_ref : Option ℕ → String → Io (Option (Payment Amount))
  unfolding set_tenant select_payment
  get_payment_by_provider_ref tenant_id provider_ref = do
    elim tenant_id [ some tid ↦ set_tenant tid | none ↦ pure tt ]
    select_payment tenant_id (is_provider_ref provider_ref)

  unfoldable pub get_payment_by_id : ℕ → ℕ → Io (Option (Payment Amount))
  unfolding set_tenant select_payment
  get_payment_by_id tenant_id payment_id = do
    set_tenant tenant_id
    select_payment (some tenant_id) (λ row. row.payment_id == payment_id)

  unfoldable pub save_payment : Payment Amount → Io (Unit {0})
  unfolding set_tenant execute
  save_payment p = do
    set_tenant p.tenant_id
    execute
    λ w. (ok tt, record w { payments = upsert (row_of dec parse_error p) w.payments })

  -- `topic_id.unwrap_or_else(|| Uuid::nil())`
  abbrev pub topic_or_nil : ℕ
  topic_or_nil = elim env.topic [ some t ↦ t | none ↦ 0 ]

  -- the idempotency key is taken and not used
  unfoldable pub append_outbox : String → ℕ → List (String × JsonField) → String → ℕ → Io (Unit {0})
  unfolding execute
  append_outbox event_type aggregate_id payload _idempotency_key tenant_id = do
    execute
    execute
    execute
    λ w. (
      ok tt,
      record w {
        outbox =
            w.outbox
            ++ record {
              topic_id = topic_or_nil;
              event_type = event_type;
              aggregate_type = "payment";
              aggregate_id = aggregate_id;
              payload = payload;
            }
              ∷ [];
      },
    )
