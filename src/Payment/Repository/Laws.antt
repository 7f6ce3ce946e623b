-- ===== src/Payment/Repository/Laws.antt =====
-- The repositories of postgres.rs and outbox.rs over a database that fails no statement: what each
-- leaves behind.
use ussd_polyglot.Prelude.{
  ℕ, ◌+◌, ◌≡◌, ◌≢◌, Bool, ◌&&◌, Option, none, some, List, [], ◌∷◌, ◌++◌, String, str_eq, ◌==◌,
  arith,
}
use ussd_polyglot.Prelude.Decimal.{Decimal}
use ussd_polyglot.Prelude.Result.{Result, ok}
use ussd_polyglot.Payment.Provider.{DomainError}
use ussd_polyglot.Payment.Domain.{Payment}
use ussd_polyglot.Payment.Store.{
  PaymentRow, OutboxRow, JsonField, World, Env, find_row, upsert, row_of, transpose_row,
}
use ussd_polyglot.Payment.Repository.{
  is_provider_ref, execute, find_by_idempotency_key, get_payment_by_provider_ref, get_payment_by_id,
  save_payment, topic_or_nil, append_outbox,
}

-- the row of a payment, by its identifier
abbrev pub stored : ℕ → List PaymentRow → Option PaymentRow
stored id = find_row (λ row. row.payment_id == id)

-- Writing one payment leaves the rows of all others.
pub stored-upsert_ne :
    (id : ℕ) (new : PaymentRow) (rows : List PaymentRow)
    → id ≢ new.payment_id
    → stored id (upsert new rows) ≡ stored id rows
unfolding find_row upsert
stored-upsert_ne id new [] h = ground arith
stored-upsert_ne id new (row ∷ rows) h = ground (arith, stored-upsert_ne id new rows h)

-- after `n` more statements
abbrev pub ticked : ℕ → World → World
ticked n w = record w { statements = w.statements + n }

module _ (dec : Decimal) (parse_error : String → String) (env : Env dec.Amount) where
  open dec use {Amount}

  -- no statement fails
  abbrev pub Quiet : Type 0
  Quiet = (n : ℕ) → env.fault n ≡ none

  -- the event that `append_outbox` writes
  abbrev pub event_row : String → ℕ → List (String × JsonField) → OutboxRow
  event_row event_type aggregate_id payload = record {
    topic_id = topic_or_nil dec parse_error env;
    event_type = event_type;
    aggregate_type = "payment";
    aggregate_id = aggregate_id;
    payload = payload;
  }

  -- what a tenant's query finds
  abbrev pub selected :
      Option ℕ → (PaymentRow → Bool) → World → Result DomainError (Option (Payment Amount))
  selected tenant_id test w =
      transpose_row dec parse_error
        (find_row (λ row. env.visible tenant_id row && test row) w.payments)

  module _ (quiet : Quiet) where
    execute_quiet : (w : World) → execute dec parse_error env w ≡ (ok tt, ticked 1 w)
    unfolding execute
    execute_quiet w = rw (quiet w.statements, execute)

    pub find_by_idempotency_key_quiet :
        (tenant_id : ℕ) (key : String) (w : World)
        → find_by_idempotency_key dec parse_error env tenant_id key w
          ≡ (selected (some tenant_id) (λ row. str_eq row.idempotency_key key) w, ticked 2 w)
    unfolding find_by_idempotency_key
    find_by_idempotency_key_quiet tenant_id key w =
        ground (arith, quiet w.statements, quiet (w.statements + 1))

    pub get_payment_by_provider_ref_quiet :
        (tenant_id : ℕ) (ref : String) (w : World)
        → get_payment_by_provider_ref dec parse_error env (some tenant_id) ref w
          ≡ (selected (some tenant_id) (is_provider_ref ref) w, ticked 2 w)
    unfolding get_payment_by_provider_ref
    get_payment_by_provider_ref_quiet tenant_id ref w =
        ground (arith, quiet w.statements, quiet (w.statements + 1))

    pub get_payment_by_id_quiet :
        (tenant_id id : ℕ) (w : World)
        → get_payment_by_id dec parse_error env tenant_id id w
          ≡ (selected (some tenant_id) (λ row. row.payment_id == id) w, ticked 2 w)
    unfolding get_payment_by_id
    get_payment_by_id_quiet tenant_id id w =
        ground (arith, quiet w.statements, quiet (w.statements + 1))

    pub save_payment_quiet :
        (p : Payment Amount) (w : World)
        → save_payment dec parse_error env p w
          ≡ (ok tt, record (ticked 2 w) { payments = upsert (row_of dec parse_error p) w.payments })
    unfolding save_payment
    save_payment_quiet p w = ground (arith, quiet w.statements, quiet (w.statements + 1))

    pub append_outbox_quiet :
        (event_type : String) (id : ℕ) (payload : List (String × JsonField)) (key : String)
        (tenant_id : ℕ) (w : World)
        → append_outbox dec parse_error env event_type id payload key tenant_id w ≡ (
          ok tt,
          record (ticked 3 w) { outbox = w.outbox ++ event_row event_type id payload ∷ [] },
        )
    unfolding append_outbox
    append_outbox_quiet event_type id payload key tenant_id w =
        ground (arith, quiet w.statements, quiet (w.statements + 1), quiet (w.statements + 1 + 1))
