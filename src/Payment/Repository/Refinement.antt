-- ===== src/Payment/Repository/Refinement.antt =====
-- PgPaymentRepository of rust-engine/payment-engine/src/infrastructure/postgres.rs as a map from
-- payment identifiers to rows: a save sets the entry of its payment, and a read looks it up.
use ussd_polyglot.Prelude.{
  ℕ, ◌≡◌, refl, ap, ◌∙◌, true, ◌&&◌, Option, none, some, List, [], ◌∷◌, map, String, if◌then◌else◌,
  ◌==◌, arith,
}
use ussd_polyglot.Prelude.Decimal.{Decimal}
use ussd_polyglot.Prelude.Result.{ok}
use ussd_polyglot.Payment.Domain.{Payment}
use ussd_polyglot.Payment.Store.{
  PaymentRow, World, Env, Io, ◌>>◌, find_row, upsert, row_of, transpose_row,
}
use ussd_polyglot.Payment.Repository.{save_payment, get_payment_by_id}
use ussd_polyglot.Payment.Repository.Laws.{
  Quiet, ticked, save_payment_quiet, get_payment_by_id_quiet,
}

-- the specification: a map, of which a save sets one entry. The columns that are not among the
-- updated ones keep what the first save gave them.
abbrev pub Table : Type 0
Table = ℕ → Option PaymentRow

abbrev pub entry : Option PaymentRow → PaymentRow → PaymentRow
entry none new = new
entry (some old) new = record old {
  status = new.status;
  provider_reference = new.provider_reference;
  failure_reason = new.failure_reason;
  completed_at = new.completed_at;
}

abbrev pub set_entry : Table → PaymentRow → Table
set_entry table new id = if new.payment_id == id then some (entry (table id) new) else table id

abbrev pub replay : Table → List PaymentRow → Table
replay table [] = table
replay table (row ∷ rows) = replay (set_entry table row) rows

-- the map that a list of rows stands for
abbrev pub table_of : List PaymentRow → Table
table_of rows id = find_row (λ row. row.payment_id == id) rows

pub table_of-upsert :
    (new : PaymentRow) (rows : List PaymentRow) (id : ℕ)
    → table_of (upsert new rows) id ≡ set_entry (table_of rows) new id
unfolding upsert find_row
table_of-upsert new [] id = ground arith
table_of-upsert new (row ∷ rows) id = ground (arith, table_of-upsert new rows id)

replay-cong :
    (t u : Table) (rows : List PaymentRow) (id : ℕ)
    → ((i : ℕ) → t i ≡ u i)
    → replay t rows id ≡ replay u rows id
replay-cong t u [] id same = same id
replay-cong t u (row ∷ rows) id same =
    replay-cong (set_entry t row) (set_entry u row) rows id
      (λ i. ap (λ o. if row.payment_id == i then some (entry o row) else o) (same i))

module _ (dec : Decimal) (parse_error : String → String) (env : Env dec.Amount) where
  open dec use {Amount}

  -- one save after the other
  abbrev pub save_all : List (Payment Amount) → Io (Unit {0})
  save_all [] w = (ok tt, w)
  save_all (p ∷ ps) w = (save_payment dec parse_error env p >> save_all ps) w

  save_all_lem :
      (ps : List (Payment Amount)) (w : World) (id : ℕ)
      → Quiet dec parse_error env
      → (w' : World) × (save_all ps w ≡ (ok tt, w'))
        × (table_of w'.payments id
            ≡ replay (table_of w.payments) (map (row_of dec parse_error) ps) id)
  save_all_lem [] w id up = (w, refl, refl)
  save_all_lem (p ∷ ps) w id up =
      let saved = save_payment_quiet dec parse_error env up p w in
      let next : World = record (ticked 2 w) {
        payments = upsert (row_of dec parse_error p) w.payments;
      } in
      let (w', ran, same) = save_all_lem ps next id up in
      (
        w',
        ground arith,
        same
            ∙ replay-cong (table_of next.payments)
                (set_entry (table_of w.payments) (row_of dec parse_error p))
                (map (row_of dec parse_error) ps) id
                (λ i. table_of-upsert (row_of dec parse_error p) w.payments i),
      )

  pub find_row-visible :
      (tenant_id : Option ℕ) (id : ℕ) (rows : List PaymentRow)
      → ((row : PaymentRow) → env.visible tenant_id row ≡ true)
      → find_row (λ row. env.visible tenant_id row && row.payment_id == id) rows ≡ table_of rows id
  unfolding find_row
  find_row-visible tenant_id id [] seen = refl
  find_row-visible tenant_id id (row ∷ rows) seen =
      ground (arith, seen row, find_row-visible tenant_id id rows seen)

  -- Where no statement fails and the tenant sees every row: after any sequence of saves, each of
  -- which succeeds, `get_payment_by_id` answers the conversion of the entry that the map has for the
  -- identifier after the same saves. In the map a save sets the one entry of its payment: to the
  -- saved row if there was none, and otherwise only in its status, provider reference, failure
  -- reason and time of completion.
  pub get_payment_by_id-replay :
      (tenant_id id : ℕ) (ps : List (Payment Amount)) (w : World)
      → Quiet dec parse_error env
      → ((row : PaymentRow) → env.visible (some tenant_id) row ≡ true)
      → (w' : World) × (w'' : World) × (save_all ps w ≡ (ok tt, w'))
        × (get_payment_by_id dec parse_error env tenant_id id w' ≡ (
          transpose_row dec parse_error
              (replay (table_of w.payments) (map (row_of dec parse_error) ps) id),
          w'',
        ))
  get_payment_by_id-replay tenant_id id ps w up seen =
      let (w', ran, same) = save_all_lem ps w id up in
      (
        w',
        ticked 2 w',
        ran,
        get_payment_by_id_quiet dec parse_error env up tenant_id id w'
            ∙ ap (λ o. (transpose_row dec parse_error o, ticked 2 w'))
                (find_row-visible (some tenant_id) id w'.payments seen ∙ same),
      )
