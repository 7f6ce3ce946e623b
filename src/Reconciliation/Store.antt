-- ===== src/Reconciliation/Store.antt =====
-- PostgresReconStore of rust-engine/reconciliation-engine/src/infrastructure/postgres_recon_store.rs:
-- the rows of `reconciliation.reports` and `reconciliation.mismatches`, what is written into them
-- and what is read back.
--
-- The database is Postgres's: a table is the list of its rows, and `Env` says which statement fails,
-- which rows row-level security lets a session see, what the tables are declared as, and the clock. An
-- INSERT fails where its ON CONFLICT names no unique key, where it binds a text to a NUMERIC column, or
-- where it leaves out a column that may not be null. `to_lowercase` and the reading of
-- decimals are the libraries'.
pub mod Refusal
use Prim.Native.Char.{Char, code}
use ussd_polyglot.Prelude.{
  ℕ, ◌+◌, ◌*◌, ◌/◌, Bool, true, false, not, ◌&&◌, Option, none, some, List, [], ◌∷◌, ◌++◌, map,
  String, if◌then◌else◌, ltb, leb, ◌==◌, str_eq, ◌<>◌, keep_if, find_if,
}
use ussd_polyglot.Prelude.Int.{ℤ, pos, ◌+ℤ◌, wrap_i32}
use ussd_polyglot.Prelude.Time.{day}
use ussd_polyglot.Prelude.Decimal.{Decimal}
use ussd_polyglot.Prelude.Effect.{Effect}
pub use ussd_polyglot.Prelude.Effect.{◌>>=◌, ◌>>◌, pure, raise, lift}
use ussd_polyglot.Prelude.Result.{Result, ok, err}
use ussd_polyglot.Reconciliation.Domain.{
  DiscrepancyType, missing_internal, missing_external, amount_mismatch, status_mismatch,
  duplicate_internal, duplicate_external, fee_mismatch, timestamp_mismatch, currency_mismatch,
  ResolutionAction, correct_internal, correct_external, create_adjustment, ignore, escalate,
  approve, action_as_str, ReconciliationStatus, pending, running, completed, failed,
  partially_resolved, approved, ReconciliationError, not_found, database_error, ReconciliationItem,
  ReconciliationRun,
}
use ussd_polyglot.Reconciliation.Schema.{Table, Insert, accepts, report_insert, mismatch_insert}

-- A row of `reconciliation.reports`. An amount, and the creator, is what decoding its column as a
-- String gives: nothing where the column has another type, as the columns of the schema have.
pub record ReportRow : Type 0 where
  pub report_id : ℕ
  pub provider_id : String
  pub period_start : ℕ
  pub period_end : ℕ
  pub status : String
  pub kernel_transaction_count : ℤ
  pub provider_transaction_count : ℤ
  pub matched_count : ℤ
  pub unmatched_kernel_count : ℤ
  pub unmatched_provider_count : ℤ
  pub kernel_total_amount : Option String
  pub provider_total_amount : Option String
  pub started_at : Option ℕ
  pub completed_at : Option ℕ
  pub created_by : Option String

-- a row of `reconciliation.mismatches`, its amounts in the same way
pub record MismatchRow : Type 0 where
  pub mismatch_id : ℕ
  pub report_id : ℕ
  pub mismatch_type : String
  pub kernel_reference : String
  pub kernel_amount : Option String
  pub provider_reference : String
  pub provider_amount : Option String
  pub amount_difference : Option String
  pub discrepancy_reason : String
  pub resolution_status : String
  pub resolution_notes : String
  pub resolved_by : Option ℕ
  pub resolved_at : Option ℕ
  pub created_at : ℕ

pub record World : Type 0 where
  pub reports : List ReportRow
  pub mismatches : List MismatchRow
  -- the statements run so far
  pub statements : ℕ

pub record Env : Type 0 where
  pub fault : ℕ → Option String
  pub now : ℕ → ℕ
  -- whether a session with this tenant, or with none set, sees the row of this identifier
  pub visible : Option ℕ → ℕ → Bool
  -- the two tables, and the text of the error of a statement that does not fit its table
  pub reports_table : Table
  pub mismatches_table : Table
  pub unfit : String
  -- the account of a number, `core.account_registry`
  pub account_of : String → Option ℕ
  pub uuid_text : ℕ → String
  pub new_id : ℕ → ℕ
  pub to_lowercase : String → String

abbrev pub Io : Type 0 → Type 0
Io = Effect World ReconciliationError

unfoldable pub run_status_text : ReconciliationStatus → String
run_status_text pending = "pending"
run_status_text running = "processing"
run_status_text completed = "completed"
run_status_text failed = "failed"
run_status_text partially_resolved = "completed"
run_status_text approved = "completed"

unfoldable pub run_status_of : String → ReconciliationStatus
run_status_of s =
    if str_eq s "pending"
    then pending
    else if str_eq s "processing"
    then running
    else if str_eq s "completed"
    then completed
    else if str_eq s "failed"
    then failed
    else pending

unfoldable pub map_discrepancy_to_mismatch : DiscrepancyType → String
map_discrepancy_to_mismatch missing_internal = "kernel_only"
map_discrepancy_to_mismatch missing_external = "provider_only"
map_discrepancy_to_mismatch amount_mismatch = "amount_diff"
map_discrepancy_to_mismatch status_mismatch = "status_diff"
map_discrepancy_to_mismatch duplicate_internal = "duplicate"
map_discrepancy_to_mismatch duplicate_external = "duplicate"
map_discrepancy_to_mismatch fee_mismatch = "fee_diff"
map_discrepancy_to_mismatch timestamp_mismatch = "date_mismatch"
map_discrepancy_to_mismatch currency_mismatch = "amount_diff"

unfoldable pub discrepancy_of : String → DiscrepancyType
discrepancy_of s =
    if str_eq s "kernel_only"
    then missing_internal
    else if str_eq s "provider_only"
    then missing_external
    else if str_eq s "amount_diff"
    then amount_mismatch
    else if str_eq s "status_diff"
    then status_mismatch
    else if str_eq s "duplicate"
    then duplicate_internal
    else if str_eq s "fee_diff"
    then fee_mismatch
    else if str_eq s "date_mismatch"
    then timestamp_mismatch
    else amount_mismatch

-- the status that a resolution writes, and the action that a status is read as
unfoldable pub resolution_text : ResolutionAction → String
resolution_text correct_internal = "resolved"
resolution_text correct_external = "resolved"
resolution_text create_adjustment = "resolved"
resolution_text ignore = "resolved"
resolution_text approve = "resolved"
resolution_text escalate = "disputed"

unfoldable pub resolution_of : String → Option ResolutionAction
resolution_of s =
    if str_eq s "resolved"
    then some approve
    else if str_eq s "disputed"
    then some escalate
    else if str_eq s "investigating"
    then some ignore
    else none

-- `s.split(c).next()`: the text before the first such character
unfoldable pub before_char : Char → String → String
before_char c String.[] = ""
before_char c (String.◌∷◌ d s) =
    let rest = before_char c s in if code d == code c then "" else String.◌∷◌ d rest

-- `s.trim_start_matches(c)`
unfoldable pub trim_start : Char → String → String
trim_start c String.[] = ""
trim_start c (String.◌∷◌ d s) =
    let rest = trim_start c s in if code d == code c then rest else String.◌∷◌ d s

unfoldable pub unwrap_text : Option String → String
unwrap_text none = ""
unwrap_text (some s) = s

-- `ON CONFLICT (mismatch_id) DO UPDATE SET …`, on a table whose key that is
unfoldable pub upsert_mismatch : MismatchRow → List MismatchRow → List MismatchRow
upsert_mismatch new [] = new ∷ []
upsert_mismatch new (row ∷ rows) =
    if row.mismatch_id == new.mismatch_id
    then record new {
      report_id = row.report_id;
      resolved_by = row.resolved_by;
      created_at = row.created_at;
    }
      ∷ rows
    else row ∷ upsert_mismatch new rows

-- `ON CONFLICT (report_id) DO UPDATE SET …`, on a table whose key that is
unfoldable pub upsert_report : ReportRow → List ReportRow → List ReportRow
upsert_report new [] = new ∷ []
upsert_report new (row ∷ rows) =
    if row.report_id == new.report_id
    then record new {
      provider_id = row.provider_id;
      period_start = row.period_start;
      period_end = row.period_end;
      created_by = row.created_by;
    }
      ∷ rows
    else row ∷ upsert_report new rows

module _ (dec : Decimal) (env : Env) where
  open dec use {Amount}

  -- one statement: it is counted, and fails with a database error or goes on
  unfoldable pub execute : Io (Unit {0})
  execute w =
      let w' = record w { statements = w.statements + 1 } in
      elim (env.fault w.statements) [
        | some message ↦ (err (database_error message), w')
        | none ↦ (ok tt, w')
      ]

  -- an INSERT: it fails too where it does not fit its table
  unfoldable pub execute_insert : Table → Insert → Io (Unit {0})
  unfolding execute accepts
  execute_insert table statement = do
    execute
    if accepts table statement then pure tt else raise (database_error env.unfit)

  unfoldable pub report_of : ReconciliationRun Amount → ReportRow
  unfolding run_status_text day
  report_of run = record {
    report_id = run.run_id;
    provider_id = run.provider_name;
    period_start = run.period_start / day;
    period_end = run.period_end / day;
    status = run_status_text run.status;
    kernel_transaction_count = run.total_records;
    provider_transaction_count = pos 0;
    matched_count = run.matched_count;
    unmatched_kernel_count = run.discrepancy_count;
    unmatched_provider_count = pos 0;
    kernel_total_amount = some (dec.to_text run.internal_total);
    provider_total_amount = some (dec.to_text run.external_total);
    started_at = run.started_at;
    completed_at = run.completed_at;
    created_by = none;
  }

  -- `try_get(…).unwrap_or_else(|_| "0".to_string())`, then `parse().unwrap_or(Decimal::ZERO)`
  unfoldable pub parse_or_zero : Option String → Amount
  parse_or_zero column =
      let text : String = elim column [ some s ↦ s | none ↦ "0" ] in
      elim (dec.parse text) [ some a ↦ a | none ↦ dec.zero ]

  unfoldable pub map_run_row : ReportRow → ℕ → ReconciliationRun Amount
  unfolding run_status_of parse_or_zero unwrap_text day
  map_run_row row tenant_id = record {
    run_id = row.report_id;
    tenant_id = tenant_id;
    provider_name = row.provider_id;
    status = run_status_of (env.to_lowercase row.status);
    period_start = row.period_start * day;
    period_end = row.period_end * day;
    total_records = wrap_i32 (row.kernel_transaction_count +ℤ row.provider_transaction_count);
    matched_count = row.matched_count;
    discrepancy_count = wrap_i32 (row.unmatched_kernel_count +ℤ row.unmatched_provider_count);
    resolved_count = pos 0;
    internal_total = parse_or_zero row.kernel_total_amount;
    external_total = parse_or_zero row.provider_total_amount;
    discrepancy_amount =
        dec.abs (
          dec.sub (parse_or_zero row.kernel_total_amount)
            (parse_or_zero row.provider_total_amount));
    started_at = row.started_at;
    completed_at = row.completed_at;
    initiated_by = unwrap_text row.created_by;
    approved_by = none;
    approved_at = none;
  }

  unfoldable pub mismatch_of : ReconciliationItem Amount → ℕ → MismatchRow
  unfolding map_discrepancy_to_mismatch unwrap_text
  mismatch_of item now = record {
    mismatch_id = item.item_id;
    report_id = item.run_id;
    mismatch_type = map_discrepancy_to_mismatch item.discrepancy_type;
    kernel_reference = item.transaction_id;
    kernel_amount = some (dec.to_text item.internal_amount);
    provider_reference = item.transaction_id;
    provider_amount = some (dec.to_text item.external_amount);
    amount_difference = some (dec.to_text item.difference);
    discrepancy_reason = unwrap_text item.notes;
    resolution_status = if item.resolved then "resolved" else "open";
    resolution_notes = unwrap_text item.notes;
    resolved_by = none;
    resolved_at = item.resolved_at;
    created_at = now;
  }

  unfoldable pub map_item_row : MismatchRow → ReconciliationItem Amount
  unfolding discrepancy_of parse_or_zero resolution_of before_char trim_start
  map_item_row row = record {
    item_id = row.mismatch_id;
    run_id = row.report_id;
    transaction_id = row.kernel_reference;
    discrepancy_type = discrepancy_of (env.to_lowercase row.mismatch_type);
    internal_status = "";
    external_status = "";
    internal_amount = parse_or_zero row.kernel_amount;
    external_amount = parse_or_zero row.provider_amount;
    difference = parse_or_zero row.amount_difference;
    resolved = str_eq row.resolution_status "resolved";
    resolution_action = resolution_of row.resolution_status;
    resolved_by = some (trim_start "[" (before_char "]" row.resolution_notes));
    resolved_at = row.resolved_at;
    notes = some row.resolution_notes;
  }

  unfoldable pub set_tenant : ℕ → Io (Unit {0})
  unfolding execute
  set_tenant tenant_id = execute

  unfoldable pub save_run : ReconciliationRun Amount → Io (Unit {0})
  unfolding set_tenant execute_insert report_insert report_of upsert_report
  save_run run = do
    set_tenant run.tenant_id
    execute_insert env.reports_table report_insert
    λ w. (ok tt, record w { reports = upsert_report (report_of run) w.reports })

  unfoldable pub get_run : ℕ → ℕ → Io (ReconciliationRun Amount)
  unfolding set_tenant execute map_run_row
  get_run run_id tenant_id = do
    set_tenant tenant_id
    execute
    λ w.
        elim (find_if (λ row. env.visible (some tenant_id) row.report_id && row.report_id == run_id)
          w.reports) [
            | some row ↦ (ok (map_run_row row tenant_id), w)
            | none ↦ (err (not_found ("Run " <> env.uuid_text run_id <> " not found")), w)
          ]

  unfoldable pub save_item : ReconciliationItem Amount → Io (Unit {0})
  unfolding execute_insert mismatch_insert mismatch_of upsert_mismatch
  save_item item = do
    execute_insert env.mismatches_table mismatch_insert
    λ w. (
      ok tt,
      record w {
        mismatches = upsert_mismatch (mismatch_of item (env.now w.statements)) w.mismatches;
      },
    )

  unfoldable pub get_item : ℕ → ℕ → Io (ReconciliationItem Amount)
  unfolding set_tenant execute map_item_row
  get_item item_id tenant_id = do
    set_tenant tenant_id
    execute
    λ w.
        elim (find_if
          (λ row. env.visible (some tenant_id) row.mismatch_id && row.mismatch_id == item_id)
          w.mismatches) [
            | some row ↦ (ok (map_item_row row), w)
            | none ↦ (err (not_found ("Item " <> env.uuid_text item_id <> " not found")), w)
          ]

  -- the row after `UPDATE reconciliation.mismatches`
  unfoldable pub resolve_row :
      ℕ → ResolutionAction → String → String → ℕ → MismatchRow → MismatchRow
  unfolding resolution_text action_as_str
  resolve_row item_id action notes resolved_by now row =
      if env.visible none row.mismatch_id && row.mismatch_id == item_id
      then record row {
        resolution_status = resolution_text action;
        resolution_notes = "[" <> action_as_str action <> "] " <> notes;
        resolved_by = env.account_of resolved_by;
        resolved_at = some now;
      }
      else row

  unfoldable pub update_item_resolution : ℕ → ResolutionAction → String → String → Io (Unit {0})
  unfolding execute resolve_row
  update_item_resolution item_id action notes resolved_by = do
    execute
    λ w. (
      ok tt,
      record w {
        mismatches =
            map (resolve_row item_id action notes resolved_by (env.now w.statements)) w.mismatches;
      },
    )
