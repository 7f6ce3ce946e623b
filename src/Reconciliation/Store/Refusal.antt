-- ===== src/Reconciliation/Store/Refusal.antt =====
-- What the store of rust-engine/reconciliation-engine/src/infrastructure/postgres_recon_store.rs does
-- over the tables of postgres-schema/V070__reconciliation_settlement.sql.
use ussd_polyglot.Prelude.{
  ℕ, suc, ◌≡◌, refl, ◌∙◌, ap, inl, inr, false, ◌&&◌, none, some, String, ◌==◌, find_if, arith,
  Option-cases,
}
use ussd_polyglot.Prelude.Decimal.{Decimal}
use ussd_polyglot.Prelude.Result.{Result, ok, err}
use ussd_polyglot.Reconciliation.Domain.{
  ReconciliationItem, ReconciliationRun, ReconciliationError, database_error,
}
use ussd_polyglot.Reconciliation.Schema.{
  Table, Insert, accepts, has_key, same_columns, report_insert, mismatch_insert, v070_reports,
  v070_mismatches,
}
use ussd_polyglot.Reconciliation.Store.{
  MismatchRow, World, Env, execute, execute_insert, map_item_row, set_tenant, save_run, save_item,
  get_item,
}

accepts-v070_reports : accepts v070_reports report_insert ≡ false
unfolding accepts has_key same_columns v070_reports report_insert
accepts-v070_reports = refl

accepts-v070_mismatches : accepts v070_mismatches mismatch_insert ≡ false
unfolding accepts has_key same_columns v070_mismatches mismatch_insert
accepts-v070_mismatches = refl

module _ (dec : Decimal) (env : Env) where
  pub get_item_lem :
      (item_id tenant_id : ℕ) (w : World) (row : MismatchRow)
      → env.fault w.statements ≡ none
      → env.fault (suc w.statements) ≡ none
      → find_if
          (λ r. env.visible (some tenant_id) r.mismatch_id && r.mismatch_id == item_id)
          w.mismatches
        ≡ some row
      → get_item dec env item_id tenant_id w
        ≡ (ok (map_item_row dec env row), record w { statements = suc (suc w.statements) })
  unfolding get_item set_tenant execute
  get_item_lem item_id tenant_id w row up up' found = ground arith

  -- what a refused statement leaves
  abbrev pub IsRefused : Result ReconciliationError (Unit {0}) × World → World → Type 0
  IsRefused done w =
      ((message : String) × (done.0 ≡ err (database_error message)))
      × (done.1.reports ≡ w.reports)
      × (done.1.mismatches ≡ w.mismatches)

  execute_insert-IsRefused :
      (table : Table) (statement : Insert) (w : World)
      → accepts table statement ≡ false
      → IsRefused (execute_insert dec env table statement w) w
  unfolding execute_insert execute
  execute_insert-IsRefused table statement w unfit = elim (Option-cases (env.fault w.statements)) [
    | inl up ↦ (
      (env.unfit, ground (arith, up, unfit)),
      ground (arith, up, unfit),
      ground (arith, up, unfit),
    )
    | inr (message, down) ↦
        ((message, ground (arith, down)), ground (arith, down), ground (arith, down))
  ]

  save_run-IsRefused :
      (run : ReconciliationRun dec.Amount) (w : World)
      → accepts env.reports_table report_insert ≡ false
      → IsRefused (save_run dec env run w) w
  unfolding save_run set_tenant execute
  save_run-IsRefused run w unfit = elim (Option-cases (env.fault w.statements)) [
    | inr (message, down) ↦
        ((message, ground (arith, down)), ground (arith, down), ground (arith, down))
    | inl up ↦
        let w' : World = record w { statements = suc w.statements } in
        let ((message, refused), reports, mismatches) =
          execute_insert-IsRefused env.reports_table report_insert w' unfit in
        (
          (message, ground (arith, up, refused)),
          ground (arith, up, refused, reports),
          ground (arith, up, refused, mismatches),
        )
  ]

  save_item-IsRefused :
      (item : ReconciliationItem dec.Amount) (w : World)
      → accepts env.mismatches_table mismatch_insert ≡ false
      → IsRefused (save_item dec env item w) w
  unfolding save_item
  save_item-IsRefused item w unfit =
      let ((message, refused), reports, mismatches) =
        execute_insert-IsRefused env.mismatches_table mismatch_insert w unfit in
      (
        (message, ground (arith, refused)),
        ground (arith, refused, reports),
        ground (arith, refused, mismatches),
      )

  -- Over the tables that the migration V070 declares, no run and no item is ever saved: whatever run
  -- or item it is and whichever statements fail, `save_run` and `save_item` answer a database error,
  -- and both tables are as they were.
  pub save_run-save_item :
      (run : ReconciliationRun dec.Amount) (item : ReconciliationItem dec.Amount) (w : World)
      → env.reports_table ≡ v070_reports
      → env.mismatches_table ≡ v070_mismatches
      → IsRefused (save_run dec env run w) w × IsRefused (save_item dec env item w) w
  save_run-save_item run item w reports mismatches = (
    save_run-IsRefused run w (ap (λ t. accepts t report_insert) reports ∙ accepts-v070_reports),
    save_item-IsRefused item w
        (ap (λ t. accepts t mismatch_insert) mismatches ∙ accepts-v070_mismatches),
  )
