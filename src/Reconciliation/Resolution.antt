-- ===== src/Reconciliation/Resolution.antt =====
-- The handlers of rust-engine/reconciliation-engine/src/application/handler.rs that resolve
-- discrepancies and report on a run, over the Postgres store.
pub mod Outcome
use ussd_polyglot.Prelude.{ℕ, ◌+◌, List, [], ◌∷◌, String, ◌<>◌}
use ussd_polyglot.Prelude.Int.{ℤ, pos, ◌+ℤ◌}
use ussd_polyglot.Prelude.Decimal.{Decimal}
use ussd_polyglot.Prelude.Result.{ok, err}
use ussd_polyglot.Reconciliation.Domain.{ResolutionAction, ReconciliationItem, ReconciliationRun}
use ussd_polyglot.Reconciliation.Store.{
  Env, Io, ◌>>=◌, ◌>>◌, pure, get_run, get_item, update_item_resolution,
}

module _ (dec : Decimal) (env : Env) where
  open dec use {Amount}

  unfoldable pub get_reconciliation_run : ℕ → ℕ → Io (ReconciliationRun Amount)
  unfolding get_run
  get_reconciliation_run run_id tenant_id = get_run dec env run_id tenant_id

  unfoldable pub resolve_discrepancy :
      ℕ → ℕ → ℕ → ResolutionAction → String → String → Io (ReconciliationItem Amount)
  unfolding update_item_resolution get_item
  resolve_discrepancy item_id run_id tenant_id action notes resolved_by = do
    update_item_resolution dec env item_id action notes resolved_by
    get_item dec env item_id tenant_id

  -- the loop of `bulk_resolve_discrepancies`, with the count so far
  unfoldable pub bulk_from : List ℕ → ResolutionAction → String → String → ℤ → Io ℤ
  unfolding update_item_resolution
  bulk_from [] action notes resolved_by count w = (ok count, w)
  bulk_from (item_id ∷ item_ids) action notes resolved_by count w =
      let (r, w') = update_item_resolution dec env item_id action notes resolved_by w in
      bulk_from item_ids action notes resolved_by (elim r [ ok _ ↦ count +ℤ pos 1 | err e ↦ count ])
        w'

  unfoldable pub bulk_resolve_discrepancies :
      ℕ → ℕ → List ℕ → ResolutionAction → String → String → Io ℤ
  unfolding bulk_from
  bulk_resolve_discrepancies run_id tenant_id item_ids action notes resolved_by =
      bulk_from item_ids action notes resolved_by (pos 0)

  unfoldable pub generate_report : ℕ → ℕ → String → Io (ℕ × String)
  unfolding get_run
  generate_report run_id tenant_id format = do
    run ← get_run dec env run_id tenant_id
    λ w. (
      let report_id = env.new_id w.statements in
          ok (
            report_id,
            "/reports/"
                <> env.uuid_text report_id
                <> "/reconciliation-"
                <> env.uuid_text run.run_id
                <> "."
                <> env.to_lowercase format
                <> "?tenant="
                <> env.uuid_text tenant_id,
          ),
      w,
    )
