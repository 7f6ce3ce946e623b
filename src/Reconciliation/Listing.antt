-- ===== src/Reconciliation/Listing.antt =====
-- The lists of runs and of items: list_runs and get_items of
-- rust-engine/reconciliation-engine/src/infrastructure/postgres_recon_store.rs, which
-- list_reconciliation_runs and get_reconciliation_items of application/handler.rs answer. Rows that
-- an `ORDER BY` does not tell apart may come in any order; here they keep that of the table.
pub mod Items
use ussd_polyglot.Prelude.{
  ℕ, ◌/◌, Bool, true, false, not, ◌&&◌, ◌||◌, Option, none, some, List, [], ◌∷◌, map, String,
  if◌then◌else◌, leb, ◌==◌, str_eq, keep_if,
}
use ussd_polyglot.Prelude.Time.{day}
use ussd_polyglot.Prelude.Decimal.{Decimal}
use ussd_polyglot.Prelude.Query.{order_by, one_of}
use ussd_polyglot.Prelude.Result.{ok, err}
use ussd_polyglot.Reconciliation.Domain.{
  DiscrepancyType, ReconciliationStatus, ReconciliationItem, ReconciliationRun,
}
use ussd_polyglot.Reconciliation.Store.{
  ReportRow, MismatchRow, Env, World, Io, ◌>>=◌, ◌>>◌, run_status_text, map_discrepancy_to_mismatch,
  execute, set_tenant, map_run_row, map_item_row,
}

-- `$1::text IS NULL OR provider_id = $1`
unfoldable pub of_provider : Option String → String → Bool
of_provider none provider_id = true
of_provider (some name) provider_id = str_eq name provider_id

-- `$2::text[] = '{}' OR status = ANY($2)`
unfoldable pub any_of : List String → String → Bool
any_of [] t = true
any_of (s ∷ texts) t = one_of (s ∷ texts) t

-- `ORDER BY started_at DESC NULLS LAST`
unfoldable pub started_before : ReportRow → ReportRow → Bool
started_before a b = elim a.started_at [
  | some s ↦ elim b.started_at [ some t ↦ leb t s | none ↦ true ]
  | none ↦ elim b.started_at [ some t ↦ false | none ↦ true ]
]

-- `ORDER BY created_at DESC`
unfoldable pub created_before : MismatchRow → MismatchRow → Bool
created_before a b = leb b.created_at a.created_at

module _ (dec : Decimal) (env : Env) where
  open dec use {Amount}

  -- the `WHERE` of list_runs, with the rows that the tenant's session sees
  unfoldable pub asked_run : ℕ → Option String → List String → ℕ → ℕ → ReportRow → Bool
  asked_run tenant_id provider_name status_strings start end row =
      env.visible (some tenant_id) row.report_id
      && of_provider provider_name row.provider_id
      && any_of status_strings row.status
      && leb (start / day) row.period_start
      && leb row.period_end (end / day)

  -- the rows of list_runs, in its order
  unfoldable pub run_rows :
      ℕ → Option String → List ReconciliationStatus → ℕ → ℕ → World → List ReportRow
  run_rows tenant_id provider_name statuses start end w = order_by started_before (
      keep_if (asked_run tenant_id provider_name (map run_status_text statuses) start end)
        w.reports)

  unfoldable pub list_runs :
      ℕ → Option String → List ReconciliationStatus → ℕ → ℕ → Io (List (ReconciliationRun Amount))
  unfolding set_tenant execute run_rows map_run_row
  list_runs tenant_id provider_name statuses start end = do
    set_tenant dec env tenant_id
    execute dec env
    λ w. (
      ok (
          map (λ row. map_run_row dec env row tenant_id)
            (run_rows tenant_id provider_name statuses start end w)),
      w,
    )

  -- the `WHERE` of get_items, with the rows that the tenant's session sees
  unfoldable pub asked_item : ℕ → ℕ → List String → Bool → MismatchRow → Bool
  asked_item run_id tenant_id types unresolved_only row =
      env.visible (some tenant_id) row.mismatch_id
      && row.report_id == run_id
      && any_of types row.mismatch_type
      && (not unresolved_only || not (str_eq row.resolution_status "resolved"))

  -- the rows of get_items, in its order
  unfoldable pub item_rows : ℕ → ℕ → List DiscrepancyType → Bool → World → List MismatchRow
  item_rows run_id tenant_id types unresolved_only w = order_by created_before (
      keep_if (asked_item run_id tenant_id (map map_discrepancy_to_mismatch types) unresolved_only)
        w.mismatches)

  unfoldable pub get_items :
      ℕ → ℕ → List DiscrepancyType → Bool → Io (List (ReconciliationItem Amount))
  unfolding set_tenant execute item_rows map_item_row
  get_items run_id tenant_id types unresolved_only = do
    set_tenant dec env tenant_id
    execute dec env
    λ w. (ok (map (map_item_row dec env) (item_rows run_id tenant_id types unresolved_only w)), w)

  unfoldable pub list_reconciliation_runs :
      ℕ → Option String → List ReconciliationStatus → ℕ → ℕ → Io (List (ReconciliationRun Amount))
  unfolding list_runs
  list_reconciliation_runs tenant_id provider_name statuses start end =
      list_runs tenant_id provider_name statuses start end

  unfoldable pub get_reconciliation_items :
      ℕ → ℕ → List DiscrepancyType → Bool → Io (List (ReconciliationItem Amount))
  unfolding get_items
  get_reconciliation_items run_id tenant_id types unresolved_only =
      get_items run_id tenant_id types unresolved_only
