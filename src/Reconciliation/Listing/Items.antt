-- ===== src/Reconciliation/Listing/Items.antt =====
-- What the list of a run's items has (get_items of infrastructure/postgres_recon_store.rs).
use ussd_polyglot.Prelude.{
  ℕ, ◌≡◌, true, false, some, [], str_eq, get_elem?, keep_if, keep_if_sound, arith,
}
use ussd_polyglot.Prelude.Query.{order_by_sound}
use ussd_polyglot.Prelude.Decimal.{Decimal}
use ussd_polyglot.Reconciliation.Store.{MismatchRow, Env, World}
use ussd_polyglot.Reconciliation.Listing.{created_before, asked_item, item_rows, any_of}

asked_item_unresolved :
    (dec : Decimal) (env : Env) (run_id tenant_id : ℕ) (row : MismatchRow)
    → asked_item dec env run_id tenant_id [] true row ≡ true
    → (row.report_id ≡ run_id)
      × (env.visible (some tenant_id) row.mismatch_id ≡ true)
      × (str_eq row.resolution_status "resolved" ≡ false)
unfolding asked_item any_of
asked_item_unresolved dec env run_id tenant_id row h =
    (ground (arith, h), ground (arith, h), ground (arith, h))

-- The rows of the unresolved items of a run, of any type, are rows of the table, of that run, that
-- the tenant's session sees and that are not resolved.
pub item_rows_unresolved :
    (dec : Decimal) (env : Env) (run_id tenant_id : ℕ) (w : World) (j : ℕ) (row : MismatchRow)
    → get_elem? (item_rows dec env run_id tenant_id [] true w) j ≡ some row
    → ((i : ℕ) × (get_elem? w.mismatches i ≡ some row))
      × (row.report_id ≡ run_id)
      × (env.visible (some tenant_id) row.mismatch_id ≡ true)
      × (str_eq row.resolution_status "resolved" ≡ false)
unfolding item_rows
item_rows_unresolved dec env run_id tenant_id w j row h =
    let asked = asked_item dec env run_id tenant_id [] true in
    let (k, kept) = order_by_sound created_before (keep_if asked w.mismatches) j {x = row} h in
    let (good, i, there) = keep_if_sound asked w.mismatches k {x = row} kept in
    let (same, seen, unresolved) = asked_item_unresolved dec env run_id tenant_id row good in
    ((i, there), same, seen, unresolved)
