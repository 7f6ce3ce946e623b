-- ===== src/Tests/ReconciliationStore.antt =====
-- An unresolved item and a finished run in the Postgres store of the reconciliation engine.
use ussd_polyglot.Prelude.{ℕ, ◌+◌, ◌≡◌, refl, true, false, none, some, [], ◌∷◌}
use ussd_polyglot.Prelude.Int.{ℤ, pos}
use ussd_polyglot.Prelude.Result.{ok}
use ussd_polyglot.Reconciliation.Domain.{
  duplicate_external, partially_resolved, correct_internal, ReconciliationItem, ReconciliationRun,
  approve, action_as_str,
}
use ussd_polyglot.Reconciliation.Store.{MismatchRow, World, Env, map_item_row, save_item, save_run}
use ussd_polyglot.Reconciliation.Schema.{v070_reports, v070_mismatches}
use ussd_polyglot.Reconciliation.Store.Refusal.{IsRefused, save_run-save_item}
use ussd_polyglot.Reconciliation.Resolution.{resolve_discrepancy}
use ussd_polyglot.Reconciliation.Resolution.Outcome.{noted, resolve_discrepancy_lem}
use ussd_polyglot.Tests.Common.{wholes}

abbrev store_env : Env
store_env = record {
  fault = λ n. none;
  now = λ n. 100 + n;
  visible = λ tenant id. true;
  reports_table = v070_reports;
  mismatches_table = v070_mismatches;
  unfit = "there is no unique or exclusion constraint matching the ON CONFLICT specification";
  account_of = λ number. some 4;
  uuid_text = λ n. "id";
  new_id = λ n. 1000 + n;
  to_lowercase = λ s. s;
}

abbrev empty_store : World
empty_store = record { reports = []; mismatches = []; statements = 0 }

abbrev item : ReconciliationItem ℤ
item = record {
  item_id = 5;
  run_id = 1;
  transaction_id = "t1";
  discrepancy_type = duplicate_external;
  internal_status = "completed";
  external_status = "settled";
  internal_amount = pos 7;
  external_amount = pos 6;
  difference = pos 1;
  resolved = false;
  resolution_action = none;
  resolved_by = none;
  resolved_at = none;
  notes = none;
}

abbrev run : ReconciliationRun ℤ
run = record {
  run_id = 1;
  tenant_id = 2;
  provider_name = "ecocash";
  status = partially_resolved;
  period_start = 86_400_000_001;
  period_end = 172_800_000_000;
  total_records = pos 5;
  matched_count = pos 0;
  discrepancy_count = pos 3;
  resolved_count = pos 0;
  internal_total = pos 140;
  external_total = pos 205;
  discrepancy_amount = pos 49;
  started_at = some 10;
  completed_at = some 12;
  initiated_by = "clerk";
  approved_by = none;
  approved_at = none;
}

abbrev row : MismatchRow
row = record {
  mismatch_id = 5;
  report_id = 1;
  mismatch_type = "amount_diff";
  kernel_reference = "t1";
  kernel_amount = none;
  provider_reference = "t1";
  provider_amount = none;
  amount_difference = none;
  discrepancy_reason = "";
  resolution_status = "open";
  resolution_notes = "";
  resolved_by = none;
  resolved_at = none;
  created_at = 3;
}

abbrev row_store : World
row_store = record empty_store { mismatches = row ∷ [] }

save_run-save_item_example :
    IsRefused wholes store_env (save_run wholes store_env run empty_store) empty_store
    × IsRefused wholes store_env (save_item wholes store_env item empty_store) empty_store
save_run-save_item_example = save_run-save_item wholes store_env run item empty_store refl refl

resolve_discrepancy_lem_example :
    (w' : World) × (now : ℕ) × (resolve_discrepancy wholes store_env 5 1 2 correct_internal "typo"
        "acc" row_store
      ≡ (
        ok (record (map_item_row wholes store_env row) {
          resolved = true;
          resolution_action = some approve;
          resolved_by = some "correct_internal";
          resolved_at = some now;
          notes = some (noted correct_internal "typo");
        }),
        w',
      ))
unfolding action_as_str
resolve_discrepancy_lem_example =
    resolve_discrepancy_lem wholes store_env 5 1 2 correct_internal "typo" "acc" row_store row
      (λ n. refl) refl refl refl
