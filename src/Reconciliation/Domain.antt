-- ===== src/Reconciliation/Domain.antt =====
-- rust-engine/reconciliation-engine/src/domain/: discrepancies, runs, items and transactions. The
-- `metadata` of a transaction, a JSON value that nothing reads, has the type `V` of its parameter.
use ussd_polyglot.Prelude.{ℕ, Bool, Option, none, String}
use ussd_polyglot.Prelude.Int.{ℤ, pos}
use ussd_polyglot.Prelude.Decimal.{Decimal}

pub data DiscrepancyType : Type 0 where
  missing_internal missing_external amount_mismatch status_mismatch : DiscrepancyType
  duplicate_internal duplicate_external fee_mismatch : DiscrepancyType
  timestamp_mismatch currency_mismatch : DiscrepancyType

pub data ResolutionAction : Type 0 where
  correct_internal correct_external create_adjustment ignore escalate approve : ResolutionAction

pub data ReconciliationStatus : Type 0 where
  pending running completed failed partially_resolved approved : ReconciliationStatus

-- `ResolutionAction::as_str`
unfoldable pub action_as_str : ResolutionAction → String
action_as_str correct_internal = "correct_internal"
action_as_str correct_external = "correct_external"
action_as_str create_adjustment = "create_adjustment"
action_as_str ignore = "ignore"
action_as_str escalate = "escalate"
action_as_str approve = "approve"

pub data ReconciliationError : Type 0 where
  invalid_argument : String → ReconciliationError
  not_found : String → ReconciliationError
  database_error : String → ReconciliationError
  provider_error : String → ReconciliationError
  already_running : ReconciliationError
  invalid_status_transition : String → String → ReconciliationError
  store_error : String → ReconciliationError

pub record InternalTransaction (A V : Type 0) : Type 0 where
  pub transaction_id : String
  pub reference : String
  pub amount : A
  pub currency : String
  pub status : String
  pub timestamp : ℕ
  pub metadata : Option V

pub record ExternalTransaction (A V : Type 0) : Type 0 where
  pub external_id : String
  pub reference : String
  pub amount : A
  pub currency : String
  pub status : String
  pub timestamp : ℕ
  pub metadata : Option V

pub record ReconciliationItem (A : Type 0) : Type 0 where
  pub item_id : ℕ
  pub run_id : ℕ
  pub transaction_id : String
  pub discrepancy_type : DiscrepancyType
  pub internal_status : String
  pub external_status : String
  pub internal_amount : A
  pub external_amount : A
  pub difference : A
  pub resolved : Bool
  pub resolution_action : Option ResolutionAction
  pub resolved_by : Option String
  pub resolved_at : Option ℕ
  pub notes : Option String

pub record ReconciliationRun (A : Type 0) : Type 0 where
  pub run_id : ℕ
  pub tenant_id : ℕ
  pub provider_name : String
  pub status : ReconciliationStatus
  pub period_start : ℕ
  pub period_end : ℕ
  pub total_records : ℤ
  pub matched_count : ℤ
  pub discrepancy_count : ℤ
  pub resolved_count : ℤ
  pub internal_total : A
  pub external_total : A
  pub discrepancy_amount : A
  pub started_at : Option ℕ
  pub completed_at : Option ℕ
  pub initiated_by : String
  pub approved_by : Option String
  pub approved_at : Option ℕ

-- `ReconciliationRun::new`
unfoldable pub new_run :
    (dec : Decimal) → ℕ → ℕ → String → ℕ → ℕ → String → ReconciliationRun dec.Amount
new_run dec run_id tenant_id provider_name period_start period_end initiated_by = record {
  run_id = run_id;
  tenant_id = tenant_id;
  provider_name = provider_name;
  status = pending;
  period_start = period_start;
  period_end = period_end;
  total_records = pos 0;
  matched_count = pos 0;
  discrepancy_count = pos 0;
  resolved_count = pos 0;
  internal_total = dec.zero;
  external_total = dec.zero;
  discrepancy_amount = dec.zero;
  started_at = none;
  completed_at = none;
  initiated_by = initiated_by;
  approved_by = none;
  approved_at = none;
}
