-- ===== src/Reconciliation/Schema.antt =====
-- What postgres-schema/V070__reconciliation_settlement.sql declares of `reconciliation.reports` and
-- `reconciliation.mismatches`, and what the two INSERT statements of
-- rust-engine/reconciliation-engine/src/infrastructure/postgres_recon_store.rs ask of them.
use ussd_polyglot.Prelude.{Bool, true, false, not, ◌&&◌, ◌||◌, List, [], ◌∷◌, String, str_eq}
use ussd_polyglot.Prelude.Query.{one_of}

-- what Postgres looks at before it runs an INSERT: the unique keys of a table, its columns of type
-- NUMERIC, and its columns that are NOT NULL and have no default
pub record Table : Type 0 where
  pub unique_keys : List (List String)
  pub numeric : List String
  pub required : List String

-- the columns of an INSERT, those to which it binds a text, and its ON CONFLICT
pub record Insert : Type 0 where
  pub columns : List String
  pub texts : List String
  pub conflict : List String

unfoldable pub same_columns : List String → List String → Bool
same_columns [] [] = true
same_columns [] (d ∷ ds) = false
same_columns (c ∷ cs) [] = false
same_columns (c ∷ cs) (d ∷ ds) = str_eq c d && same_columns cs ds

-- ON CONFLICT wants a unique key of exactly its columns
unfoldable pub has_key : List (List String) → List String → Bool
unfolding same_columns
has_key [] conflict = false
has_key (key ∷ keys) conflict = same_columns key conflict || has_key keys conflict

unfoldable pub all_in : List String → List String → Bool
unfolding one_of
all_in columns [] = true
all_in columns (c ∷ cs) = one_of columns c && all_in columns cs

unfoldable pub none_in : List String → List String → Bool
unfolding one_of
none_in columns [] = true
none_in columns (c ∷ cs) = not (one_of columns c) && none_in columns cs

unfoldable pub accepts : Table → Insert → Bool
unfolding has_key all_in none_in
accepts table statement =
    has_key table.unique_keys statement.conflict
    && none_in table.numeric statement.texts
    && all_in statement.columns table.required

-- the INSERT of `save_run`
unfoldable pub report_insert : Insert
report_insert = record {
  columns =
      "report_id" ∷ "report_reference" ∷ "reconciliation_type" ∷ "provider_id" ∷ "period_start"
      ∷ "period_end" ∷ "status" ∷ "kernel_transaction_count" ∷ "provider_transaction_count"
      ∷ "matched_count" ∷ "unmatched_kernel_count" ∷ "unmatched_provider_count"
      ∷ "kernel_total_amount" ∷ "provider_total_amount" ∷ "started_at" ∷ "completed_at"
      ∷ "created_by" ∷ [];
  texts =
      "report_reference" ∷ "provider_id" ∷ "status" ∷ "kernel_total_amount"
      ∷ "provider_total_amount" ∷ [];
  conflict = "report_id" ∷ [];
}

-- the INSERT of `save_item`
unfoldable pub mismatch_insert : Insert
mismatch_insert = record {
  columns =
      "mismatch_id" ∷ "report_id" ∷ "mismatch_type" ∷ "kernel_reference" ∷ "kernel_amount"
      ∷ "provider_reference" ∷ "provider_amount" ∷ "amount_difference" ∷ "discrepancy_reason"
      ∷ "resolution_status" ∷ "resolution_notes" ∷ "resolved_at" ∷ [];
  texts =
      "mismatch_type" ∷ "kernel_reference" ∷ "kernel_amount" ∷ "provider_reference"
      ∷ "provider_amount" ∷ "amount_difference" ∷ "discrepancy_reason" ∷ "resolution_status"
      ∷ "resolution_notes" ∷ [];
  conflict = "mismatch_id" ∷ [];
}

-- the two tables as V070 declares them
unfoldable pub v070_reports : Table
v070_reports = record {
  unique_keys = ("report_reference" ∷ "created_at" ∷ []) ∷ ("report_id" ∷ "created_at" ∷ []) ∷ [];
  numeric =
      "kernel_total_amount" ∷ "kernel_total_fees" ∷ "provider_total_amount" ∷ "provider_total_fees"
      ∷ "matched_amount" ∷ "unmatched_kernel_amount" ∷ "unmatched_provider_amount" ∷ [];
  required = "application_id" ∷ "reconciliation_type" ∷ "period_start" ∷ "period_end" ∷ [];
}

unfoldable pub v070_mismatches : Table
v070_mismatches = record {
  unique_keys = ("mismatch_id" ∷ "created_at" ∷ []) ∷ [];
  numeric = "kernel_amount" ∷ "provider_amount" ∷ "amount_difference" ∷ [];
  required = "report_id" ∷ "mismatch_type" ∷ [];
}
