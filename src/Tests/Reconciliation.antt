-- ===== src/Tests/Reconciliation.antt =====
-- Two internal transactions against three external ones: a match apart by two within a tolerance of
-- five, one that the provider does not know, and two that only the provider knows.
use mathlib.Core.List.{Permᴰ}
use ussd_polyglot.Prelude.{
  ◌++◌, keep_if, ℕ, ◌+◌, ◌≡◌, refl, none, List, [], ◌∷◌, map, String, length,
}
use ussd_polyglot.Prelude.Int.{ℤ, pos}
use ussd_polyglot.Prelude.Result.{ok}
use ussd_polyglot.Reconciliation.Domain.{InternalTransaction, ExternalTransaction}
use ussd_polyglot.Reconciliation.Matching.{match_transactions}
use ussd_polyglot.Reconciliation.Matching.Marks.{
  is_missing_internal, is_missing_external, is_amount_mismatch,
}
use ussd_polyglot.Reconciliation.Matching.Partition.{
  IsMerge, reports, has_kind, Pair, AreMatches, is_unequal, lost_report, left_report, pair_report,
}
use ussd_polyglot.Reconciliation.Matching.Accounting.{match_transactions_lem}
use ussd_polyglot.Reconciliation.Matching.Maximal.{
  ◌⊑◌, named, AreApart, match_transactions-AreApart,
}
use ussd_polyglot.Reconciliation.Run.{World, Env, Request, start_reconciliation}
use ussd_polyglot.Reconciliation.Run.Outcome.{Ended, start_reconciliation-Ended}
use ussd_polyglot.Tests.Common.{wholes}

abbrev ours : String → String → ℕ → InternalTransaction ℤ ℕ
ours id reference amount = record {
  transaction_id = id;
  reference = reference;
  amount = pos amount;
  currency = "USD";
  status = "completed";
  timestamp = 1;
  metadata = none;
}

abbrev theirs : String → String → ℕ → ExternalTransaction ℤ ℕ
theirs id reference amount = record {
  external_id = id;
  reference = reference;
  amount = pos amount;
  currency = "USD";
  status = "settled";
  timestamp = 1;
  metadata = none;
}

abbrev internal : List (InternalTransaction ℤ ℕ)
internal = ours "t1" "INV-1" 100 ∷ ours "t2" "INV-2" 40 ∷ []

abbrev external : List (ExternalTransaction ℤ ℕ)
external = theirs "x1" "INV-1" 98 ∷ theirs "x2" "INV-1" 100 ∷ theirs "x3" "INV-3" 7 ∷ []

match_transactions_lem_example :
    let items = match_transactions wholes ℕ (λ n. n) 1 (pos 5) internal external in
    (pairs : List (Pair wholes ℕ (λ n. n) 1 (pos 5))) × (lost : List (InternalTransaction ℤ ℕ))
    × (left : List (ExternalTransaction ℤ ℕ)) × AreMatches wholes ℕ (λ n. n) 1 (pos 5) pairs
    × IsMerge internal (map (λ pair. pair.0) pairs) lost
    × Permᴰ external (map (λ pair. pair.1) pairs ++ left)
    × (reports is_missing_external items ≡ map (lost_report wholes ℕ (λ n. n) 1 (pos 5)) lost)
    × (reports is_missing_internal items ≡ map (left_report wholes ℕ (λ n. n) 1 (pos 5)) left)
    × (reports is_amount_mismatch items
        ≡ map
            (pair_report wholes ℕ (λ n. n) 1 (pos 5))
            (keep_if (is_unequal wholes ℕ (λ n. n) 1 (pos 5)) pairs))
    × (length (reports has_kind items) ≡ length items)
match_transactions_lem_example =
    match_transactions_lem wholes ℕ (λ n. n) 1 (pos 5) internal external

abbrev env : Env ℤ ℕ
env = record {
  fault = λ n. none;
  fetch_internal = λ tenant provider start end. ok internal;
  fetch_external = λ provider start end. ok external;
  now = λ n. 10 + n;
  new_run_id = 1;
  new_item_id = λ n. 100 + n;
}

abbrev request : Request ℤ
request = record {
  tenant_id = 5;
  provider_name = "ecocash";
  period_start = 0;
  period_end = 9;
  initiated_by = "ops";
  tolerance = pos 5;
}

abbrev no_runs : World ℤ
no_runs = record { runs = []; items = []; calls = 0 }

start_reconciliation-Ended_example :
    Ended wholes ℕ env
      (λ n. refl)
      request
      no_runs
      (start_reconciliation wholes ℕ env request no_runs)
start_reconciliation-Ended_example =
    start_reconciliation-Ended wholes ℕ env (λ n. refl) request no_runs

match_transactions-AreApart_example :
    let items = match_transactions wholes ℕ (λ n. n) 1 (pos 5) internal external in
    (lost : List (InternalTransaction ℤ ℕ)) × (left : List (ExternalTransaction ℤ ℕ)) × (lost
      ⊑ internal)
    × (left ⊑ external)
    × (named is_missing_external items ≡ map (λ i. i.transaction_id) lost)
    × (named is_missing_internal items ≡ map (λ e. e.external_id) left)
    × AreApart wholes ℕ (λ n. n) 1 (pos 5) lost left
match_transactions-AreApart_example =
    match_transactions-AreApart wholes ℕ (λ n. n) 1 (pos 5) internal external
