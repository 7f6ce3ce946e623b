-- ===== src/Reconciliation/Run.antt =====
-- start_reconciliation of rust-engine/reconciliation-engine/src/application/handler.rs.
--
-- The store, the source of transactions and the provider's statement are ports. `World` holds what
-- the store was given, in its order; `Env` holds which call of the store fails and with what error,
-- what the two sources answer, the clock by the number of the store's calls so far, and the
-- identifiers that `Uuid::new_v4()` gives.
pub mod Outcome
use ussd_polyglot.Prelude.{
  ℕ, ◌+◌, ◌%◌, ◌^◌, Bool, true, false, not, Option, none, some, List, [], ◌∷◌, ◌++◌, map, String,
  if◌then◌else◌, ltb, length,
}
use ussd_polyglot.Prelude.Int.{as_i32, ℤ, pos, sub_ℕ, ltb_ℤ}
use ussd_polyglot.Prelude.Decimal.{Decimal}
use ussd_polyglot.Prelude.Effect.{Effect}
pub use ussd_polyglot.Prelude.Effect.{◌>>=◌, ◌>>◌}
use ussd_polyglot.Prelude.Result.{Result, ok, err}
use ussd_polyglot.Reconciliation.Domain.{
  ReconciliationStatus, running, completed, failed, partially_resolved, ReconciliationError,
  InternalTransaction, ExternalTransaction, ReconciliationItem, ReconciliationRun, new_run,
}
use ussd_polyglot.Reconciliation.Matching.{match_transactions}

pub record World (A : Type 0) : Type 0 where
  pub runs : List (ReconciliationRun A)
  pub items : List (ReconciliationItem A)
  -- the calls of the store so far
  pub calls : ℕ

pub record Env (A V : Type 0) : Type 0 where
  pub fault : ℕ → Option ReconciliationError
  pub fetch_internal :
      ℕ → String → ℕ → ℕ → Result ReconciliationError (List (InternalTransaction A V))
  pub fetch_external : String → ℕ → ℕ → Result ReconciliationError (List (ExternalTransaction A V))
  pub now : ℕ → ℕ
  pub new_run_id : ℕ
  pub new_item_id : ℕ → ℕ

-- the arguments of the call
pub record Request (A : Type 0) : Type 0 where
  pub tenant_id : ℕ
  pub provider_name : String
  pub period_start : ℕ
  pub period_end : ℕ
  pub initiated_by : String
  pub tolerance : A

abbrev pub Io : Type 0 → Type 0 → Type 0
Io A = Effect (World A) ReconciliationError

-- `items.iter().filter(test).count()`
unfoldable pub count_where : {B : Type 0} → (B → Bool) → List B → ℕ
count_where test [] = 0
count_where test (x ∷ xs) = let rest = count_where test xs in if test x then rest + 1 else rest

module _ (dec : Decimal) (V : Type 0) (env : Env dec.Amount V) where
  open dec use {Amount, add as dec_add, abs as dec_abs, zero as dec_zero}

  -- `iter().sum()`
  unfoldable pub sum_from : Amount → List Amount → Amount
  sum_from total [] = total
  sum_from total (x ∷ xs) = sum_from (dec_add total x) xs

  -- one call of the store: it is counted, and fails or writes
  unfoldable pub store_call : (World Amount → World Amount) → Io Amount (Unit {0})
  store_call write w =
      let w' = record w { calls = w.calls + 1 } in
      elim (env.fault w.calls) [ some e ↦ (err e, w') | none ↦ (ok tt, write w') ]

  unfoldable pub save_run : ReconciliationRun Amount → Io Amount (Unit {0})
  unfolding store_call
  save_run run = store_call (λ w. record w { runs = w.runs ++ run ∷ [] })

  -- `for item in &items { self.store.save_item(item).await?; }`
  unfoldable pub save_items : List (ReconciliationItem Amount) → Io Amount (Unit {0})
  unfolding store_call
  save_items [] w = (ok tt, w)
  save_items (item ∷ items) w =
      (store_call (λ w. record w { items = w.items ++ item ∷ [] }) >> save_items items) w

  unfoldable pub started_run : Request Amount → ℕ → ReconciliationRun Amount
  started_run req now =
      record (new_run dec env.new_run_id req.tenant_id req.provider_name req.period_start
        req.period_end req.initiated_by) { status = running; started_at = some now }

  -- the run after the items are found: its totals and its counts
  unfoldable pub counted_run :
      ReconciliationRun Amount
      → List (InternalTransaction Amount V)
      → List (ExternalTransaction Amount V)
      → List (ReconciliationItem Amount)
      → ReconciliationRun Amount
  counted_run run internal external items = record run {
    internal_total = sum_from dec_zero (map (λ t. t.amount) internal);
    external_total = sum_from dec_zero (map (λ t. t.amount) external);
    total_records = as_i32 (length internal + length external);
    matched_count = as_i32 (count_where (λ i. i.resolved) items);
    discrepancy_count = as_i32 (count_where (λ i. not i.resolved) items);
    discrepancy_amount = sum_from dec_zero (map (λ i. dec_abs i.difference) items);
  }

  unfoldable pub closed_run : ReconciliationRun Amount → ℕ → ReconciliationRun Amount
  closed_run run now = record run {
    status = (if ltb_ℤ (pos 0) run.discrepancy_count then partially_resolved else completed);
    completed_at = some now;
  }

  -- what follows the arm `(Ok(i), Ok(e))`
  unfoldable pub complete_run :
      Request Amount
      → ReconciliationRun Amount
      → List (InternalTransaction Amount V)
      → List (ExternalTransaction Amount V)
      → Io Amount (ReconciliationRun Amount)
  complete_run req run internal external w =
      let items =
        match_transactions dec V env.new_item_id run.run_id req.tolerance internal external in
      let counted = counted_run run internal external items in
      (save_items items >> λ w.
      (let closed = closed_run counted (env.now w.calls) in
        (save_run closed >> λ w. (ok closed, w)) w))
        w

  -- the arm `(Err(e), _) | (_, Err(e))`
  unfoldable pub fail_run :
      ReconciliationRun Amount → ReconciliationError → Io Amount (ReconciliationRun Amount)
  fail_run run e w =
      let stopped = record run { status = failed; completed_at = some (env.now w.calls) } in
      (save_run stopped >> λ w. (err e, w)) w

  unfoldable pub start_reconciliation : Request Amount → Io Amount (ReconciliationRun Amount)
  start_reconciliation req w =
      let run = started_run req (env.now w.calls) in
      (save_run run >> λ w.
      elim (env.fetch_internal req.tenant_id req.provider_name req.period_start req.period_end) [
        | err e ↦ fail_run run e w
        | ok internal ↦
            elim (env.fetch_external req.provider_name req.period_start req.period_end) [
              | err e ↦ fail_run run e w
              | ok external ↦ complete_run req run internal external w
            ]
      ])
        w
