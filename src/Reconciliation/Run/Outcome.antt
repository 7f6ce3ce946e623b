-- ===== src/Reconciliation/Run/Outcome.antt =====
-- What a reconciliation leaves behind (application/handler.rs), over a store that fails no call.
use ussd_polyglot.Prelude.{
  ℕ, ◌+◌, ◌<◌, ◌^◌, ◌≡◌, refl, sym, subst, ◌∙◌, ◌⊎◌, inl, inr, not, none, some, List, [], ◌∷◌, ◌++◌,
  arith, if◌then◌else◌, append-nil, append_assoc, length,
}
use ussd_polyglot.Prelude.Int.{as_i32, pos, ltb_ℤ}
use ussd_polyglot.Prelude.Decimal.{Decimal}
use ussd_polyglot.Prelude.Result.{Result, ok, err, Result-cases}
use ussd_polyglot.Reconciliation.Domain.{
  completed, failed, partially_resolved, ReconciliationError, InternalTransaction,
  ExternalTransaction, ReconciliationItem, ReconciliationRun,
}
use ussd_polyglot.Reconciliation.Matching.{match_transactions}
use ussd_polyglot.Reconciliation.Matching.Unresolved.{
  AreUnresolved, match_transactions-AreUnresolved,
}
use ussd_polyglot.Reconciliation.Run.{
  World, Env, Request, count_where, save_run, save_items, started_run, counted_run, closed_run,
  complete_run, fail_run, start_reconciliation,
}

count_resolved :
    {A : Type 0} (items : List (ReconciliationItem A))
    → AreUnresolved items
    → (count_where (λ i. i.resolved) items ≡ 0)
      × (count_where (λ i. not i.resolved) items ≡ length items)
unfolding count_where
count_resolved [] h = (refl, refl)
count_resolved (item ∷ items) (open', h) = ground (arith, count_resolved items h)

as_i32_small : (n : ℕ) → n < 2 ^ 31 → as_i32 n ≡ pos n
unfolding as_i32
as_i32_small n h = ground arith

module _ (dec : Decimal) (V : Type 0) (env : Env dec.Amount V)
    (quiet : (n : ℕ) → env.fault n ≡ none) where
  open dec use {Amount}

  save_run_quiet :
      (run : ReconciliationRun Amount) (w : World Amount)
      → save_run dec V env run w
        ≡ (ok tt, record w { runs = w.runs ++ run ∷ []; calls = w.calls + 1 })
  unfolding save_run
  save_run_quiet run w = ground (arith, quiet w.calls)

  save_items_quiet :
      (items : List (ReconciliationItem Amount)) (w : World Amount)
      → save_items dec V env items w
        ≡ (ok tt, record w { items = w.items ++ items; calls = w.calls + length items })
  unfolding save_items
  save_items_quiet [] w = ground (arith, append-nil w.items)
  save_items_quiet (item ∷ items) w = ground (
    arith,
    quiet w.calls,
    append_assoc w.items (item ∷ []) items,
    save_items_quiet items (record w { items = w.items ++ item ∷ []; calls = w.calls + 1 }),
  )

  fail_run_quiet :
      (run : ReconciliationRun Amount) (e : ReconciliationError) (w : World Amount)
      → let stopped = record run { status = failed; completed_at = some (env.now w.calls) } in
        fail_run dec V env run e w
        ≡ (err e, record w { runs = w.runs ++ stopped ∷ []; calls = w.calls + 1 })
  unfolding fail_run
  fail_run_quiet run e w = ground (
    arith,
    save_run_quiet (record run { status = failed; completed_at = some (env.now w.calls) }) w,
  )

  abbrev pub found_items :
      Request Amount
      → ℕ
      → List (InternalTransaction Amount V)
      → List (ExternalTransaction Amount V)
      → List (ReconciliationItem Amount)
  found_items req run_id internal external =
      match_transactions dec V env.new_item_id run_id req.tolerance internal external

  complete_run_quiet :
      (req : Request Amount) (run : ReconciliationRun Amount)
      (internal : List (InternalTransaction Amount V))
      (external : List (ExternalTransaction Amount V)) (w : World Amount)
      → let items = found_items req run.run_id internal external in
        let closed =
          closed_run dec V env
            (counted_run dec V env run internal external items)
            (env.now (w.calls + length items)) in
        complete_run dec V env req run internal external w ≡ (
          ok closed,
          record w {
            runs = w.runs ++ closed ∷ [];
            items = w.items ++ items;
            calls = w.calls + length items + 1;
          },
        )
  unfolding complete_run
  complete_run_quiet req run internal external w =
      let items = found_items req run.run_id internal external in
      let w' = record w { items = w.items ++ items; calls = w.calls + length items } in
      let closed =
        closed_run dec V env (counted_run dec V env run internal external items)
          (env.now (w.calls + length items)) in
      ground (arith, save_items_quiet items w, save_run_quiet closed w')

  -- how a call of `start_reconciliation` ends
  abbrev pub Ended :
      Request Amount
      → World Amount
      → Result ReconciliationError (ReconciliationRun Amount) × World Amount
      → Type 0
  Ended req w ended =
      let started = started_run dec V env req (env.now w.calls) in
      let fetched =
        env.fetch_internal req.tenant_id req.provider_name req.period_start req.period_end in
      let stated = env.fetch_external req.provider_name req.period_start req.period_end in
      ((e : ReconciliationError) × (stopped : ReconciliationRun Amount) × ((fetched ≡ err e)
          ⊎ (stated ≡ err e))
        × (ended.0 ≡ err e)
        × (stopped.status ≡ failed)
        × (stopped.run_id ≡ started.run_id)
        × (ended.1.runs ≡ w.runs ++ started ∷ stopped ∷ [])
        × (ended.1.items ≡ w.items))
      ⊎ ((internal : List (InternalTransaction Amount V)) × (external : List
            (ExternalTransaction Amount V))
          × (run : ReconciliationRun Amount) × (fetched ≡ ok internal)
          × (stated ≡ ok external)
          × (ended.0 ≡ ok run)
          × (run.run_id ≡ started.run_id)
          × (run.total_records ≡ as_i32 (length internal + length external))
          × (run.matched_count ≡ as_i32 0)
          × (run.discrepancy_count
              ≡ as_i32 (length (found_items req started.run_id internal external)))
          × (run.status ≡ (
              if ltb_ℤ (pos 0) (as_i32 (length (found_items req started.run_id internal external)))
              then partially_resolved
              else completed))
          × (ended.1.runs ≡ w.runs ++ started ∷ run ∷ [])
          × (ended.1.items ≡ w.items ++ found_items req started.run_id internal external))

  closed_run_lem :
      (req : Request Amount) (run : ReconciliationRun Amount) (now : ℕ)
      (internal : List (InternalTransaction Amount V))
      (external : List (ExternalTransaction Amount V))
      → let items = found_items req run.run_id internal external in
        let closed = closed_run dec V env (counted_run dec V env run internal external items) now in
        (closed.run_id ≡ run.run_id)
        × (closed.total_records ≡ as_i32 (length internal + length external))
        × (closed.matched_count ≡ as_i32 0)
        × (closed.discrepancy_count ≡ as_i32 (length items))
        × (closed.status
            ≡ (if ltb_ℤ (pos 0) (as_i32 (length items)) then partially_resolved else completed))
  unfolding closed_run counted_run
  closed_run_lem req run now internal external =
      let items = found_items req run.run_id internal external in
      let (none_resolved, all_open) = count_resolved items (
        match_transactions-AreUnresolved dec V env.new_item_id run.run_id req.tolerance internal
          external) in
      rw (none_resolved, all_open) (refl, refl, refl, refl, refl)

  module _ (req : Request Amount) (w : World Amount) where
    abbrev started : ReconciliationRun Amount
    started = started_run dec V env req (env.now w.calls)

    abbrev after_start : World Amount
    after_start = record w { runs = w.runs ++ started ∷ []; calls = w.calls + 1 }

    abbrev fetched : Result ReconciliationError (List (InternalTransaction Amount V))
    fetched = env.fetch_internal req.tenant_id req.provider_name req.period_start req.period_end

    abbrev stated : Result ReconciliationError (List (ExternalTransaction Amount V))
    stated = env.fetch_external req.provider_name req.period_start req.period_end

    start_lost_internal :
        {e : ReconciliationError}
        → fetched ≡ err e
        → start_reconciliation dec V env req w ≡ fail_run dec V env started e after_start
    unfolding start_reconciliation
    start_lost_internal lost = ground (arith, save_run_quiet started w)

    start_lost_external :
        {e : ReconciliationError} {internal : List (InternalTransaction Amount V)}
        → fetched ≡ ok internal
        → stated ≡ err e
        → start_reconciliation dec V env req w ≡ fail_run dec V env started e after_start
    unfolding start_reconciliation
    start_lost_external found lost = ground (arith, save_run_quiet started w)

    start_both :
        {internal : List (InternalTransaction Amount V)}
        {external : List (ExternalTransaction Amount V)}
        → fetched ≡ ok internal
        → stated ≡ ok external
        → start_reconciliation dec V env req w
          ≡ complete_run dec V env req started internal external after_start
    unfolding start_reconciliation
    start_both found found' = ground (arith, save_run_quiet started w)

    fail_run-Ended :
        (e : ReconciliationError)
        → (fetched ≡ err e) ⊎ (stated ≡ err e)
        → Ended req w (fail_run dec V env started e after_start)
    fail_run-Ended e lost =
        let stopped = record started {
          status = failed;
          completed_at = some (env.now after_start.calls);
        } in
        subst (Ended req w) (sym (fail_run_quiet started e after_start)) (
          inl (
            e,
            stopped,
            lost,
            refl,
            refl,
            refl,
            append_assoc w.runs (started ∷ []) (stopped ∷ []),
            refl,
          ))

  -- Over a store that fails no call, a reconciliation ends in one of two ways. A source or the
  -- provider's statement failed: its error is returned, the run is saved as started and again as
  -- failed, and no item is saved. Or both were read: exactly the items that the matching finds
  -- are saved, and the run is saved as started and again as it is returned; its count of records
  -- is that of both sides and its count of discrepancies that of the items, as 32-bit integers,
  -- its status says whether that count is above 0, and its count of matches is 0, however many
  -- transactions match.
  pub start_reconciliation-Ended :
      (req : Request Amount) (w : World Amount) → Ended req w (start_reconciliation dec V env req w)
  start_reconciliation-Ended req w = elim (Result-cases (fetched req w)) [
    | inr (e, lost) ↦
        subst (Ended req w) (sym (start_lost_internal req w lost))
          (fail_run-Ended req w e (inl lost))
    | inl (internal, found) ↦ elim (Result-cases (stated req w)) [
      | inr (e, lost) ↦
          subst (Ended req w) (sym (start_lost_external req w found lost))
            (fail_run-Ended req w e (inr lost))
      | inl (external, found') ↦
          let run = started req w in
          let w' = after_start req w in
          let items = found_items req run.run_id internal external in
          let now = env.now (w'.calls + length items) in
          let closed =
            closed_run dec V env (counted_run dec V env run internal external items) now in
          let (same_id, total, matched, discrepancies, status) =
            closed_run_lem req run now internal external in
          subst (Ended req w)
            (sym (start_both req w found found' ∙ complete_run_quiet req run internal external w'))
            (inr (
              internal,
              external,
              closed,
              found,
              found',
              refl,
              same_id,
              total,
              matched,
              discrepancies,
              status,
              append_assoc w.runs (run ∷ []) (closed ∷ []),
              refl,
            ))
    ]
  ]
