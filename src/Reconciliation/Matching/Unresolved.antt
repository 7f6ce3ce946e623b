-- ===== src/Reconciliation/Matching/Unresolved.antt =====
-- The items that match_transactions (application/handler.rs) pushes are all unresolved.
use ussd_polyglot.Prelude.{
  ℕ, ◌+◌, ◌≡◌, refl, inl, inr, Bool, true, false, List, [], ◌∷◌, ◌++◌, arith, Option-cases, length,
  replicate,
}
use ussd_polyglot.Prelude.Decimal.{Decimal}
use ussd_polyglot.Reconciliation.Domain.{
  InternalTransaction, ExternalTransaction, ReconciliationItem,
}
use ussd_polyglot.Reconciliation.Matching.{
  first_match, match_internal, report_external, match_transactions,
}

abbrev pub AreUnresolved : {A : Type 0} → List (ReconciliationItem A) → Type 0
AreUnresolved [] = Unit
AreUnresolved (item ∷ items) = (item.resolved ≡ false) × AreUnresolved items

append-AreUnresolved :
    {A : Type 0} (xs ys : List (ReconciliationItem A))
    → AreUnresolved xs
    → AreUnresolved ys
    → AreUnresolved (xs ++ ys)
append-AreUnresolved [] ys h k = k
append-AreUnresolved (x ∷ xs) ys (open', h) k = (open', append-AreUnresolved xs ys h k)

module _ (dec : Decimal) (V : Type 0) (new_id : ℕ → ℕ) (run_id : ℕ) (tolerance : dec.Amount) where
  open dec use {Amount}

  match_internal-AreUnresolved :
      (n : ℕ) (internal : List (InternalTransaction Amount V))
      (external : List (ExternalTransaction Amount V)) (flags : List Bool)
      → AreUnresolved (match_internal dec V new_id run_id tolerance n internal external flags).0
  unfolding match_internal
  match_internal-AreUnresolved n [] external flags = tt
  match_internal-AreUnresolved n (i ∷ internal) external flags =
      elim (Option-cases (first_match dec V new_id run_id tolerance i external flags)) [
        | inl nothing ↦ ground (arith, match_internal-AreUnresolved (n + 1) internal external flags)
        | inr ((e, marked), found) ↦ ground (
          arith,
          match_internal-AreUnresolved n internal external marked,
          match_internal-AreUnresolved (n + 1) internal external marked,
        )
      ]

  report_external-AreUnresolved :
      (n : ℕ) (external : List (ExternalTransaction Amount V)) (flags : List Bool)
      → AreUnresolved (report_external dec V new_id run_id tolerance n external flags)
  unfolding report_external
  report_external-AreUnresolved n [] flags = tt
  report_external-AreUnresolved n (e ∷ external) [] = tt
  report_external-AreUnresolved n (e ∷ external) (true ∷ flags) =
      report_external-AreUnresolved n external flags
  report_external-AreUnresolved n (e ∷ external) (false ∷ flags) =
      (refl, report_external-AreUnresolved (n + 1) external flags)

  pub match_transactions-AreUnresolved :
      (internal : List (InternalTransaction Amount V))
      (external : List (ExternalTransaction Amount V))
      → AreUnresolved (match_transactions dec V new_id run_id tolerance internal external)
  unfolding match_transactions
  match_transactions-AreUnresolved internal external =
      let start = replicate (length external) false in
      let matched = match_internal dec V new_id run_id tolerance 0 internal external start in
      append-AreUnresolved matched.0 _ (match_internal-AreUnresolved 0 internal external start)
        (report_external-AreUnresolved (length matched.0) external matched.1)
