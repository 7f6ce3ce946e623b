-- ===== src/Reconciliation/Matching/Marks.antt =====
-- The kinds of the items of match_transactions (application/handler.rs), and what a match marks.
use ussd_polyglot.Prelude.{
  ℕ, suc, ◌≡◌, inl, inr, Bool, true, false, some, List, [], ◌∷◌, arith, Option-cases, length,
}
use ussd_polyglot.Prelude.Decimal.{Decimal}
use ussd_polyglot.Reconciliation.Domain.{
  DiscrepancyType, missing_internal, missing_external, amount_mismatch, InternalTransaction,
  ExternalTransaction,
}
use ussd_polyglot.Reconciliation.Matching.{is_match, first_match}

-- how many flags are set
abbrev pub marks : List Bool → ℕ
marks [] = 0
marks (true ∷ flags) = suc (marks flags)
marks (false ∷ flags) = marks flags

abbrev pub is_missing_internal : DiscrepancyType → Bool
is_missing_internal missing_internal = true
is_missing_internal _ = false

abbrev pub is_missing_external : DiscrepancyType → Bool
is_missing_external missing_external = true
is_missing_external _ = false

abbrev pub is_amount_mismatch : DiscrepancyType → Bool
is_amount_mismatch amount_mismatch = true
is_amount_mismatch _ = false

module _ (dec : Decimal) (V : Type 0) (new_id : ℕ → ℕ) (run_id : ℕ) (tolerance : dec.Amount) where
  open dec use {Amount}

  pub first_match-marks :
      (i : InternalTransaction Amount V) (external : List (ExternalTransaction Amount V))
      (flags : List Bool) {e : ExternalTransaction Amount V} {marked : List Bool}
      → first_match dec V new_id run_id tolerance i external flags ≡ some (e, marked)
      → (length marked ≡ length flags)
        × (marks marked ≡ suc (marks flags))
        × (is_match dec V new_id run_id tolerance i e ≡ true)
  unfolding first_match
  first_match-marks i [] flags h = cc
  first_match-marks i (x ∷ external) [] h = cc
  first_match-marks i (x ∷ external) (matched ∷ flags) {e} {marked} h =
      elim (Option-cases (first_match dec V new_id run_id tolerance i external flags)) [
        | inl nothing ↦ ground arith
        | inr ((e', marked'), found) ↦ ground (arith, first_match-marks i external flags found)
      ]
