-- ===== src/Reconciliation/Matching/Partition.antt =====
-- What the items of match_transactions (application/handler.rs) say of the transactions.
use ussd_polyglot.Prelude.{
  ℕ, ◌+◌, ◌≡◌, refl, inl, inr, Bool, true, false, not, none, some, List, [], ◌∷◌, ◌++◌, map, String,
  arith, if◌then◌else◌, Option-cases, Bool-cases, length, keep_if,
}
use ussd_polyglot.Prelude.Decimal.{Decimal}
use ussd_polyglot.Reconciliation.Domain.{
  DiscrepancyType, missing_internal, missing_external, amount_mismatch, InternalTransaction,
  ExternalTransaction, ReconciliationItem,
}
use ussd_polyglot.Reconciliation.Matching.{is_match, first_match, match_internal, report_external}
use ussd_polyglot.Reconciliation.Matching.Marks.{
  is_missing_internal, is_missing_external, is_amount_mismatch, first_match-marks,
}
use ussd_polyglot.Reconciliation.Matching.Maximal.{left_external, lost_internal}

-- a list that is merged from two, each in its order
pub data IsMerge {A : Type 0} : List A → List A → List A → Type 0 where
  done : IsMerge [] [] []
  first : {zs xs ys : List A} {x : A} → IsMerge zs xs ys → IsMerge (x ∷ zs) (x ∷ xs) ys
  second : {zs xs ys : List A} {y : A} → IsMerge zs xs ys → IsMerge (y ∷ zs) xs (y ∷ ys)

-- what an item says: the transaction that it names, the two statuses, the two amounts and the
-- difference
abbrev pub Report : Type 0 → Type 0
Report A = String × String × String × A × A × A

abbrev pub report_of : {A : Type 0} → ReconciliationItem A → Report A
report_of item = (
  item.transaction_id, item.internal_status, item.external_status, item.internal_amount,
  item.external_amount, item.difference,
)

-- what the items of one kind say
abbrev pub reports :
    {A : Type 0} → (DiscrepancyType → Bool) → List (ReconciliationItem A) → List (Report A)
reports test [] = []
reports test (item ∷ items) =
    if test item.discrepancy_type then report_of item ∷ reports test items else reports test items

pub reports-append :
    {A : Type 0} (test : DiscrepancyType → Bool) (xs ys : List (ReconciliationItem A))
    → reports test (xs ++ ys) ≡ reports test xs ++ reports test ys
reports-append test [] ys = refl
reports-append test (x ∷ xs) ys = ground (arith, reports-append test xs ys)

-- no item of another kind
abbrev pub has_kind : DiscrepancyType → Bool
has_kind missing_internal = true
has_kind missing_external = true
has_kind amount_mismatch = true
has_kind _ = false

module _ (dec : Decimal) (V : Type 0) (new_id : ℕ → ℕ) (run_id : ℕ) (tolerance : dec.Amount) where
  open dec use {Amount}

  abbrev pub Pair : Type 0
  Pair = InternalTransaction Amount V × ExternalTransaction Amount V

  -- the pairs that the loop finds
  unfoldable pub found_pairs :
      List (InternalTransaction Amount V)
      → List (ExternalTransaction Amount V)
      → List Bool
      → List Pair
  found_pairs [] external flags = []
  found_pairs (i ∷ internal) external flags =
      elim (first_match dec V new_id run_id tolerance i external flags) [
        | none ↦ found_pairs internal external flags
        | some (e, marked) ↦ (i, e) ∷ found_pairs internal external marked
      ]

  abbrev pub AreMatches : List Pair → Type 0
  AreMatches [] = Unit
  AreMatches (pair ∷ pairs) =
      (is_match dec V new_id run_id tolerance pair.0 pair.1 ≡ true) × AreMatches pairs

  -- how far the amounts of a pair are apart, and whether they are
  abbrev pub gap : Pair → Amount
  gap pair = dec.abs (dec.sub pair.0.amount pair.1.amount)

  abbrev pub is_unequal : Pair → Bool
  is_unequal pair = not (dec.leb (gap pair) dec.zero)

  -- what is said of a lost internal transaction, of an external one that is left, and of a pair
  abbrev pub lost_report : InternalTransaction Amount V → Report Amount
  lost_report i = (i.transaction_id, i.status, "", i.amount, dec.zero, i.amount)

  abbrev pub left_report : ExternalTransaction Amount V → Report Amount
  left_report e = (e.external_id, "", e.status, dec.zero, e.amount, e.amount)

  abbrev pub pair_report : Pair → Report Amount
  pair_report pair =
      (pair.0.transaction_id, pair.0.status, pair.1.status, pair.0.amount, pair.1.amount, gap pair)

  pub found_pairs-IsMerge :
      (internal : List (InternalTransaction Amount V))
      (external : List (ExternalTransaction Amount V)) (flags : List Bool)
      → IsMerge internal
          (map (λ pair. pair.0) (found_pairs internal external flags))
          (lost_internal dec V new_id run_id tolerance internal external flags)
  unfolding found_pairs lost_internal
  found_pairs-IsMerge [] external flags = done
  found_pairs-IsMerge (i ∷ internal) external flags =
      elim (Option-cases (first_match dec V new_id run_id tolerance i external flags)) [
        | inl nothing ↦
            rw (nothing, lost_internal, found_pairs)
              (second (found_pairs-IsMerge internal external flags))
        | inr ((e, marked), there) ↦
            rw (there, lost_internal, found_pairs)
              (first (found_pairs-IsMerge internal external marked))
      ]

  pub found_pairs-AreMatches :
      (internal : List (InternalTransaction Amount V))
      (external : List (ExternalTransaction Amount V)) (flags : List Bool)
      → AreMatches (found_pairs internal external flags)
  unfolding found_pairs
  found_pairs-AreMatches [] external flags = tt
  found_pairs-AreMatches (i ∷ internal) external flags =
      elim (Option-cases (first_match dec V new_id run_id tolerance i external flags)) [
        | inl nothing ↦ ground (arith, nothing, found_pairs-AreMatches internal external flags)
        | inr ((e, marked), there) ↦ ground (
          arith,
          there,
          first_match-marks dec V new_id run_id tolerance i external flags there,
          found_pairs-AreMatches internal external marked,
        )
      ]

  pub match_internal-reports :
      (n : ℕ) (internal : List (InternalTransaction Amount V))
      (external : List (ExternalTransaction Amount V)) (flags : List Bool)
      → let items = (match_internal dec V new_id run_id tolerance n internal external flags).0 in
        (reports is_missing_external items
          ≡ map lost_report (lost_internal dec V new_id run_id tolerance internal external flags))
        × (reports is_missing_internal items ≡ [])
        × (reports is_amount_mismatch items
            ≡ map pair_report (keep_if is_unequal (found_pairs internal external flags)))
        × (length (reports has_kind items) ≡ length items)
  unfolding match_internal lost_internal found_pairs
  match_internal-reports n [] external flags = ground arith
  match_internal-reports n (i ∷ internal) external flags =
      elim (Option-cases (first_match dec V new_id run_id tolerance i external flags)) [
        | inl nothing ↦ ground (arith, match_internal-reports (n + 1) internal external flags)
        | inr ((e, marked), there) ↦
            elim (Bool-cases (dec.leb (dec.abs (dec.sub i.amount e.amount)) dec.zero)) [
              | inl equal ↦ ground (arith, match_internal-reports n internal external marked)
              | inr apart ↦ ground (arith, match_internal-reports (n + 1) internal external marked)
            ]
      ]

  pub report_external-reports :
      (n : ℕ) (external : List (ExternalTransaction Amount V)) (flags : List Bool)
      → let items = report_external dec V new_id run_id tolerance n external flags in
        (reports is_missing_internal items
          ≡ map left_report (left_external dec V new_id run_id tolerance external flags))
        × (reports is_missing_external items ≡ [])
        × (reports is_amount_mismatch items ≡ [])
        × (length (reports has_kind items) ≡ length items)
  unfolding report_external
  report_external-reports n [] flags = ground arith
  report_external-reports n (e ∷ external) [] = ground arith
  report_external-reports n (e ∷ external) (true ∷ flags) = report_external-reports n external flags
  report_external-reports n (e ∷ external) (false ∷ flags) =
      ground (arith, report_external-reports (n + 1) external flags)
