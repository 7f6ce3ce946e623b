-- ===== src/Reconciliation/Matching/Maximal.antt =====
-- The matching of match_transactions (application/handler.rs) leaves no pair behind that matches.
use ussd_polyglot.Prelude.{
  ℕ, ◌+◌, ◌≡◌, refl, ◌∙◌, inl, inr, Bool, true, false, none, some, List, [], ◌∷◌, ◌++◌, map, String,
  arith, if◌then◌else◌, Option-cases, length, replicate, append-nil, length-replicate,
}
use ussd_polyglot.Prelude.Decimal.{Decimal}
use ussd_polyglot.Reconciliation.Domain.{
  DiscrepancyType, InternalTransaction, ExternalTransaction, ReconciliationItem,
}
use ussd_polyglot.Reconciliation.Matching.{
  is_match, first_match, match_internal, report_external, match_transactions,
}
use ussd_polyglot.Reconciliation.Matching.Marks.{
  is_missing_internal, is_missing_external, first_match-marks,
}

-- some of the members of a list, in their order
infix 40 ◌⊑◌
pub data ◌⊑◌ {A : Type 0} : List A → List A → Type 0 where
  done : [] ⊑ []
  skip : {xs ys : List A} {y : A} → xs ⊑ ys → xs ⊑ (y ∷ ys)
  keep : {xs ys : List A} {y : A} → xs ⊑ ys → (y ∷ xs) ⊑ (y ∷ ys)

-- the transactions that the items of one kind name
abbrev pub named :
    {A : Type 0} → (DiscrepancyType → Bool) → List (ReconciliationItem A) → List String
named test [] = []
named test (item ∷ items) =
    if test item.discrepancy_type then item.transaction_id ∷ named test items else named test items

named-append :
    {A : Type 0} (test : DiscrepancyType → Bool) (xs ys : List (ReconciliationItem A))
    → named test (xs ++ ys) ≡ named test xs ++ named test ys
named-append test [] ys = refl
named-append test (x ∷ xs) ys = ground (arith, named-append test xs ys)

module _ (dec : Decimal) (V : Type 0) (new_id : ℕ → ℕ) (run_id : ℕ) (tolerance : dec.Amount) where
  open dec use {Amount}

  -- the external transactions that are not marked
  abbrev pub left_external :
      List (ExternalTransaction Amount V) → List Bool → List (ExternalTransaction Amount V)
  left_external [] flags = []
  left_external (e ∷ external) [] = []
  left_external (e ∷ external) (true ∷ flags) = left_external external flags
  left_external (e ∷ external) (false ∷ flags) = e ∷ left_external external flags

  -- an internal transaction that matches none of a list, and a list of such
  abbrev pub IsApart : InternalTransaction Amount V → List (ExternalTransaction Amount V) → Type 0
  IsApart i [] = Unit
  IsApart i (e ∷ external) =
      (is_match dec V new_id run_id tolerance i e ≡ false) × IsApart i external

  abbrev pub AreApart :
      List (InternalTransaction Amount V) → List (ExternalTransaction Amount V) → Type 0
  AreApart [] external = Unit
  AreApart (i ∷ internal) external = IsApart i external × AreApart internal external

  left_external-⊑ :
      (external : List (ExternalTransaction Amount V)) (flags : List Bool)
      → length flags ≡ length external
      → left_external external flags ⊑ external
  left_external-⊑ [] flags h = done
  left_external-⊑ (e ∷ external) [] h = absurd (omega arith)
  left_external-⊑ (e ∷ external) (true ∷ flags) h =
      skip (left_external-⊑ external flags (omega arith))
  left_external-⊑ (e ∷ external) (false ∷ flags) h =
      keep (left_external-⊑ external flags (omega arith))

  first_match-IsApart :
      (i : InternalTransaction Amount V) (external : List (ExternalTransaction Amount V))
      (flags : List Bool)
      → first_match dec V new_id run_id tolerance i external flags ≡ none
      → IsApart i (left_external external flags)
  unfolding first_match
  first_match-IsApart i [] flags h = tt
  first_match-IsApart i (e ∷ external) [] h = tt
  first_match-IsApart i (e ∷ external) (true ∷ flags) h =
      elim (Option-cases (first_match dec V new_id run_id tolerance i external flags)) [
        | inl nothing ↦ first_match-IsApart i external flags nothing
        | inr (found, there) ↦ ground arith
      ]
  first_match-IsApart i (e ∷ external) (false ∷ flags) h =
      elim (Option-cases (first_match dec V new_id run_id tolerance i external flags)) [
        | inl nothing ↦ ground (arith, first_match-IsApart i external flags nothing)
        | inr (found, there) ↦ ground arith
      ]

  -- marking one more leaves fewer to match
  marked-IsApart :
      (j i : InternalTransaction Amount V) (external : List (ExternalTransaction Amount V))
      (flags : List Bool) {e : ExternalTransaction Amount V} {marked : List Bool}
      → first_match dec V new_id run_id tolerance j external flags ≡ some (e, marked)
      → IsApart i (left_external external flags)
      → IsApart i (left_external external marked)
  unfolding first_match
  marked-IsApart j i [] flags h apart = cc
  marked-IsApart j i (x ∷ external) [] h apart = cc
  marked-IsApart j i (x ∷ external) (matched ∷ flags) h apart =
      elim (Option-cases (first_match dec V new_id run_id tolerance j external flags)) [
        | inl nothing ↦ ground arith
        | inr ((e', marked'), found) ↦ ground (arith, marked-IsApart j i external flags found)
      ]

  -- the internal transactions for which the loop finds nothing
  unfoldable pub lost_internal :
      List (InternalTransaction Amount V)
      → List (ExternalTransaction Amount V)
      → List Bool
      → List (InternalTransaction Amount V)
  lost_internal [] external flags = []
  lost_internal (i ∷ internal) external flags =
      elim (first_match dec V new_id run_id tolerance i external flags) [
        | none ↦ i ∷ lost_internal internal external flags
        | some (e, marked) ↦ lost_internal internal external marked
      ]

  lost_internal-⊑ :
      (internal : List (InternalTransaction Amount V))
      (external : List (ExternalTransaction Amount V)) (flags : List Bool)
      → lost_internal internal external flags ⊑ internal
  unfolding lost_internal
  lost_internal-⊑ [] external flags = done
  lost_internal-⊑ (i ∷ internal) external flags =
      elim (Option-cases (first_match dec V new_id run_id tolerance i external flags)) [
        | inl nothing ↦ rw (nothing, lost_internal) (keep (lost_internal-⊑ internal external flags))
        | inr ((e, marked), found) ↦
            rw (found, lost_internal) (skip (lost_internal-⊑ internal external marked))
      ]

  match_internal-IsApart :
      (n : ℕ) (j : InternalTransaction Amount V) (internal : List (InternalTransaction Amount V))
      (external : List (ExternalTransaction Amount V)) (flags : List Bool)
      → IsApart j (left_external external flags)
      → IsApart j (
          left_external external
            (match_internal dec V new_id run_id tolerance n internal external flags).1)
  unfolding match_internal
  match_internal-IsApart n j [] external flags apart = apart
  match_internal-IsApart n j (i ∷ internal) external flags apart =
      elim (Option-cases (first_match dec V new_id run_id tolerance i external flags)) [
        | inl nothing ↦
            ground (arith, match_internal-IsApart (n + 1) j internal external flags apart)
        | inr ((e, marked), found) ↦
            let apart' = marked-IsApart i j external flags found apart in
            ground (
              arith,
              match_internal-IsApart n j internal external marked apart',
              match_internal-IsApart (n + 1) j internal external marked apart',
            )
      ]

  match_internal-AreApart :
      (n : ℕ) (internal : List (InternalTransaction Amount V))
      (external : List (ExternalTransaction Amount V)) (flags : List Bool)
      → AreApart (lost_internal internal external flags) (
          left_external external
            (match_internal dec V new_id run_id tolerance n internal external flags).1)
  unfolding match_internal lost_internal
  match_internal-AreApart n [] external flags = tt
  match_internal-AreApart n (i ∷ internal) external flags =
      elim (Option-cases (first_match dec V new_id run_id tolerance i external flags)) [
        | inl nothing ↦ ground (
          arith,
          match_internal-IsApart (n + 1) i internal external flags
              (first_match-IsApart i external flags nothing),
          match_internal-AreApart (n + 1) internal external flags,
        )
        | inr ((e, marked), found) ↦ ground (
          arith,
          match_internal-AreApart n internal external marked,
          match_internal-AreApart (n + 1) internal external marked,
        )
      ]

  match_internal-named :
      (n : ℕ) (internal : List (InternalTransaction Amount V))
      (external : List (ExternalTransaction Amount V)) (flags : List Bool)
      → let (items, flags') =
          match_internal dec V new_id run_id tolerance n internal external flags in
        (named is_missing_external items
          ≡ map (λ i. i.transaction_id) (lost_internal internal external flags))
        × (named is_missing_internal items ≡ [])
        × (length flags' ≡ length flags)
  unfolding match_internal lost_internal
  match_internal-named n [] external flags = ground arith
  match_internal-named n (i ∷ internal) external flags =
      elim (Option-cases (first_match dec V new_id run_id tolerance i external flags)) [
        | inl nothing ↦ ground (arith, match_internal-named (n + 1) internal external flags)
        | inr ((e, marked), found) ↦ ground (
          arith,
          first_match-marks dec V new_id run_id tolerance i external flags found,
          match_internal-named n internal external marked,
          match_internal-named (n + 1) internal external marked,
        )
      ]

  report_external-named :
      (n : ℕ) (external : List (ExternalTransaction Amount V)) (flags : List Bool)
      → let items = report_external dec V new_id run_id tolerance n external flags in
        (named is_missing_internal items ≡ map (λ e. e.external_id) (left_external external flags))
        × (named is_missing_external items ≡ [])
  unfolding report_external
  report_external-named n [] flags = ground arith
  report_external-named n (e ∷ external) [] = ground arith
  report_external-named n (e ∷ external) (true ∷ flags) = report_external-named n external flags
  report_external-named n (e ∷ external) (false ∷ flags) =
      ground (arith, report_external-named (n + 1) external flags)

  -- The transactions that a run reports as missing do not match each other: the items of type
  -- missing external name some of the internal transactions, those of type missing internal some of
  -- the external ones, in their order, and no transaction of the first matches one of the second.
  pub match_transactions-AreApart :
      (internal : List (InternalTransaction Amount V))
      (external : List (ExternalTransaction Amount V))
      → let items = match_transactions dec V new_id run_id tolerance internal external in
        (lost : List (InternalTransaction Amount V)) × (left : List (ExternalTransaction Amount V))
        × (lost ⊑ internal)
        × (left ⊑ external)
        × (named is_missing_external items ≡ map (λ i. i.transaction_id) lost)
        × (named is_missing_internal items ≡ map (λ e. e.external_id) left)
        × AreApart lost left
  unfolding match_transactions
  match_transactions-AreApart internal external =
      let start = replicate (length external) false in
      let matched = match_internal dec V new_id run_id tolerance 0 internal external start in
      let reported =
        report_external dec V new_id run_id tolerance (length matched.0) external matched.1 in
      let lost = lost_internal internal external start in
      let (lost_named, nothing_left, size) = match_internal-named 0 internal external start in
      let (left_named, nothing_lost) =
        report_external-named (length matched.0) external matched.1 in
      let kept = length-replicate (length external) false in
      (
        lost,
        left_external external matched.1,
        lost_internal-⊑ internal external start,
        left_external-⊑ external matched.1 (size ∙ kept),
        rw (named-append is_missing_external matched.0 reported, nothing_lost, append-nil)
            lost_named,
        rw (named-append is_missing_internal matched.0 reported, nothing_left) left_named,
        match_internal-AreApart 0 internal external start,
      )
