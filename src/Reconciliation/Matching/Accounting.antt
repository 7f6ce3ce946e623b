-- ===== src/Reconciliation/Matching/Accounting.antt =====
-- The items of match_transactions (application/handler.rs) account for every transaction once.
use mathlib.Core.List.{Permᴰ}
use mathlib.Core.List.Permᴰ
use ussd_polyglot.Prelude.{
  ℕ, ◌+◌, ◌≡◌, refl, subst, inl, inr, Bool, true, false, some, List, [], ◌∷◌, ◌++◌, map, arith,
  Option-cases, Bool-cases, length, replicate, append-nil, length-append, keep_if, ap,
}
use ussd_polyglot.Prelude.Decimal.{Decimal}
use ussd_polyglot.Reconciliation.Domain.{InternalTransaction, ExternalTransaction}
use ussd_polyglot.Reconciliation.Matching.{
  is_match, first_match, match_internal, report_external, match_transactions,
}
use ussd_polyglot.Reconciliation.Matching.Marks.{
  is_missing_internal, is_missing_external, is_amount_mismatch,
}
use ussd_polyglot.Reconciliation.Matching.Maximal.{left_external, lost_internal}
use ussd_polyglot.Reconciliation.Matching.Partition.{
  IsMerge, reports, reports-append, has_kind, Pair, found_pairs, AreMatches, is_unequal,
  lost_report, left_report, pair_report, found_pairs-IsMerge, found_pairs-AreMatches,
  match_internal-reports, report_external-reports,
}

module _ (dec : Decimal) (V : Type 0) (new_id : ℕ → ℕ) (run_id : ℕ) (tolerance : dec.Amount) where
  open dec use {Amount}

  abbrev Found : Type 0
  Found = ExternalTransaction Amount V × List Bool

  -- the external transactions that are left at some flags are `e` and those that are left at `marked`
  abbrev Takes :
      List (ExternalTransaction Amount V)
      → List Bool
      → ExternalTransaction Amount V
      → List Bool
      → Type 0
  Takes external flags e marked =
      Permᴰ (left_external dec V new_id run_id tolerance external flags)
        (e ∷ left_external dec V new_id run_id tolerance external marked)

  -- a match takes its external transaction from those that are left
  first_match-Perm :
      (i : InternalTransaction Amount V) (external : List (ExternalTransaction Amount V))
      (flags : List Bool) {e : ExternalTransaction Amount V} {marked : List Bool}
      → first_match dec V new_id run_id tolerance i external flags ≡ some (e, marked)
      → Permᴰ
          (left_external dec V new_id run_id tolerance external flags)
          (e ∷ left_external dec V new_id run_id tolerance external marked)
  unfolding first_match
  first_match-Perm i [] flags h = cc
  first_match-Perm i (x ∷ external) [] h = cc
  first_match-Perm i (x ∷ external) (true ∷ flags) {e} {marked} h =
      elim (Option-cases (first_match dec V new_id run_id tolerance i external flags)) [
        | inl nothing ↦ ground (arith, nothing, h)
        | inr ((e', marked'), there) ↦
            let same : ◌≡◌ {A = Found} (e', true ∷ marked') (e, marked) =
              ground (arith, there, h) in
            subst (λ p. Takes (x ∷ external) (true ∷ flags) p.0 p.1) same
              (first_match-Perm i external flags there)
      ]
  first_match-Perm i (x ∷ external) (false ∷ flags) {e} {marked} h =
      elim (Bool-cases (is_match dec V new_id run_id tolerance i x)) [
        | inl yes' ↦
            let same : ◌≡◌ {A = Found} (x, true ∷ flags) (e, marked) = ground (arith, yes', h) in
            subst (λ p. Takes (x ∷ external) (false ∷ flags) p.0 p.1) same (Permᴰ.refl _)
        | inr no' ↦
            elim (Option-cases (first_match dec V new_id run_id tolerance i external flags)) [
              | inl nothing ↦ ground (arith, nothing, no', h)
              | inr ((e', marked'), there) ↦
                  let same : ◌≡◌ {A = Found} (e', false ∷ marked') (e, marked) =
                    ground (arith, there, no', h) in
                  subst (λ p. Takes (x ∷ external) (false ∷ flags) p.0 p.1) same
                    (Permᴰ.trans (Permᴰ.cons refl (first_match-Perm i external flags there))
                      (Permᴰ.swap refl refl))
            ]
      ]

  left_external-Perm :
      (n : ℕ) (internal : List (InternalTransaction Amount V))
      (external : List (ExternalTransaction Amount V)) (flags : List Bool)
      → Permᴰ (left_external dec V new_id run_id tolerance external flags) (
          map (λ pair. pair.1) (found_pairs dec V new_id run_id tolerance internal external flags)
          ++ left_external dec V new_id run_id tolerance external
              (match_internal dec V new_id run_id tolerance n internal external flags).1)
  unfolding found_pairs match_internal
  left_external-Perm n [] external flags = Permᴰ.refl _
  left_external-Perm n (i ∷ internal) external flags =
      elim (Option-cases (first_match dec V new_id run_id tolerance i external flags)) [
        | inl nothing ↦
            rw (nothing, found_pairs, match_internal, map, ◌++◌)
              (left_external-Perm (n + 1) internal external flags)
        | inr ((e, marked), there) ↦
            elim (Bool-cases (dec.leb (dec.abs (dec.sub i.amount e.amount)) dec.zero)) [
              | inl equal ↦
                  rw (there, equal, found_pairs, match_internal, map, ◌++◌)
                    (Permᴰ.trans (first_match-Perm i external flags there)
                      (Permᴰ.cons refl (left_external-Perm n internal external marked)))
              | inr apart ↦
                  rw (there, apart, found_pairs, match_internal, map, ◌++◌)
                    (Permᴰ.trans (first_match-Perm i external flags there)
                      (Permᴰ.cons refl (left_external-Perm (n + 1) internal external marked)))
            ]
      ]

  left_external-replicate :
      (external : List (ExternalTransaction Amount V))
      → left_external dec V new_id run_id tolerance external (replicate (length external) false)
        ≡ external
  left_external-replicate [] = refl
  left_external-replicate (e ∷ external) = ap (λ rest. e ∷ rest) (left_external-replicate external)

  -- Every transaction of both sides is accounted for once. There are some pairs of an internal and an
  -- external transaction that match, some lost internal transactions and some external ones that are
  -- left, such that the internal transactions are those of the pairs and the lost ones, merged in
  -- their order, and the external ones, up to their order, are those of the pairs and those left. The
  -- items of type missing external say of each lost transaction its identifier, status and amount,
  -- those of type missing internal the same of each that is left, those of type amount mismatch say
  -- of each pair whose amounts differ the internal identifier, the two statuses and amounts and the
  -- absolute difference, each kind in the order of its list; and there are no other items.
  pub match_transactions_lem :
      (internal : List (InternalTransaction Amount V))
      (external : List (ExternalTransaction Amount V))
      → let items = match_transactions dec V new_id run_id tolerance internal external in
        (pairs : List (Pair dec V new_id run_id tolerance)) × (lost : List
          (InternalTransaction Amount V))
        × (left : List (ExternalTransaction Amount V)) × AreMatches dec V new_id run_id tolerance
            pairs
        × IsMerge internal (map (λ pair. pair.0) pairs) lost
        × Permᴰ external (map (λ pair. pair.1) pairs ++ left)
        × (reports is_missing_external items ≡ map (lost_report dec V new_id run_id tolerance) lost)
        × (reports is_missing_internal items ≡ map (left_report dec V new_id run_id tolerance) left)
        × (reports is_amount_mismatch items
            ≡ map
                (pair_report dec V new_id run_id tolerance)
                (keep_if (is_unequal dec V new_id run_id tolerance) pairs))
        × (length (reports has_kind items) ≡ length items)
  unfolding match_transactions
  match_transactions_lem internal external =
      let start = replicate (length external) false in
      let matched = match_internal dec V new_id run_id tolerance 0 internal external start in
      let reported =
        report_external dec V new_id run_id tolerance (length matched.0) external matched.1 in
      let (lost, nothing_left, unequal, all) =
        match_internal-reports dec V new_id run_id tolerance 0 internal external start in
      let (left, nothing_lost, none_unequal, all') =
        report_external-reports dec V new_id run_id tolerance (length matched.0) external
          matched.1 in
      (
        found_pairs dec V new_id run_id tolerance internal external start,
        lost_internal dec V new_id run_id tolerance internal external start,
        left_external dec V new_id run_id tolerance external matched.1,
        found_pairs-AreMatches dec V new_id run_id tolerance internal external start,
        found_pairs-IsMerge dec V new_id run_id tolerance internal external start,
        subst
            (λ xs. Permᴰ xs (
              map (λ pair. pair.1)
                (found_pairs dec V new_id run_id tolerance internal external start)
              ++ left_external dec V new_id run_id tolerance external matched.1))
            (left_external-replicate external) (left_external-Perm 0 internal external start),
        rw (reports-append is_missing_external matched.0 reported, nothing_lost, append-nil) lost,
        rw (reports-append is_missing_internal matched.0 reported, nothing_left) left,
        rw (reports-append is_amount_mismatch matched.0 reported, none_unequal, append-nil) unequal,
        ground (
          arith,
          reports-append has_kind matched.0 reported,
          length-append matched.0 reported,
          length-append (reports has_kind matched.0) (reports has_kind reported),
          all,
          all',
        ),
      )
