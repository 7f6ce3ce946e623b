-- ===== src/Reconciliation/Matching.antt =====
-- match_transactions and is_match of
-- rust-engine/reconciliation-engine/src/application/handler.rs.
--
-- `new_id` gives the identifier of the item with that number among the items of a call, for
-- `Uuid::new_v4()`. `matched_external` is the list of the flags, walked beside the transactions.
pub mod Marks
pub mod Unresolved
pub mod Maximal
pub mod Partition
pub mod Accounting
use ussd_polyglot.Prelude.{
  ℕ, ◌+◌, Bool, true, false, ◌&&◌, not, Option, none, some, List, [], ◌∷◌, ◌++◌, String,
  if◌then◌else◌, str_eq, length, replicate,
}
use ussd_polyglot.Prelude.Decimal.{Decimal}
use ussd_polyglot.Reconciliation.Domain.{
  DiscrepancyType, missing_internal, missing_external, amount_mismatch, InternalTransaction,
  ExternalTransaction, ReconciliationItem,
}

-- the flag of a transaction that the search passes over
abbrev pub keep_flag : {E : Type 0} → Bool → Option (E × List Bool) → Option (E × List Bool)
keep_flag flag none = none
keep_flag flag (some (found, flags)) = some (found, flag ∷ flags)

module _ (dec : Decimal) (V : Type 0) (new_id : ℕ → ℕ) (run_id : ℕ) (tolerance : dec.Amount) where
  open dec use {Amount, sub as dec_sub, abs as dec_abs, leb as dec_leb, zero as dec_zero}

  unfoldable pub is_match : InternalTransaction Amount V → ExternalTransaction Amount V → Bool
  is_match internal external =
      not (str_eq internal.reference "")
      && not (str_eq external.reference "")
      && str_eq internal.reference external.reference
      && dec_leb (dec_abs (dec_sub internal.amount external.amount)) tolerance

  -- what the three places that push an item share
  abbrev pub item :
      ℕ
      → String
      → DiscrepancyType
      → String
      → String
      → Amount
      → Amount
      → Amount
      → ReconciliationItem Amount
  item n transaction_id kind internal_status external_status internal_amount external_amount
        difference =
      record {
        item_id = new_id n;
        run_id = run_id;
        transaction_id = transaction_id;
        discrepancy_type = kind;
        internal_status = internal_status;
        external_status = external_status;
        internal_amount = internal_amount;
        external_amount = external_amount;
        difference = difference;
        resolved = false;
        resolution_action = none;
        resolved_by = none;
        resolved_at = none;
        notes = none;
      }

  -- the loop over the external transactions, up to its `break`: the first that is not matched yet
  -- and matches, with the flags after it is marked
  unfoldable pub first_match :
      InternalTransaction Amount V
      → List (ExternalTransaction Amount V)
      → List Bool
      → Option (ExternalTransaction Amount V × List Bool)
  first_match int_txn [] flags = none
  first_match int_txn (ext_txn ∷ external) [] = none
  first_match int_txn (ext_txn ∷ external) (matched ∷ flags) =
      let rest = first_match int_txn external flags in
      if matched
      then keep_flag matched rest
      else if is_match int_txn ext_txn
      then some (ext_txn, true ∷ flags)
      else keep_flag matched rest

  -- the loop over the internal transactions, after `n` items: the items and the flags
  unfoldable pub match_internal :
      ℕ
      → List (InternalTransaction Amount V)
      → List (ExternalTransaction Amount V)
      → List Bool
      → List (ReconciliationItem Amount) × List Bool
  match_internal n [] external flags = ([], flags)
  match_internal n (int_txn ∷ internal) external flags = elim (first_match int_txn external flags) [
    | none ↦
        let (items, flags') = match_internal (n + 1) internal external flags in
        (
          item n int_txn.transaction_id missing_external int_txn.status "" int_txn.amount dec_zero
                int_txn.amount
              ∷ items,
          flags',
        )
    | some (ext_txn, marked) ↦
        let diff = dec_abs (dec_sub int_txn.amount ext_txn.amount) in
        elim (dec_leb diff dec_zero) [
          | true ↦ match_internal n internal external marked
          | false ↦
              let (items, flags') = match_internal (n + 1) internal external marked in
              (
                item n int_txn.transaction_id amount_mismatch int_txn.status ext_txn.status
                      int_txn.amount ext_txn.amount diff
                    ∷ items,
                flags',
              )
        ]
  ]

  -- the loop over the external transactions that no internal one matched
  unfoldable pub report_external :
      ℕ → List (ExternalTransaction Amount V) → List Bool → List (ReconciliationItem Amount)
  report_external n [] flags = []
  report_external n (ext_txn ∷ external) [] = []
  report_external n (ext_txn ∷ external) (true ∷ flags) = report_external n external flags
  report_external n (ext_txn ∷ external) (false ∷ flags) =
      item n ext_txn.external_id missing_internal "" ext_txn.status dec_zero ext_txn.amount
        ext_txn.amount
      ∷ report_external (n + 1) external flags

  unfoldable pub match_transactions :
      List (InternalTransaction Amount V)
      → List (ExternalTransaction Amount V)
      → List (ReconciliationItem Amount)
  match_transactions internal external =
      let (items, flags) = match_internal 0 internal external (replicate (length external) false) in
      items ++ report_external (length items) external flags
