-- ===== src/Ledger/Codes.antt =====
-- All codes of rust-engine/ledger-query-service/src/domain/ together.
use ussd_polyglot.Ledger.Inverse.{AreInverse}
use ussd_polyglot.Ledger.AccountType.{
  as_i32 as account_type_code, from_i32 as account_type_of, account_type_inverse,
}
use ussd_polyglot.Ledger.LiquidityPositionType.{
  as_i32 as liquidity_position_type_code, from_i32 as liquidity_position_type_of,
  liquidity_position_type_inverse,
}
use ussd_polyglot.Ledger.LiquidityPositionStatus.{
  as_i32 as liquidity_position_status_code, from_i32 as liquidity_position_status_of,
  liquidity_position_status_inverse,
}
use ussd_polyglot.Ledger.SettlementType.{
  as_i32 as settlement_type_code, from_i32 as settlement_type_of, settlement_type_inverse,
}
use ussd_polyglot.Ledger.SettlementStatus.{
  as_i32 as settlement_status_code, from_i32 as settlement_status_of, settlement_status_inverse,
}
use ussd_polyglot.Ledger.SuspenseCategory.{
  as_i32 as suspense_category_code, from_i32 as suspense_category_of, suspense_category_inverse,
}
use ussd_polyglot.Ledger.SuspenseStatus.{
  as_i32 as suspense_status_code, from_i32 as suspense_status_of, suspense_status_inverse,
}
use ussd_polyglot.Ledger.SuspenseResolutionType.{
  as_i32 as suspense_resolution_type_code, from_i32 as suspense_resolution_type_of,
  suspense_resolution_type_inverse,
}
use ussd_polyglot.Ledger.TransactionType.{
  as_i32 as transaction_type_code, from_i32 as transaction_type_of, transaction_type_inverse,
}
use ussd_polyglot.Ledger.VirtualAccountType.{
  as_i32 as virtual_account_type_code, from_i32 as virtual_account_type_of,
  virtual_account_type_inverse,
}
use ussd_polyglot.Ledger.VirtualAccountStatus.{
  as_i32 as virtual_account_status_code, from_i32 as virtual_account_status_of,
  virtual_account_status_inverse,
}

-- For each of the eleven enumerations of the read models, decoding the code of a value gives that
-- value, and a number that decodes at all is the code of what it decodes to.
pub codes_inverse :
    AreInverse account_type_code account_type_of
    × AreInverse liquidity_position_type_code liquidity_position_type_of
    × AreInverse liquidity_position_status_code liquidity_position_status_of
    × AreInverse settlement_type_code settlement_type_of
    × AreInverse settlement_status_code settlement_status_of
    × AreInverse suspense_category_code suspense_category_of
    × AreInverse suspense_status_code suspense_status_of
    × AreInverse suspense_resolution_type_code suspense_resolution_type_of
    × AreInverse transaction_type_code transaction_type_of
    × AreInverse virtual_account_type_code virtual_account_type_of
    × AreInverse virtual_account_status_code virtual_account_status_of
codes_inverse = (
  account_type_inverse, liquidity_position_type_inverse, liquidity_position_status_inverse,
  settlement_type_inverse, settlement_status_inverse, suspense_category_inverse,
  suspense_status_inverse, suspense_resolution_type_inverse, transaction_type_inverse,
  virtual_account_type_inverse, virtual_account_status_inverse,
)
