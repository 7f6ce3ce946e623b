-- ===== src/Ledger/TransactionType.antt =====
-- The codes of `TransactionType` in rust-engine/ledger-query-service/src/domain/transaction.rs.
use ussd_polyglot.Prelude.{◌≡◌, refl, Option, none, some, if◌then◌else◌, arith}
use ussd_polyglot.Prelude.Int.{ℤ, pos, eq_ℤ, eq_ℤ_sound}
use ussd_polyglot.Ledger.Inverse.{AreInverse}

pub data TransactionType : Type 0 where
  unspecified credit debit hold release adjustment reversal fee settlement interest :
      TransactionType

unfoldable pub as_i32 : TransactionType → ℤ
as_i32 unspecified = pos 0
as_i32 credit = pos 1
as_i32 debit = pos 2
as_i32 hold = pos 3
as_i32 release = pos 4
as_i32 adjustment = pos 5
as_i32 reversal = pos 6
as_i32 fee = pos 7
as_i32 settlement = pos 8
as_i32 interest = pos 9

unfoldable pub from_i32 : ℤ → Option TransactionType
from_i32 v =
    if eq_ℤ v (pos 0)
    then some unspecified
    else if eq_ℤ v (pos 1)
    then some credit
    else if eq_ℤ v (pos 2)
    then some debit
    else if eq_ℤ v (pos 3)
    then some hold
    else if eq_ℤ v (pos 4)
    then some release
    else if eq_ℤ v (pos 5)
    then some adjustment
    else if eq_ℤ v (pos 6)
    then some reversal
    else if eq_ℤ v (pos 7)
    then some fee
    else if eq_ℤ v (pos 8)
    then some settlement
    else if eq_ℤ v (pos 9)
    then some interest
    else none

from_i32-as_i32 : (x : TransactionType) → from_i32 (as_i32 x) ≡ some x
unfolding from_i32 as_i32
from_i32-as_i32 unspecified = refl
from_i32-as_i32 credit = refl
from_i32-as_i32 debit = refl
from_i32-as_i32 hold = refl
from_i32-as_i32 release = refl
from_i32-as_i32 adjustment = refl
from_i32-as_i32 reversal = refl
from_i32-as_i32 fee = refl
from_i32-as_i32 settlement = refl
from_i32-as_i32 interest = refl

as_i32-from_i32 : (v : ℤ) (x : TransactionType) → from_i32 v ≡ some x → as_i32 x ≡ v
unfolding from_i32 as_i32
as_i32-from_i32 v x h = ground (
  arith,
  eq_ℤ_sound v (pos 0),
  eq_ℤ_sound v (pos 1),
  eq_ℤ_sound v (pos 2),
  eq_ℤ_sound v (pos 3),
  eq_ℤ_sound v (pos 4),
  eq_ℤ_sound v (pos 5),
  eq_ℤ_sound v (pos 6),
  eq_ℤ_sound v (pos 7),
  eq_ℤ_sound v (pos 8),
  eq_ℤ_sound v (pos 9),
)

pub transaction_type_inverse : AreInverse as_i32 from_i32
transaction_type_inverse = (from_i32-as_i32, as_i32-from_i32)
