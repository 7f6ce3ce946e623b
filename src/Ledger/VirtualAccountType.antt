-- ===== src/Ledger/VirtualAccountType.antt =====
-- The codes of `VirtualAccountType` in rust-engine/ledger-query-service/src/domain/virtual_account.rs.
use ussd_polyglot.Prelude.{◌≡◌, refl, Option, none, some, if◌then◌else◌, arith}
use ussd_polyglot.Prelude.Int.{ℤ, pos, eq_ℤ, eq_ℤ_sound}
use ussd_polyglot.Ledger.Inverse.{AreInverse}

pub data VirtualAccountType : Type 0 where
  unspecified budget savings_goal escrow reserve temporary_hold ecocash_wallet telecash_wallet
        onemoney_wallet merchant_settlement :
      VirtualAccountType

unfoldable pub as_i32 : VirtualAccountType → ℤ
as_i32 unspecified = pos 0
as_i32 budget = pos 1
as_i32 savings_goal = pos 2
as_i32 escrow = pos 3
as_i32 reserve = pos 4
as_i32 temporary_hold = pos 5
as_i32 ecocash_wallet = pos 6
as_i32 telecash_wallet = pos 7
as_i32 onemoney_wallet = pos 8
as_i32 merchant_settlement = pos 9

unfoldable pub from_i32 : ℤ → Option VirtualAccountType
from_i32 v =
    if eq_ℤ v (pos 0)
    then some unspecified
    else if eq_ℤ v (pos 1)
    then some budget
    else if eq_ℤ v (pos 2)
    then some savings_goal
    else if eq_ℤ v (pos 3)
    then some escrow
    else if eq_ℤ v (pos 4)
    then some reserve
    else if eq_ℤ v (pos 5)
    then some temporary_hold
    else if eq_ℤ v (pos 6)
    then some ecocash_wallet
    else if eq_ℤ v (pos 7)
    then some telecash_wallet
    else if eq_ℤ v (pos 8)
    then some onemoney_wallet
    else if eq_ℤ v (pos 9)
    then some merchant_settlement
    else none

from_i32-as_i32 : (x : VirtualAccountType) → from_i32 (as_i32 x) ≡ some x
unfolding from_i32 as_i32
from_i32-as_i32 unspecified = refl
from_i32-as_i32 budget = refl
from_i32-as_i32 savings_goal = refl
from_i32-as_i32 escrow = refl
from_i32-as_i32 reserve = refl
from_i32-as_i32 temporary_hold = refl
from_i32-as_i32 ecocash_wallet = refl
from_i32-as_i32 telecash_wallet = refl
from_i32-as_i32 onemoney_wallet = refl
from_i32-as_i32 merchant_settlement = refl

as_i32-from_i32 : (v : ℤ) (x : VirtualAccountType) → from_i32 v ≡ some x → as_i32 x ≡ v
unfolding from_i32 as_i32
as_i32-from_i32 v x h = ground (
  arith,
  eq_ℤ_sound v (pos 0),
  eq_ℤ_sound v (pos 1),
  eq_ℤ_sound v (pos 2),
  eq_ℤ_sound v (pos 3),
  eq_ℤ_sound v (pos 4),
  eq_ℤ_sound v (pos 5),
  eq_ℤ_sound v (pos 6),
  eq_ℤ_sound v (pos 7),
  eq_ℤ_sound v (pos 8),
  eq_ℤ_sound v (pos 9),
)

pub virtual_account_type_inverse : AreInverse as_i32 from_i32
virtual_account_type_inverse = (from_i32-as_i32, as_i32-from_i32)
