-- ===== src/Ledger/SettlementType.antt =====
-- The codes of `SettlementType` in rust-engine/ledger-query-service/src/domain/settlement.rs.
use ussd_polyglot.Prelude.{◌≡◌, refl, Option, none, some, if◌then◌else◌, arith}
use ussd_polyglot.Prelude.Int.{ℤ, pos, eq_ℤ, eq_ℤ_sound}
use ussd_polyglot.Ledger.Inverse.{AreInverse}

pub data SettlementType : Type 0 where
  unspecified rtgs net batch immediate mobile_money : SettlementType

unfoldable pub as_i32 : SettlementType → ℤ
as_i32 unspecified = pos 0
as_i32 rtgs = pos 1
as_i32 net = pos 2
as_i32 batch = pos 3
as_i32 immediate = pos 4
as_i32 mobile_money = pos 5

unfoldable pub from_i32 : ℤ → Option SettlementType
from_i32 v =
    if eq_ℤ v (pos 0)
    then some unspecified
    else if eq_ℤ v (pos 1)
    then some rtgs
    else if eq_ℤ v (pos 2)
    then some net
    else if eq_ℤ v (pos 3)
    then some batch
    else if eq_ℤ v (pos 4)
    then some immediate
    else if eq_ℤ v (pos 5)
    then some mobile_money
    else none

from_i32-as_i32 : (x : SettlementType) → from_i32 (as_i32 x) ≡ some x
unfolding from_i32 as_i32
from_i32-as_i32 unspecified = refl
from_i32-as_i32 rtgs = refl
from_i32-as_i32 net = refl
from_i32-as_i32 batch = refl
from_i32-as_i32 immediate = refl
from_i32-as_i32 mobile_money = refl

as_i32-from_i32 : (v : ℤ) (x : SettlementType) → from_i32 v ≡ some x → as_i32 x ≡ v
unfolding from_i32 as_i32
as_i32-from_i32 v x h = ground (
  arith,
  eq_ℤ_sound v (pos 0),
  eq_ℤ_sound v (pos 1),
  eq_ℤ_sound v (pos 2),
  eq_ℤ_sound v (pos 3),
  eq_ℤ_sound v (pos 4),
  eq_ℤ_sound v (pos 5),
)

pub settlement_type_inverse : AreInverse as_i32 from_i32
settlement_type_inverse = (from_i32-as_i32, as_i32-from_i32)
