-- ===== src/Ledger/LiquidityPositionStatus.antt =====
-- The codes of `LiquidityPositionStatus` in rust-engine/ledger-query-service/src/domain/liquidity.rs.
use ussd_polyglot.Prelude.{◌≡◌, refl, Option, none, some, if◌then◌else◌, arith}
use ussd_polyglot.Prelude.Int.{ℤ, pos, eq_ℤ, eq_ℤ_sound}
use ussd_polyglot.Ledger.Inverse.{AreInverse}

pub data LiquidityPositionStatus : Type 0 where
  unspecified active released expired confiscated pending : LiquidityPositionStatus

unfoldable pub as_i32 : LiquidityPositionStatus → ℤ
as_i32 unspecified = pos 0
as_i32 active = pos 1
as_i32 released = pos 2
as_i32 expired = pos 3
as_i32 confiscated = pos 4
as_i32 pending = pos 5

unfoldable pub from_i32 : ℤ → Option LiquidityPositionStatus
from_i32 v =
    if eq_ℤ v (pos 0)
    then some unspecified
    else if eq_ℤ v (pos 1)
    then some active
    else if eq_ℤ v (pos 2)
    then some released
    else if eq_ℤ v (pos 3)
    then some expired
    else if eq_ℤ v (pos 4)
    then some confiscated
    else if eq_ℤ v (pos 5)
    then some pending
    else none

from_i32-as_i32 : (x : LiquidityPositionStatus) → from_i32 (as_i32 x) ≡ some x
unfolding from_i32 as_i32
from_i32-as_i32 unspecified = refl
from_i32-as_i32 active = refl
from_i32-as_i32 released = refl
from_i32-as_i32 expired = refl
from_i32-as_i32 confiscated = refl
from_i32-as_i32 pending = refl

as_i32-from_i32 : (v : ℤ) (x : LiquidityPositionStatus) → from_i32 v ≡ some x → as_i32 x ≡ v
unfolding from_i32 as_i32
as_i32-from_i32 v x h = ground (
  arith,
  eq_ℤ_sound v (pos 0),
  eq_ℤ_sound v (pos 1),
  eq_ℤ_sound v (pos 2),
  eq_ℤ_sound v (pos 3),
  eq_ℤ_sound v (pos 4),
  eq_ℤ_sound v (pos 5),
)

pub liquidity_position_status_inverse : AreInverse as_i32 from_i32
liquidity_position_status_inverse = (from_i32-as_i32, as_i32-from_i32)
