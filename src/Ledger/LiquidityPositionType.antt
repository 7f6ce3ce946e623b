-- ===== src/Ledger/LiquidityPositionType.antt =====
-- The codes of `LiquidityPositionType` in rust-engine/ledger-query-service/src/domain/liquidity.rs.
use ussd_polyglot.Prelude.{◌≡◌, refl, Option, none, some, if◌then◌else◌, arith}
use ussd_polyglot.Prelude.Int.{ℤ, pos, eq_ℤ, eq_ℤ_sound}
use ussd_polyglot.Ledger.Inverse.{AreInverse}

pub data LiquidityPositionType : Type 0 where
  unspecified held reserved collateral float pledged : LiquidityPositionType

unfoldable pub as_i32 : LiquidityPositionType → ℤ
as_i32 unspecified = pos 0
as_i32 held = pos 1
as_i32 reserved = pos 2
as_i32 collateral = pos 3
as_i32 float = pos 4
as_i32 pledged = pos 5

unfoldable pub from_i32 : ℤ → Option LiquidityPositionType
from_i32 v =
    if eq_ℤ v (pos 0)
    then some unspecified
    else if eq_ℤ v (pos 1)
    then some held
    else if eq_ℤ v (pos 2)
    then some reserved
    else if eq_ℤ v (pos 3)
    then some collateral
    else if eq_ℤ v (pos 4)
    then some float
    else if eq_ℤ v (pos 5)
    then some pledged
    else none

from_i32-as_i32 : (x : LiquidityPositionType) → from_i32 (as_i32 x) ≡ some x
unfolding from_i32 as_i32
from_i32-as_i32 unspecified = refl
from_i32-as_i32 held = refl
from_i32-as_i32 reserved = refl
from_i32-as_i32 collateral = refl
from_i32-as_i32 float = refl
from_i32-as_i32 pledged = refl

as_i32-from_i32 : (v : ℤ) (x : LiquidityPositionType) → from_i32 v ≡ some x → as_i32 x ≡ v
unfolding from_i32 as_i32
as_i32-from_i32 v x h = ground (
  arith,
  eq_ℤ_sound v (pos 0),
  eq_ℤ_sound v (pos 1),
  eq_ℤ_sound v (pos 2),
  eq_ℤ_sound v (pos 3),
  eq_ℤ_sound v (pos 4),
  eq_ℤ_sound v (pos 5),
)

pub liquidity_position_type_inverse : AreInverse as_i32 from_i32
liquidity_position_type_inverse = (from_i32-as_i32, as_i32-from_i32)
