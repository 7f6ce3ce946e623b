-- ===== src/Ledger/SuspenseResolutionType.antt =====
-- The codes of `SuspenseResolutionType` in rust-engine/ledger-query-service/src/domain/suspense.rs.
use ussd_polyglot.Prelude.{◌≡◌, refl, Option, none, some, if◌then◌else◌, arith}
use ussd_polyglot.Prelude.Int.{ℤ, pos, eq_ℤ, eq_ℤ_sound}
use ussd_polyglot.Ledger.Inverse.{AreInverse}

pub data SuspenseResolutionType : Type 0 where
  unspecified transfer return write_off reclassify adjust : SuspenseResolutionType

unfoldable pub as_i32 : SuspenseResolutionType → ℤ
as_i32 unspecified = pos 0
as_i32 transfer = pos 1
as_i32 return = pos 2
as_i32 write_off = pos 3
as_i32 reclassify = pos 4
as_i32 adjust = pos 5

unfoldable pub from_i32 : ℤ → Option SuspenseResolutionType
from_i32 v =
    if eq_ℤ v (pos 0)
    then some unspecified
    else if eq_ℤ v (pos 1)
    then some transfer
    else if eq_ℤ v (pos 2)
    then some return
    else if eq_ℤ v (pos 3)
    then some write_off
    else if eq_ℤ v (pos 4)
    then some reclassify
    else if eq_ℤ v (pos 5)
    then some adjust
    else none

from_i32-as_i32 : (x : SuspenseResolutionType) → from_i32 (as_i32 x) ≡ some x
unfolding from_i32 as_i32
from_i32-as_i32 unspecified = refl
from_i32-as_i32 transfer = refl
from_i32-as_i32 return = refl
from_i32-as_i32 write_off = refl
from_i32-as_i32 reclassify = refl
from_i32-as_i32 adjust = refl

as_i32-from_i32 : (v : ℤ) (x : SuspenseResolutionType) → from_i32 v ≡ some x → as_i32 x ≡ v
unfolding from_i32 as_i32
as_i32-from_i32 v x h = ground (
  arith,
  eq_ℤ_sound v (pos 0),
  eq_ℤ_sound v (pos 1),
  eq_ℤ_sound v (pos 2),
  eq_ℤ_sound v (pos 3),
  eq_ℤ_sound v (pos 4),
  eq_ℤ_sound v (pos 5),
)

pub suspense_resolution_type_inverse : AreInverse as_i32 from_i32
suspense_resolution_type_inverse = (from_i32-as_i32, as_i32-from_i32)
