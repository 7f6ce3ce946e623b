-- ===== src/Ledger/VirtualAccountStatus.antt =====
-- The codes of `VirtualAccountStatus` in rust-engine/ledger-query-service/src/domain/virtual_account.rs.
use ussd_polyglot.Prelude.{◌≡◌, refl, Option, none, some, if◌then◌else◌, arith}
use ussd_polyglot.Prelude.Int.{ℤ, pos, eq_ℤ, eq_ℤ_sound}
use ussd_polyglot.Ledger.Inverse.{AreInverse}

pub data VirtualAccountStatus : Type 0 where
  unspecified active frozen closed matured : VirtualAccountStatus

unfoldable pub as_i32 : VirtualAccountStatus → ℤ
as_i32 unspecified = pos 0
as_i32 active = pos 1
as_i32 frozen = pos 2
as_i32 closed = pos 3
as_i32 matured = pos 4

unfoldable pub from_i32 : ℤ → Option VirtualAccountStatus
from_i32 v =
    if eq_ℤ v (pos 0)
    then some unspecified
    else if eq_ℤ v (pos 1)
    then some active
    else if eq_ℤ v (pos 2)
    then some frozen
    else if eq_ℤ v (pos 3)
    then some closed
    else if eq_ℤ v (pos 4)
    then some matured
    else none

from_i32-as_i32 : (x : VirtualAccountStatus) → from_i32 (as_i32 x) ≡ some x
unfolding from_i32 as_i32
from_i32-as_i32 unspecified = refl
from_i32-as_i32 active = refl
from_i32-as_i32 frozen = refl
from_i32-as_i32 closed = refl
from_i32-as_i32 matured = refl

as_i32-from_i32 : (v : ℤ) (x : VirtualAccountStatus) → from_i32 v ≡ some x → as_i32 x ≡ v
unfolding from_i32 as_i32
as_i32-from_i32 v x h = ground (
  arith,
  eq_ℤ_sound v (pos 0),
  eq_ℤ_sound v (pos 1),
  eq_ℤ_sound v (pos 2),
  eq_ℤ_sound v (pos 3),
  eq_ℤ_sound v (pos 4),
)

pub virtual_account_status_inverse : AreInverse as_i32 from_i32
virtual_account_status_inverse = (from_i32-as_i32, as_i32-from_i32)
