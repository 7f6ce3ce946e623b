-- ===== src/Ledger/SuspenseStatus.antt =====
-- The codes of `SuspenseStatus` in rust-engine/ledger-query-service/src/domain/suspense.rs.
use ussd_polyglot.Prelude.{◌≡◌, refl, Option, none, some, if◌then◌else◌, arith}
use ussd_polyglot.Prelude.Int.{ℤ, pos, eq_ℤ, eq_ℤ_sound}
use ussd_polyglot.Ledger.Inverse.{AreInverse}

pub data SuspenseStatus : Type 0 where
  unspecified opened under_review pending_approval resolved written_off : SuspenseStatus

unfoldable pub as_i32 : SuspenseStatus → ℤ
as_i32 unspecified = pos 0
as_i32 opened = pos 1
as_i32 under_review = pos 2
as_i32 pending_approval = pos 3
as_i32 resolved = pos 4
as_i32 written_off = pos 5

unfoldable pub from_i32 : ℤ → Option SuspenseStatus
from_i32 v =
    if eq_ℤ v (pos 0)
    then some unspecified
    else if eq_ℤ v (pos 1)
    then some opened
    else if eq_ℤ v (pos 2)
    then some under_review
    else if eq_ℤ v (pos 3)
    then some pending_approval
    else if eq_ℤ v (pos 4)
    then some resolved
    else if eq_ℤ v (pos 5)
    then some written_off
    else none

from_i32-as_i32 : (x : SuspenseStatus) → from_i32 (as_i32 x) ≡ some x
unfolding from_i32 as_i32
from_i32-as_i32 unspecified = refl
from_i32-as_i32 opened = refl
from_i32-as_i32 under_review = refl
from_i32-as_i32 pending_approval = refl
from_i32-as_i32 resolved = refl
from_i32-as_i32 written_off = refl

as_i32-from_i32 : (v : ℤ) (x : SuspenseStatus) → from_i32 v ≡ some x → as_i32 x ≡ v
unfolding from_i32 as_i32
as_i32-from_i32 v x h = ground (
  arith,
  eq_ℤ_sound v (pos 0),
  eq_ℤ_sound v (pos 1),
  eq_ℤ_sound v (pos 2),
  eq_ℤ_sound v (pos 3),
  eq_ℤ_sound v (pos 4),
  eq_ℤ_sound v (pos 5),
)

pub suspense_status_inverse : AreInverse as_i32 from_i32
suspense_status_inverse = (from_i32-as_i32, as_i32-from_i32)
