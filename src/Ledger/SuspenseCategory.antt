-- ===== src/Ledger/SuspenseCategory.antt =====
-- The codes of `SuspenseCategory` in rust-engine/ledger-query-service/src/domain/suspense.rs.
use ussd_polyglot.Prelude.{◌≡◌, refl, Option, none, some, if◌then◌else◌, arith}
use ussd_polyglot.Prelude.Int.{ℤ, pos, eq_ℤ, eq_ℤ_sound}
use ussd_polyglot.Ledger.Inverse.{AreInverse}

pub data SuspenseCategory : Type 0 where
  unspecified unidentified pending_docs disputed investigation awaiting_approval : SuspenseCategory

unfoldable pub as_i32 : SuspenseCategory → ℤ
as_i32 unspecified = pos 0
as_i32 unidentified = pos 1
as_i32 pending_docs = pos 2
as_i32 disputed = pos 3
as_i32 investigation = pos 4
as_i32 awaiting_approval = pos 5

unfoldable pub from_i32 : ℤ → Option SuspenseCategory
from_i32 v =
    if eq_ℤ v (pos 0)
    then some unspecified
    else if eq_ℤ v (pos 1)
    then some unidentified
    else if eq_ℤ v (pos 2)
    then some pending_docs
    else if eq_ℤ v (pos 3)
    then some disputed
    else if eq_ℤ v (pos 4)
    then some investigation
    else if eq_ℤ v (pos 5)
    then some awaiting_approval
    else none

from_i32-as_i32 : (x : SuspenseCategory) → from_i32 (as_i32 x) ≡ some x
unfolding from_i32 as_i32
from_i32-as_i32 unspecified = refl
from_i32-as_i32 unidentified = refl
from_i32-as_i32 pending_docs = refl
from_i32-as_i32 disputed = refl
from_i32-as_i32 investigation = refl
from_i32-as_i32 awaiting_approval = refl

as_i32-from_i32 : (v : ℤ) (x : SuspenseCategory) → from_i32 v ≡ some x → as_i32 x ≡ v
unfolding from_i32 as_i32
as_i32-from_i32 v x h = ground (
  arith,
  eq_ℤ_sound v (pos 0),
  eq_ℤ_sound v (pos 1),
  eq_ℤ_sound v (pos 2),
  eq_ℤ_sound v (pos 3),
  eq_ℤ_sound v (pos 4),
  eq_ℤ_sound v (pos 5),
)

pub suspense_category_inverse : AreInverse as_i32 from_i32
suspense_category_inverse = (from_i32-as_i32, as_i32-from_i32)
