-- ===== src/Ledger/SettlementStatus.antt =====
-- The codes of `SettlementStatus` in rust-engine/ledger-query-service/src/domain/settlement.rs.
use ussd_polyglot.Prelude.{◌≡◌, refl, Option, none, some, if◌then◌else◌, arith}
use ussd_polyglot.Prelude.Int.{ℤ, pos, eq_ℤ, eq_ℤ_sound}
use ussd_polyglot.Ledger.Inverse.{AreInverse}

pub data SettlementStatus : Type 0 where
  unspecified pending ready executing completed failed cancelled : SettlementStatus

unfoldable pub as_i32 : SettlementStatus → ℤ
as_i32 unspecified = pos 0
as_i32 pending = pos 1
as_i32 ready = pos 2
as_i32 executing = pos 3
as_i32 completed = pos 4
as_i32 failed = pos 5
as_i32 cancelled = pos 6

unfoldable pub from_i32 : ℤ → Option SettlementStatus
from_i32 v =
    if eq_ℤ v (pos 0)
    then some unspecified
    else if eq_ℤ v (pos 1)
    then some pending
    else if eq_ℤ v (pos 2)
    then some ready
    else if eq_ℤ v (pos 3)
    then some executing
    else if eq_ℤ v (pos 4)
    then some completed
    else if eq_ℤ v (pos 5)
    then some failed
    else if eq_ℤ v (pos 6)
    then some cancelled
    else none

from_i32-as_i32 : (x : SettlementStatus) → from_i32 (as_i32 x) ≡ some x
unfolding from_i32 as_i32
from_i32-as_i32 unspecified = refl
from_i32-as_i32 pending = refl
from_i32-as_i32 ready = refl
from_i32-as_i32 executing = refl
from_i32-as_i32 completed = refl
from_i32-as_i32 failed = refl
from_i32-as_i32 cancelled = refl

as_i32-from_i32 : (v : ℤ) (x : SettlementStatus) → from_i32 v ≡ some x → as_i32 x ≡ v
unfolding from_i32 as_i32
as_i32-from_i32 v x h = ground (
  arith,
  eq_ℤ_sound v (pos 0),
  eq_ℤ_sound v (pos 1),
  eq_ℤ_sound v (pos 2),
  eq_ℤ_sound v (pos 3),
  eq_ℤ_sound v (pos 4),
  eq_ℤ_sound v (pos 5),
  eq_ℤ_sound v (pos 6),
)

pub settlement_status_inverse : AreInverse as_i32 from_i32
settlement_status_inverse = (from_i32-as_i32, as_i32-from_i32)
