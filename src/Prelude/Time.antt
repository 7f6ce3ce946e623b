-- ===== src/Prelude/Time.antt =====
-- Instants are microseconds since the epoch, and dates the days since it.
use Prim.Native.Nat.{ℕ}

-- `chrono::Duration::days(1)`, in microseconds
unfoldable pub day : ℕ
day = 86_400_000_000
