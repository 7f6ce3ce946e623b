-- ===== src/Messaging/RateLimit.antt =====
-- RedisRateLimiter of rust-engine/messaging-engine/src/infrastructure/redis_rate_limit.rs.
--
-- What Redis answers to `INCR` is a parameter of a call: no connection, an error, or the count. The
-- counts that are kept without it wrap around at 2^32, as u32 does in a release build; the map of
-- them is threaded through the calls, as the mutex orders them.
pub mod Window
use ussd_polyglot.Prelude.{ℕ, ◌+◌, ◌%◌, ◌^◌, Bool, Option, none, some, String, leb, ◌<>◌}
use ussd_polyglot.Prelude.Dict.{Dict, string_key, lookup, insert}
use ussd_polyglot.Prelude.Result.{Result, ok, err}

-- `map.entry(tenant_id).or_insert(0)`
unfoldable pub count_of : String → Dict String ℕ → ℕ
count_of tenant_id counts = elim (lookup tenant_id counts) [ some n ↦ n | none ↦ 0 ]

unfoldable pub fallback_check : String → ℕ → Dict String ℕ → Bool × Dict String ℕ
unfolding count_of
fallback_check tenant_id limit counts =
    let count = (count_of tenant_id counts + 1) % 2 ^ 32 in
    (leb count limit, insert tenant_id count counts)

-- what Redis answers to `INCR`; the `EXPIRE` that follows the first count changes nothing here
abbrev pub Answer : Type 0
Answer = Option (Result String ℕ)

unfoldable pub check_and_increment : Answer → String → ℕ → Dict String ℕ → Bool × Dict String ℕ
unfolding fallback_check
check_and_increment (some (ok c)) tenant_id limit counts = (leb c limit, counts)
check_and_increment (some (err e)) tenant_id limit counts = fallback_check tenant_id limit counts
check_and_increment none tenant_id limit counts = fallback_check tenant_id limit counts
