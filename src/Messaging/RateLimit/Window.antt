-- ===== src/Messaging/RateLimit/Window.antt =====
-- The rate limiter without Redis (infrastructure/redis_rate_limit.rs): a tenant's requests are
-- counted for ever.
use ussd_polyglot.Prelude.{
  ◌⊎◌, ℕ, ◌+◌, ◌%◌, ◌^◌, ◌<◌, ◌≡◌, refl, ap, inl, inr, none, some, Bool-cases, List, [], ◌∷◌,
  String, leb, if◌then◌else◌, str_eq, arith,
}
use ussd_polyglot.Prelude.Dict.{Dict, string_key, lookup, insert, lookup-insert, str_eq_sound}
use ussd_polyglot.Prelude.Result.{ok, err}
use ussd_polyglot.Messaging.RateLimit.{count_of, fallback_check, Answer, check_and_increment}

-- a call: what Redis answers to it, the tenant and the limit
abbrev pub Call : Type 0
Call = Answer × String × ℕ

-- the counts after a sequence of calls, the first one first
unfoldable pub run : List Call → Dict String ℕ → Dict String ℕ
run [] counts = counts
run (call ∷ calls) counts = run calls (check_and_increment call.0 call.1 call.2 counts).1

-- the calls of a tenant that Redis did not count
unfoldable pub uncounted : String → Call → ℕ
uncounted tenant (some (ok c), t, limit) = 0
uncounted tenant (some (err e), t, limit) = if str_eq t tenant then 1 else 0
uncounted tenant (none, t, limit) = if str_eq t tenant then 1 else 0

unfoldable pub fallbacks : String → List Call → ℕ
fallbacks tenant [] = 0
fallbacks tenant (call ∷ calls) = uncounted tenant call + fallbacks tenant calls

count_of-insert :
    (u t : String) (n : ℕ) (counts : Dict String ℕ)
    → count_of u (insert t n counts) ≡ (if str_eq t u then n else count_of u counts)
unfolding count_of
count_of-insert u t n counts = ground (arith, lookup-insert t u n counts)

count_of-insert_next :
    (tenant t : String) (counts : Dict String ℕ)
    → count_of tenant counts < 2 ^ 32
    → count_of tenant (insert t ((count_of t counts + 1) % 2 ^ 32) counts)
      ≡ (count_of tenant counts + (if str_eq t tenant then 1 else 0)) % 2 ^ 32
count_of-insert_next tenant t counts small = elim (Bool-cases (str_eq t tenant)) [
  | inl hit ↦ ground (
    arith,
    count_of-insert tenant t ((count_of t counts + 1) % 2 ^ 32) counts,
    hit,
    ap (λ x. count_of x counts) (str_eq_sound t tenant hit),
  )
  | inr other ↦
      ground
        (arith, count_of-insert tenant t ((count_of t counts + 1) % 2 ^ 32) counts, other, small)
]

count_of-fallback_check :
    (tenant t : String) (limit : ℕ) (counts : Dict String ℕ)
    → count_of tenant counts < 2 ^ 32
    → count_of tenant (fallback_check t limit counts).1
      ≡ (count_of tenant counts + (if str_eq t tenant then 1 else 0)) % 2 ^ 32
unfolding fallback_check
count_of-fallback_check tenant t limit counts small = count_of-insert_next tenant t counts small

-- one call moves the count of a tenant by what it did not count in Redis
count_of-check_and_increment :
    (tenant : String) (call : Call) (counts : Dict String ℕ)
    → count_of tenant counts < 2 ^ 32
    → count_of tenant (check_and_increment call.0 call.1 call.2 counts).1
      ≡ (count_of tenant counts + uncounted tenant call) % 2 ^ 32
unfolding check_and_increment uncounted
count_of-check_and_increment tenant (some (ok c), t, limit) counts small = omega arith
count_of-check_and_increment tenant (some (err e), t, limit) counts small =
    count_of-fallback_check tenant t limit counts small
count_of-check_and_increment tenant (none, t, limit) counts small =
    count_of-fallback_check tenant t limit counts small

count_of_zero : (tenant : String) → count_of tenant [] ≡ 0
unfolding count_of lookup
count_of_zero tenant = refl

count_of_below : (tenant : String) → count_of tenant [] < 2 ^ 32
count_of_below tenant = ground (arith, count_of_zero tenant)

-- what a step leaves is a u32 again
below_of_step : {m : ℕ} (k : ℕ) → m ≡ k % 2 ^ 32 → m < 2 ^ 32
below_of_step k h = omega arith

count_of-run :
    (tenant : String) (calls : List Call) (counts : Dict String ℕ)
    → count_of tenant counts < 2 ^ 32
    → count_of tenant (run calls counts)
      ≡ (count_of tenant counts + fallbacks tenant calls) % 2 ^ 32
unfolding run fallbacks
count_of-run tenant [] counts small = omega arith
count_of-run tenant (call ∷ calls) counts small =
    let after = count_of-check_and_increment tenant call counts small in
    ground (
      arith,
      after,
      count_of-run tenant calls (check_and_increment call.0 call.1 call.2 counts).1
          (below_of_step _ after),
    )

count_of-run_start :
    (tenant : String) (calls : List Call)
    → count_of tenant (run calls []) ≡ fallbacks tenant calls % 2 ^ 32
count_of-run_start tenant calls =
    ground (arith, count_of-run tenant calls [] (count_of_below tenant), count_of_zero tenant)

-- Where Redis does not count, the limit bounds the requests of a tenant since the process started,
-- not those of a minute: after any calls, of any tenants, a call for which there is no connection to
-- Redis or Redis answers an error is let through exactly when the tenant's calls that Redis did not
-- count, this one with them, modulo 2^32, are within the limit.
pub check_and_increment-run :
    (tenant : String) (limit : ℕ) (calls : List Call) (answer : Answer)
    → (answer ≡ none) ⊎ ((e : String) × (answer ≡ some (err e)))
    → (check_and_increment answer tenant limit (run calls [])).0
      ≡ leb ((fallbacks tenant calls + 1) % 2 ^ 32) limit
unfolding check_and_increment fallback_check
check_and_increment-run tenant limit calls answer (inl no_connection) =
    rw no_connection (ground (arith, count_of-run_start tenant calls))
check_and_increment-run tenant limit calls answer (inr (e, refused)) =
    rw refused (ground (arith, count_of-run_start tenant calls))
