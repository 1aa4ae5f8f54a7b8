-- ===== src/Auth/RateLimit/Tests.antt =====
-- The rate limiter on concrete clients.
use webcasa.Base.{ℕ, List, [], ◌∷◌, false, true, ◌≡◌, refl, none, some, ◌=s◌, if◌then◌else◌, arith}
use webcasa.Auth.RateLimit.{
  AttemptInfo, RateLimiter, check, cleanup, record_fail, in_backoff, backoff,
}
use webcasa.Auth.RateLimit.Frame.{Event, check_at, fail_at, answer, answers, cleanup_transparent}

-- Two failures, the last one second after the first.
abbrev two_failures : AttemptInfo
two_failures = record { count = 2; first_at = 0; last_fail = 1_000_000_000 }

abbrev with_entry : ℕ → AttemptInfo → RateLimiter
with_entry max info = record {
  attempts = λ j. if "a" =s j then some info else none;
  max_attempts = max;
  window_secs = 900;
}

-- A check after a sweep, a failure, and another check.
abbrev later : List Event
later = check_at 960_000_000_000 ∷ fail_at 960_000_000_000 ∷ check_at 960_500_000_000 ∷ []

cleanup_transparent_example :
    answers (cleanup (with_entry 5 two_failures) 950_000_000_000) "a" later
    ≡ answers (with_entry 5 two_failures) "a" later
cleanup_transparent_example =
    cleanup_transparent (with_entry 5 two_failures) 950_000_000_000 960_000_000_000 "a"
      (fail_at 960_000_000_000 ∷ check_at 960_500_000_000 ∷ []) (omega arith)

-- A failure that is recorded between a sweep and the next check: with the sweep the check is refused,
-- without it the old entry has expired and the check passes.
abbrev late : List Event
late = fail_at 951_000_000_000 ∷ check_at 951_500_000_000 ∷ []

late_with_sweep :
    answers (cleanup (with_entry 5 two_failures) 950_000_000_000) "a" late ≡ (false, 1) ∷ []
unfolding answers answer cleanup record_fail check in_backoff backoff
late_with_sweep = refl

late_without_sweep : answers (with_entry 5 two_failures) "a" late ≡ (true, 0) ∷ []
unfolding answers answer record_fail check in_backoff backoff
late_without_sweep = refl
