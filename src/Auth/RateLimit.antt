-- ===== src/Auth/RateLimit.antt =====
-- internal/auth/ratelimit.go. Times are nanoseconds on the monotonic clock, read once in each
-- critical section. The map is a function from the client's address. `time.Duration` is an int64:
-- the product in the backoff wraps, and a negative product delays nobody.
pub mod Backoff
pub mod Window
pub mod Frame
mod Tests
use webcasa.Base.{
  ℕ, suc, ◌+◌, ◌-◌, ◌*◌, ◌/◌, ◌%◌, ◌^◌, String, Bool, true, false, ◌&&◌, Option, none, some, List,
  [], ◌∷◌, ltb, leb, ◌=s◌, if◌then◌else◌,
}

abbrev pub second : ℕ
second = 1_000_000_000

pub record AttemptInfo : Type 0 where
  pub count : ℕ
  pub first_at : ℕ
  pub last_fail : ℕ

pub record RateLimiter : Type 0 where
  pub attempts : String → Option AttemptInfo
  pub max_attempts : ℕ
  pub window_secs : ℕ

-- `NewRateLimiter`, without the goroutine that calls `cleanup` every five minutes.
unfoldable pub new_rate_limiter : ℕ → ℕ → RateLimiter
new_rate_limiter max_attempts window_secs = record {
  attempts = λ ip. none;
  max_attempts = max_attempts;
  window_secs = window_secs;
}

-- `rl.attempts[ip] = v`, and `delete(rl.attempts, ip)` at `none`.
abbrev pub put : RateLimiter → String → Option AttemptInfo → RateLimiter
put rl ip v = record rl { attempts = λ j. if ip =s j then v else rl.attempts j }

-- `time.Duration(math.Pow(2, float64(count-1))) * time.Second`, as a bit pattern of 64 bits.
unfoldable pub backoff : ℕ → ℕ
backoff count = 2 ^ (count - 1) * second % 2 ^ 64

-- `time.Since(info.lastFail) < backoff`, signed.
unfoldable pub in_backoff : AttemptInfo → ℕ → Bool
in_backoff info now =
    ltb (backoff info.count) (2 ^ 63) && ltb (now - info.last_fail) (backoff info.count)

check_info : RateLimiter → ℕ → String → Option AttemptInfo → RateLimiter × Bool × ℕ
check_info rl now ip none = (rl, true, 0)
check_info rl now ip (some info) =
    if ltb (rl.window_secs * second) (now - info.first_at)
    then (put rl ip none, true, 0)
    else if leb rl.max_attempts info.count
    then (rl, false, (rl.window_secs * second - (now - info.first_at)) / second)
    else if ltb 0 info.count && in_backoff info now
    then (rl, false, (backoff info.count - (now - info.last_fail)) / second + 1)
    else (rl, true, 0)

-- `Check`: the new state, whether the client may try, and the seconds to wait.
unfoldable pub check : RateLimiter → ℕ → String → RateLimiter × Bool × ℕ
unfolding check_info
check rl now ip = check_info rl now ip (rl.attempts ip)

fail_info : ℕ → Option AttemptInfo → AttemptInfo
fail_info now none = record { count = 1; first_at = now; last_fail = now }
fail_info now (some info) = record info { count = info.count + 1; last_fail = now }

-- `RecordFail`.
unfoldable pub record_fail : RateLimiter → ℕ → String → RateLimiter
unfolding fail_info
record_fail rl now ip = put rl ip (some (fail_info now (rl.attempts ip)))

-- `RecordSuccess`.
unfoldable pub record_success : RateLimiter → String → RateLimiter
record_success rl ip = put rl ip none

keep_info : ℕ → ℕ → Option AttemptInfo → Option AttemptInfo
keep_info window now none = none
keep_info window now (some info) = if ltb (info.first_at + window) now then none else some info

-- `cleanup`: entries whose window began before the cutoff are dropped.
unfoldable pub cleanup : RateLimiter → ℕ → RateLimiter
unfolding keep_info
cleanup rl now = record rl {
  attempts = λ ip. keep_info (rl.window_secs * second) now (rl.attempts ip);
}

-- `NewLimiters`.
pub record Limiters : Type 0 where
  pub login : RateLimiter
  pub totp : RateLimiter
  pub api_read : RateLimiter
  pub api_write : RateLimiter
  pub default_limiter : RateLimiter

unfoldable pub new_limiters : Limiters
unfolding new_rate_limiter
new_limiters = record {
  login = new_rate_limiter 5 900;
  totp = new_rate_limiter 10 300;
  api_read = new_rate_limiter 300 60;
  api_write = new_rate_limiter 60 60;
  default_limiter = new_rate_limiter 600 60;
}
