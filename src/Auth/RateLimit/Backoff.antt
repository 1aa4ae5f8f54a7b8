-- ===== src/Auth/RateLimit/Backoff.antt =====
-- The delay between two attempts: its exact length up to the 34th failure.
use webcasa.Base.{
  ℕ, zero, suc, ◌-◌, ◌*◌, ◌^◌, ◌≤◌, ◌<◌, Bool, true, ◌&&◌, ◌≡◌, refl, String, some, ◌↔◌, arith, ltb,
  subst, Bool-cases, inl, inr, ◌==◌,
}
use webcasa.Auth.RateLimit.{second, AttemptInfo, RateLimiter, backoff, in_backoff, check}

-- `2 ^ (n - 1)` seconds fit a signed 64-bit number up to the 34th failure.
fits : ℕ → Bool
fits n = ltb (2 ^ n * second) (2 ^ 63)

fits_up_to : ℕ → Bool
unfolding fits
fits_up_to zero = fits 0
fits_up_to (suc most) = fits_up_to most && fits (suc most)

last_fits : (most : ℕ) → fits_up_to (suc most) ≡ true → fits (suc most) ≡ true
unfolding fits_up_to
last_fits most table = ground arith

fits_within : (most n : ℕ) → n ≤ most → fits_up_to most ≡ true → fits n ≡ true
unfolding fits_up_to
fits_within zero n le table =
    let first : 0 ≡ n = omega arith in subst (λ k. fits k ≡ true) first table
fits_within (suc most) n le table = elim (Bool-cases (n == suc most)) [
  | inl last ↦
      let same : suc most ≡ n = ground arith in
      subst (λ k. fits k ≡ true) same (last_fits most table)
  | inr less ↦ fits_within most n (ground arith) (ground arith)
]

fits_table : fits_up_to 33 ≡ true
unfolding fits_up_to
fits_table = refl

pub pow_fits : (n : ℕ) → n < 34 → 2 ^ n * second < 2 ^ 63
unfolding fits
pow_fits n h = ground (arith, fits_within 33 n (omega arith) fits_table)

pub backoff_exact : (n : ℕ) → n ≤ 34 → backoff n ≡ 2 ^ (n - 1) * second
unfolding backoff
backoff_exact n h = omega (arith, pow_fits (n - 1) (omega arith))

-- Inside its window a client with at most 34 failures may try exactly when the failures are fewer
-- than the maximum and 2 ^ (n - 1) seconds have passed since the last of its n failures.
pub check_allowed :
    (rl : RateLimiter) (now : ℕ) (ip : String) (info : AttemptInfo)
    → rl.attempts ip ≡ some info
    → now - info.first_at ≤ rl.window_secs * second
    → 0 < info.count
    → info.count ≤ 34
    → ((check rl now ip).1 ≡ true)
      ↔ (info.count < rl.max_attempts) × (2 ^ (info.count - 1) * second ≤ now - info.last_fail)
unfolding check in_backoff
check_allowed rl now ip info e w p c = (
  λ h. ground (arith, backoff_exact info.count c, pow_fits (info.count - 1) (omega arith)),
  λ h. ground (arith, backoff_exact info.count c, pow_fits (info.count - 1) (omega arith)),
)
