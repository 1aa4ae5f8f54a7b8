-- ===== src/Auth/RateLimit/Window.antt =====
-- Brute force: how many guesses one client gets in a window.
use webcasa.Base.{
  ℕ, suc, ◌+◌, ◌*◌, ◌≤◌, ◌<◌, Bool, true, false, ◌≡◌, String, none, some, List, [], ◌∷◌, arith,
  eq_refl, All, ◌⊎◌, if◌then◌else◌, inl, inr,
}
use webcasa.Auth.RateLimit.{second, AttemptInfo, RateLimiter, check, record_fail}

-- A guess that fails: the handler checks, refuses if it must, and else records the failure.
unfoldable pub guess : RateLimiter → ℕ → String → RateLimiter × Bool
guess rl now ip =
    let (rl', allowed, wait) = check rl now ip in
    if allowed then (record_fail rl' now ip, true) else (rl', false)

-- A run of failing guesses at the given times, and how many of them reached the password.
unfoldable pub guesses : RateLimiter → String → List ℕ → RateLimiter × ℕ
guesses rl ip [] = (rl, 0)
guesses rl ip (now ∷ later) =
    let (rl', tried) = guess rl now ip in
    let (end, n) = guesses rl' ip later in (end, if tried then suc n else n)

guess_within :
    (rl : RateLimiter) (ip : String) (now : ℕ) (info : AttemptInfo)
    → rl.attempts ip ≡ some info
    → now ≤ info.first_at + rl.window_secs * second
    → (((guess rl now ip).1 ≡ true)
        × (info.count < rl.max_attempts)
        × ((guess rl now ip).0 ≡ record_fail rl now ip))
      ⊎ (((guess rl now ip).1 ≡ false) × ((guess rl now ip).0 ≡ rl))
unfolding guess check
guess_within rl ip now info e w = ground arith

-- A recorded failure is one more, in the same window.
pub record_fail_same :
    (rl : RateLimiter) (ip : String) (now : ℕ) (info : AttemptInfo)
    → rl.attempts ip ≡ some info
    → (record_fail rl now ip).attempts ip
      ≡ some (record info { count = info.count + 1; last_fail = now })
unfolding record_fail
record_fail_same rl ip now info e = rw eq_refl (ground arith)

pub record_fail_fresh :
    (rl : RateLimiter) (ip : String) (now : ℕ)
    → rl.attempts ip ≡ none
    → (record_fail rl now ip).attempts ip
      ≡ some (record { count = 1; first_at = now; last_fail = now })
unfolding record_fail
record_fail_fresh rl ip now e = rw eq_refl (ground arith)

abbrev pub Until : ℕ → List ℕ → Type 0
Until end times = All (λ t. t ≤ end) times

guesses_within :
    (rl : RateLimiter) (ip : String) (end : ℕ) (times : List ℕ) (info : AttemptInfo)
    → rl.attempts ip ≡ some info
    → end ≤ info.first_at + rl.window_secs * second
    → info.count ≤ rl.max_attempts
    → Until end times
    → (guesses rl ip times).1 + info.count ≤ rl.max_attempts
unfolding guesses record_fail
guesses_within rl ip end [] info e w c h = omega arith
guesses_within rl ip end (now ∷ later) info e w c h =
    elim (guess_within rl ip now info e (omega arith)) [
      | inl tried ↦
          let ih =
            guesses_within (record_fail rl now ip) ip end later
              (record info { count = info.count + 1; last_fail = now })
              (record_fail_same rl ip now info e) w (omega arith) h.1 in
          rw (tried.0, tried.2) (omega (arith, ih))
      | inr refused ↦ rw (refused.0, refused.1) (guesses_within rl ip end later info e w c h.1)
    ]

guess_fresh :
    (rl : RateLimiter) (ip : String) (now : ℕ)
    → rl.attempts ip ≡ none
    → guess rl now ip ≡ (record_fail rl now ip, true)
unfolding guess check
guess_fresh rl ip now e = ground arith

-- A client with no entry, whose guesses all fail and all come before the window of the first one
-- ends, has at most `max_attempts`, which is positive, guesses tried, in whatever number and order
-- of times they come.
pub guesses_bounded :
    (rl : RateLimiter) (ip : String) (now : ℕ) (later : List ℕ)
    → rl.attempts ip ≡ none
    → 0 < rl.max_attempts
    → Until (now + rl.window_secs * second) later
    → (guesses rl ip (now ∷ later)).1 ≤ rl.max_attempts
unfolding guesses record_fail
guesses_bounded rl ip now later e m h =
    let ih =
      guesses_within (record_fail rl now ip) ip (now + rl.window_secs * second) later
        (record { count = 1; first_at = now; last_fail = now }) (record_fail_fresh rl ip now e)
        (omega arith) m h in
    rw (guess_fresh rl ip now e) (omega (arith, ih))
