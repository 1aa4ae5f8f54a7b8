-- ===== src/Auth/RateLimit/Frame.antt =====
-- What the operations of the limiter change, and for whom.
use webcasa.Base.{
  ℕ, ◌≤◌, Bool, true, false, ◌≡◌, ◌≢◌, refl, ap, ◌∙◌, String, List, [], ◌∷◌, arith, eq_refl, eq_iff,
  ◌=s◌,
}
use webcasa.Auth.RateLimit.{RateLimiter, check, record_fail, record_success, cleanup, in_backoff}

ne→false : (i j : String) → i ≢ j → (i =s j) ≡ false
ne→false i j h = ground (arith, eq_iff i j)

-- Checking, failing and succeeding as one client changes no other client's entry.
pub others_untouched :
    (rl : RateLimiter) (now : ℕ) (i j : String)
    → i ≢ j
    → ((check rl now i).0.attempts j ≡ rl.attempts j)
      × ((record_fail rl now i).attempts j ≡ rl.attempts j)
      × ((record_success rl i).attempts j ≡ rl.attempts j)
unfolding check record_fail record_success in_backoff
others_untouched rl now i j h =
    (ground (arith, ne→false i j h), ground (arith, ne→false i j h), ground (arith, ne→false i j h))

-- What `Check` answers: whether the client may try, and how long to wait.
abbrev pub Answer : Type 0
Answer = Bool × ℕ

unfoldable pub answer : RateLimiter → ℕ → String → Answer
answer rl now ip = ((check rl now ip).1, (check rl now ip).2)

-- What one client does after another.
pub data Event : Type 0 where
  check_at fail_at : ℕ → Event
  succeed : Event

-- The answers that a client's checks get on the way.
unfoldable pub answers : RateLimiter → String → List Event → List Answer
unfolding answer
answers rl ip [] = []
answers rl ip (check_at t ∷ rest) = answer rl t ip ∷ answers (check rl t ip).0 ip rest
answers rl ip (fail_at t ∷ rest) = answers (record_fail rl t ip) ip rest
answers rl ip (succeed ∷ rest) = answers (record_success rl ip) ip rest

-- Two limiters with the same limits and the same entry of a client.
abbrev Alike : String → RateLimiter → RateLimiter → Type 0
Alike ip rl rl' =
    (rl.attempts ip ≡ rl'.attempts ip)
    × (rl.max_attempts ≡ rl'.max_attempts)
    × (rl.window_secs ≡ rl'.window_secs)

answer-Alike :
    (ip : String) (rl rl' : RateLimiter) (now : ℕ)
    → Alike ip rl rl'
    → answer rl now ip ≡ answer rl' now ip
unfolding answer check
answer-Alike ip rl rl' now h = ground arith

check-Alike :
    (ip : String) (rl rl' : RateLimiter) (now : ℕ)
    → Alike ip rl rl'
    → Alike ip (check rl now ip).0 (check rl' now ip).0
unfolding check
check-Alike ip rl rl' now h = (ground arith, ground arith, ground arith)

record_fail-Alike :
    (ip : String) (rl rl' : RateLimiter) (now : ℕ)
    → Alike ip rl rl'
    → Alike ip (record_fail rl now ip) (record_fail rl' now ip)
unfolding record_fail
record_fail-Alike ip rl rl' now h = (ground arith, h.1, h.2)

record_success-Alike :
    (ip : String) (rl rl' : RateLimiter)
    → Alike ip rl rl'
    → Alike ip (record_success rl ip) (record_success rl' ip)
unfolding record_success
record_success-Alike ip rl rl' h = (ground arith, h.1, h.2)

answers-Alike :
    (ip : String) (rl rl' : RateLimiter) (events : List Event)
    → Alike ip rl rl'
    → answers rl ip events ≡ answers rl' ip events
unfolding answers
answers-Alike ip rl rl' [] h = refl
answers-Alike ip rl rl' (check_at t ∷ rest) h =
    ap (λ a. a ∷ answers (check rl t ip).0 ip rest) (answer-Alike ip rl rl' t h)
    ∙ ap (λ l. answer rl' t ip ∷ l)
        (answers-Alike ip (check rl t ip).0 (check rl' t ip).0 rest (check-Alike ip rl rl' t h))
answers-Alike ip rl rl' (fail_at t ∷ rest) h =
    answers-Alike ip (record_fail rl t ip) (record_fail rl' t ip) rest
      (record_fail-Alike ip rl rl' t h)
answers-Alike ip rl rl' (succeed ∷ rest) h =
    answers-Alike ip (record_success rl ip) (record_success rl' ip) rest
      (record_success-Alike ip rl rl' h)

answer-cleanup :
    (rl : RateLimiter) (swept now : ℕ) (ip : String)
    → swept ≤ now
    → answer (cleanup rl swept) now ip ≡ answer rl now ip
unfolding answer cleanup check in_backoff
answer-cleanup rl swept now ip h = ground arith

check-cleanup :
    (rl : RateLimiter) (swept now : ℕ) (ip : String)
    → swept ≤ now
    → Alike ip (check (cleanup rl swept) now ip).0 (check rl now ip).0
unfolding cleanup check in_backoff
check-cleanup rl swept now ip h = (ground (arith, eq_refl ip), ground arith, ground arith)

-- If the first thing that a client does after a sweep is a `Check`, the sweep is invisible to that
-- client: its checks get the same answers as without the sweep, whatever checks, failures and
-- successes follow.
pub cleanup_transparent :
    (rl : RateLimiter) (swept now : ℕ) (ip : String) (events : List Event)
    → swept ≤ now
    → answers (cleanup rl swept) ip (check_at now ∷ events) ≡ answers rl ip (check_at now ∷ events)
unfolding answers
cleanup_transparent rl swept now ip events h =
    ap (λ a. a ∷ answers (check (cleanup rl swept) now ip).0 ip events)
      (answer-cleanup rl swept now ip h)
    ∙ ap (λ l. answer rl now ip ∷ l)
        (answers-Alike ip (check (cleanup rl swept) now ip).0 (check rl now ip).0 events
          (check-cleanup rl swept now ip h))

-- A success forgives: right after it the client may try at once.
pub check-record_success :
    (rl : RateLimiter) (now : ℕ) (ip : String) → answer (record_success rl ip) now ip ≡ (true, 0)
unfolding answer check record_success
check-record_success rl now ip = rw eq_refl refl
