-- ===== src/Auth/Login/BruteForce.antt =====
-- The limiter as the login handler uses it.
use webcasa.Base.{
  ℕ, suc, ◌+◌, ◌*◌, ◌≤◌, ◌<◌, String, Bool, true, false, not, ◌≡◌, none, arith, refl, List, [], ◌∷◌,
  if◌then◌else◌,
}
use webcasa.Auth.RateLimit.{second}
use webcasa.Auth.RateLimit.Window.{guess, guesses, guesses_bounded, Until}
use webcasa.Auth.Totp.{TotpLib}
use webcasa.Auth.Login.{
  LoginRequest, LoginLib, Server, Reply, too_many, bad_request, unauthorized, Call, primary_login,
}

-- A reply that denies: the credentials were wrong, or the limiter refused.
abbrev pub denies : Reply → Bool
denies (too_many wait) = true
denies bad_request = true
denies unauthorized = true
denies _ = false

abbrev pub refused_outright : Reply → Bool
refused_outright (too_many wait) = true
refused_outright _ = false

module _ (lib : LoginLib) (totp : TotpLib) (key legacy_key : String) where
  -- A first step that is denied is one failing guess.
  primary_login-guess :
      (st : Server) (c : Call) (req : LoginRequest)
      → denies (primary_login lib totp key legacy_key st c req).1 ≡ true
      → ((primary_login lib totp key legacy_key st c req).0.login_limiter
          ≡ (guess st.login_limiter c.now c.ip).0)
        × (not (refused_outright (primary_login lib totp key legacy_key st c req).1)
            ≡ (guess st.login_limiter c.now c.ip).1)
  unfolding primary_login guess
  primary_login-guess st c req h = (ground arith, ground arith)

  -- A run of requests, and how many of them got past the limiter.
  pub verified : Server → List (Call × LoginRequest) → ℕ
  verified st [] = 0
  verified st ((c, req) ∷ rest) =
      let (st', reply) = primary_login lib totp key legacy_key st c req in
      let n = verified st' rest in if not (refused_outright reply) then suc n else n

  -- Every request of the run comes from one client and is denied.
  abbrev pub AllDenied : String → Server → List (Call × LoginRequest) → Type 0
  AllDenied ip st [] = Unit
  AllDenied ip st ((c, req) ∷ rest) =
      (c.ip ≡ ip)
      × (denies (primary_login lib totp key legacy_key st c req).1 ≡ true)
      × AllDenied ip (primary_login lib totp key legacy_key st c req).0 rest

  abbrev pub times : List (Call × LoginRequest) → List ℕ
  times [] = []
  times ((c, req) ∷ rest) = c.now ∷ times rest

  verified-guesses :
      (ip : String) (st : Server) (run : List (Call × LoginRequest))
      → AllDenied ip st run
      → verified st run ≡ (guesses st.login_limiter ip (times run)).1
  unfolding verified guesses
  verified-guesses ip st [] h = refl
  verified-guesses ip st ((c, req) ∷ rest) (from, denied, later) =
      let (limiter, counted) = primary_login-guess st c req denied in
      let ih = verified-guesses ip (primary_login lib totp key legacy_key st c req).0 rest later in
      rw (counted, ih, limiter, from)

  -- Guessing passwords: of a run of denied requests from one client with no entry, the later ones
  -- within the window of the first, at most `max_attempts`, which is positive, have their
  -- credentials looked at.
  pub logins_bounded :
      (ip : String) (st : Server) (c : Call) (req : LoginRequest)
      (rest : List (Call × LoginRequest))
      → st.login_limiter.attempts ip ≡ none
      → 0 < st.login_limiter.max_attempts
      → AllDenied ip st ((c, req) ∷ rest)
      → Until (c.now + st.login_limiter.window_secs * second) (times rest)
      → verified st ((c, req) ∷ rest) ≤ st.login_limiter.max_attempts
  logins_bounded ip st c req rest fresh m denied later =
      rw (verified-guesses ip st ((c, req) ∷ rest) denied)
        (guesses_bounded st.login_limiter ip c.now (times rest) fresh m later)
