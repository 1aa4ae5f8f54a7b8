-- ===== src/Auth/Login.antt =====
-- internal/handler/auth.go: the login handler, for its two limiters, the redeemed proofs of work and the
-- user table. The password hash and the signature of tokens are calls of libraries and so arguments. The
-- handler begins here with a request that `ShouldBindJSON` has bound; one that it refuses is answered
-- before anything else is done.
pub mod Safety
pub mod BruteForce
mod Tests
use webcasa.Base.{
  ℕ, ◌/◌, String, Bool, true, false, not, Option, none, some, ◌=s◌, ◌==◌, if◌then◌else◌,
}
use webcasa.Auth.RateLimit.{RateLimiter, check, record_fail, record_success}
use webcasa.Auth.Totp.{User, Db, TotpLib, Result, ok, err, is_enabled, validate_login}
use webcasa.Auth.Token.{Claims}
use webcasa.Auth.Altcha.{AltchaLib, Seen, verify_altcha_solution, is_redeemed}

-- The row that the username finds.
pub record Account : Type 0 where
  pub id : ℕ
  pub password : String
  pub token_version : ℕ

pub record LoginRequest : Type 0 where
  pub username : String
  pub password : String
  pub altcha : String
  pub totp_code : String
  pub temp_token : String

-- Libraries, and the columns of the users table that only the handler reads.
pub record LoginLib : Type 0 where
  pub altcha : AltchaLib
  pub check_password : String → String → Bool
  pub parse_token : String → Option Claims
  pub find_user : String → Option Account
  pub token_version : ℕ → ℕ

pub record Server : Type 0 where
  pub login_limiter : RateLimiter
  pub totp_limiter : RateLimiter
  pub redeemed : Seen
  pub db : Db

pub data Reply : Type 0 where
  too_many : ℕ → Reply
  bad_request unauthorized server_error : Reply
  requires_2fa : ℕ → Reply
  logged_in : ℕ → Reply

-- What the environment decides during one request: the time, the client, and whether a write to the
-- database and the signing of a token succeed.
pub record Call : Type 0 where
  pub now : ℕ
  pub ip : String
  pub db_ok : Bool
  pub sign_ok : Bool

module _ (lib : LoginLib) (totp : TotpLib) (key legacy_key : String) where
  -- `Login.RecordFail(ip)` and a reply, and `Login.RecordSuccess(ip)` and a reply.
  fail_login : Server → Call → Reply → Server × Reply
  fail_login st c r = (record st { login_limiter = record_fail st.login_limiter c.now c.ip }, r)

  pass_login : Server → Call → Reply → Server × Reply
  pass_login st c r = (record st { login_limiter = record_success st.login_limiter c.ip }, r)

  issue : Server → Call → ℕ → Server × Reply
  unfolding pass_login
  issue st c uid = if c.sign_ok then pass_login st c (logged_in uid) else (st, server_error)

  is_valid : Result Bool → Bool
  is_valid (ok b) = b
  is_valid (err e) = false

  second_factor : Server → Call → LoginRequest → ℕ → Server × Reply
  unfolding issue is_valid fail_login
  second_factor st c req uid =
      let (verdict, db') =
        validate_login totp key legacy_key st.db uid (c.now / 1_000_000_000) req.totp_code
          c.db_ok in
      if is_valid verdict
      then issue (record st { db = db' }) c uid
      else fail_login (record st { db = db' }) c unauthorized

  pub needs_2fa : Option User → Bool
  needs_2fa none = false
  needs_2fa (some user) = is_enabled user.totp_enabled

  password_ok : Server → Call → LoginRequest → ℕ → Server × Reply
  unfolding second_factor needs_2fa pass_login
  password_ok st c req uid =
      if not (needs_2fa (st.db uid))
      then issue st c uid
      else if not (req.totp_code =s "")
      then second_factor st c req uid
      else if c.sign_ok
      then pass_login st c (requires_2fa uid)
      else (st, server_error)

  credentials : Server → Call → LoginRequest → Option Account → Server × Reply
  unfolding password_ok
  credentials st c req none = fail_login st c unauthorized
  credentials st c req (some account) =
      if lib.check_password account.password req.password
      then password_ok st c req account.id
      else fail_login st c unauthorized

  proof_of_work : Server → Call → LoginRequest → Server × Reply
  unfolding credentials
  proof_of_work st c req =
      if req.altcha =s ""
      then fail_login st c bad_request
      else (let (seen, verdict) = verify_altcha_solution lib.altcha st.redeemed c.now req.altcha in
          let st' = record st { redeemed = seen } in
          if is_redeemed verdict
          then credentials st' c req (lib.find_user req.username)
          else fail_login st' c bad_request)

  -- The first step of `Login`, on the user's password.
  pub primary_login : Server → Call → LoginRequest → Server × Reply
  unfolding proof_of_work
  primary_login st c req =
      let (limiter, allowed, wait) = check st.login_limiter c.now c.ip in
      let st' = record st { login_limiter = limiter } in
      if allowed then proof_of_work st' c req else (st', too_many wait)

  fail_totp : Server → Call → Reply → Server × Reply
  fail_totp st c r = (record st { totp_limiter = record_fail st.totp_limiter c.now c.ip }, r)

  issue_both : Server → Call → ℕ → Server × Reply
  issue_both st c uid =
      if c.sign_ok
      then (
        record st {
          totp_limiter = record_success st.totp_limiter c.ip;
          login_limiter = record_success st.login_limiter c.ip;
        },
        logged_in uid,
      )
      else (st, server_error)

  temp_code : Server → Call → LoginRequest → ℕ → Server × Reply
  unfolding issue_both fail_totp is_valid
  temp_code st c req uid =
      let (verdict, db') =
        validate_login totp key legacy_key st.db uid (c.now / 1_000_000_000) req.totp_code
          c.db_ok in
      if is_valid verdict
      then issue_both (record st { db = db' }) c uid
      else fail_totp (record st { db = db' }) c unauthorized

  temp_claims : Server → Call → LoginRequest → Option Claims → Server × Reply
  unfolding temp_code
  temp_claims st c req none = fail_totp st c unauthorized
  temp_claims st c req (some claims) =
      if not claims.pending_2fa
      then fail_totp st c unauthorized
      else if req.totp_code =s ""
      then (st, bad_request)
      else if not (claims.token_version == lib.token_version claims.user_id)
      then (st, unauthorized)
      else temp_code st c req claims.user_id

  -- `handleTempTokenLogin`.
  pub temp_token_login : Server → Call → LoginRequest → Server × Reply
  unfolding temp_claims
  temp_token_login st c req =
      let (limiter, allowed, wait) = check st.totp_limiter c.now c.ip in
      let st' = record st { totp_limiter = limiter } in
      if allowed
      then temp_claims st' c req (lib.parse_token req.temp_token)
      else (st', too_many wait)

  -- `Login`.
  pub login : Server → Call → LoginRequest → Server × Reply
  login st c req =
      if req.temp_token =s "" then primary_login st c req else temp_token_login st c req
