-- ===== src/Auth/Login/Tests.antt =====
-- The login handler on concrete requests.
use webcasa.Base.{
  ◌≤◌, String, Bool, true, false, ◌≡◌, ◌⊎◌, none, some, [], ◌∷◌, ◌==◌, ◌=s◌, if◌then◌else◌, refl,
  arith, cut_prefix,
}
use webcasa.Auth.RateLimit.{new_rate_limiter, check, in_backoff, backoff, record_fail}
use webcasa.Auth.Totp.{
  User, validate_login, decrypt_totp_secret, first_ok, matched_timestep, match_step, code_is,
}
use webcasa.Auth.Totp.Sample.{sample}
use webcasa.Auth.Token.{Claims}
use webcasa.Auth.Altcha.{
  Payload, verify_altcha_solution, mark_altcha_used, sweep, solution_key, is_redeemed,
}
use webcasa.Auth.Login.{
  Account, LoginRequest, LoginLib, Server, Call, needs_2fa, primary_login, temp_token_login,
  proof_of_work, credentials, password_ok, issue, pass_login, fail_login,
}
use webcasa.Auth.Login.Safety.{Accepts, primary_login_safe, temp_token_login_safe}
use webcasa.Auth.Login.BruteForce.{verified, logins_bounded}

abbrev account : Account
account = record { id = 1; password = "pw"; token_version = 4 }

abbrev pending : Claims
pending = record { user_id = 1; username = "alice"; pending_2fa = true; token_version = 4 }

abbrev solved : Payload
solved = record {
  algorithm = "SHA-256";
  challenge = "challenge";
  number = 7;
  salt = "salt";
  signature = "signature";
}

abbrev lib : LoginLib
lib = record {
  altcha = record {
    decode = λ s. if s =s "work" then some solved else none;
    verify_solution = λ p. some true;
  };
  check_password = λ h p. h =s p;
  parse_token = λ t. if t =s "temp" then some pending else none;
  find_user = λ u. if u =s "alice" then some account else none;
  token_version = λ j. 4;
}

abbrev user : Bool → User
user on = record {
  username = "alice";
  totp_enabled = some on;
  totp_secret = "#S";
  recovery_codes = "";
  last_totp_timestep = 0;
}

abbrev server : Bool → Server
server on = record {
  login_limiter = new_rate_limiter 5 900;
  totp_limiter = new_rate_limiter 10 300;
  redeemed = λ key. none;
  db = λ j. if 1 == j then some (user on) else none;
}

abbrev call : Call
call = record { now = 60_000_000_000; ip = "a"; db_ok = true; sign_ok = true }

abbrev request : String → String → String → LoginRequest
request password code temp = record {
  username = "alice";
  password = password;
  altcha = "work";
  totp_code = code;
  temp_token = temp;
}

primary_login_safe_example :
    (account : Account) × (is_redeemed
        (verify_altcha_solution lib.altcha (λ key. none) call.now "work").1
      ≡ true)
    × (lib.find_user "alice" ≡ some account)
    × (account.id ≡ 1)
    × (lib.check_password account.password "pw" ≡ true)
    × ((needs_2fa lib sample "k" "old" ((server false).db 1) ≡ false)
        ⊎ Accepts lib sample "k" "old" (server false) call (request "pw" "" "") 1)
unfolding primary_login new_rate_limiter check proof_of_work credentials password_ok issue
    pass_login needs_2fa verify_altcha_solution mark_altcha_used sweep solution_key
primary_login_safe_example =
    primary_login_safe lib sample "k" "old" (server false) call (request "pw" "" "") 1 refl

temp_token_login_safe_example :
    (claims : Claims) × (lib.parse_token "temp" ≡ some claims)
    × (claims.pending_2fa ≡ true)
    × (claims.user_id ≡ 1)
    × (claims.token_version ≡ lib.token_version 1)
    × Accepts lib sample "k" "old" (server true) call (request "" "0S" "temp") 1
unfolding temp_token_login new_rate_limiter check validate_login cut_prefix decrypt_totp_secret
    first_ok matched_timestep match_step code_is
temp_token_login_safe_example =
    temp_token_login_safe lib sample "k" "old" (server true) call (request "" "0S" "temp") 1 refl

logins_bounded_example :
    verified lib sample "k" "old"
      (server false)
      ((call, request "no" "" "") ∷ (call, request "nix" "" "") ∷ [])
    ≤ (server false).login_limiter.max_attempts
unfolding primary_login new_rate_limiter check in_backoff backoff record_fail proof_of_work
    credentials fail_login verify_altcha_solution mark_altcha_used sweep solution_key
logins_bounded_example =
    logins_bounded lib sample "k" "old" "a" (server false) call (request "no" "" "")
      ((call, request "nix" "" "") ∷ []) refl (omega arith) (refl, refl, (refl, refl, tt))
      (omega arith, tt)
