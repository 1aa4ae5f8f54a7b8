-- ===== src/Auth/Login/Safety.antt =====
-- Nobody is logged in without the password, or without the second factor where it is on.
use webcasa.Base.{
  ℕ, ◌/◌, String, Bool, true, false, ◌≡◌, ◌⊎◌, inl, inr, some, arith, ap, Option-cases, Bool-cases,
}
use webcasa.Auth.Totp.{TotpLib, Result, ok, err, validate_login}
use webcasa.Auth.Token.{Claims}
use webcasa.Auth.Altcha.{verify_altcha_solution, is_redeemed}
use webcasa.Auth.Login.{
  Account, LoginRequest, LoginLib, Server, logged_in, Call, needs_2fa, primary_login,
  temp_token_login, is_valid,
}

module _ (lib : LoginLib) (totp : TotpLib) (key legacy_key : String) where
  abbrev pub verdict : Server → Call → LoginRequest → ℕ → Result Bool
  verdict st c req uid =
      (validate_login totp key legacy_key st.db uid (c.now / 1_000_000_000) req.totp_code c.db_ok).0

  -- The second factor accepts the request's code for a user.
  abbrev pub Accepts : Server → Call → LoginRequest → ℕ → Type 0
  Accepts st c req uid = verdict st c req uid ≡ ok true

  is_valid→ok : (r : Result Bool) → is_valid lib totp key legacy_key r ≡ true → r ≡ ok true
  unfolding is_valid
  is_valid→ok (ok b) h = ap ok h
  is_valid→ok (err e) h = cc

  -- A first step that logs in has redeemed a proof of work, has verified the password of the account
  -- with that name, and the second factor too if the account has it on.
  pub primary_login_safe :
      (st : Server) (c : Call) (req : LoginRequest) (uid : ℕ)
      → (primary_login lib totp key legacy_key st c req).1 ≡ logged_in uid
      → (account : Account) × (is_redeemed
            (verify_altcha_solution lib.altcha st.redeemed c.now req.altcha).1
          ≡ true)
        × (lib.find_user req.username ≡ some account)
        × (account.id ≡ uid)
        × (lib.check_password account.password req.password ≡ true)
        × ((needs_2fa lib totp key legacy_key (st.db uid) ≡ false) ⊎ Accepts st c req uid)
  unfolding primary_login
  primary_login_safe st c req uid h = elim (Option-cases (lib.find_user req.username)) [
    | inl e ↦ absurd (ground arith)
    | inr (account, e) ↦ elim (Bool-cases (needs_2fa lib totp key legacy_key (st.db account.id))) [
      | inr off ↦
          let same : account.id ≡ uid = ground arith in
          (account, ground arith, e, same, ground arith, inl (rw (← same) off))
      | inl on ↦
          let same : account.id ≡ uid = ground arith in
          (
            account,
            ground arith,
            e,
            same,
            ground arith,
            inr (rw (← same) (is_valid→ok (verdict st c req account.id) (ground arith))),
          )
    ]
  ]

  -- A second step that logs in carries a temporary token of that user, of the user's current
  -- version, and a code that the second factor accepts.
  pub temp_token_login_safe :
      (st : Server) (c : Call) (req : LoginRequest) (uid : ℕ)
      → (temp_token_login lib totp key legacy_key st c req).1 ≡ logged_in uid
      → (claims : Claims) × (lib.parse_token req.temp_token ≡ some claims)
        × (claims.pending_2fa ≡ true)
        × (claims.user_id ≡ uid)
        × (claims.token_version ≡ lib.token_version uid)
        × Accepts st c req uid
  unfolding temp_token_login
  temp_token_login_safe st c req uid h = elim (Option-cases (lib.parse_token req.temp_token)) [
    | inl e ↦ absurd (ground arith)
    | inr (claims, e) ↦
        let same : claims.user_id ≡ uid = ground arith in
        (
          claims,
          e,
          ground arith,
          same,
          ground arith,
          rw (← same) (is_valid→ok (verdict st c req claims.user_id) (ground arith)),
        )
  ]
