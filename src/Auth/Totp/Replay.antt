-- ===== src/Auth/Totp/Replay.antt =====
-- An accepted one-time code is refused on the next login.
use webcasa.Base.{ℕ, ◌≤◌, ◌<◌, String, Bool, true, false, ◌≡◌, some, arith}
use webcasa.Auth.Totp.{
  User, Db, TotpLib, ok, is_enabled, decrypt_totp_secret, matched_timestep, validate_login,
}

module _ (lib : TotpLib) (key legacy_key : String) where
  refused :
      (db : Db) (uid now : ℕ) (code secret : String) (db_ok : Bool) (user : User) (step : ℕ)
      → db uid ≡ some user
      → decrypt_totp_secret lib key legacy_key user.totp_secret ≡ some secret
      → matched_timestep lib key legacy_key code secret now ≡ some step
      → step ≤ user.last_totp_timestep
      → is_enabled user.totp_enabled ≡ true
      → validate_login lib key legacy_key db uid now code db_ok ≡ (ok false, db)
  unfolding validate_login
  refused db uid now code secret db_ok user step e d m le on = ground arith

  -- An accepted code that matches a timestep moves the user's last timestep up to it, strictly, and
  -- changes nothing else of the user.
  pub accepted_step :
      (db : Db) (uid now : ℕ) (code secret : String) (db_ok : Bool) (user : User) (step : ℕ)
      → db uid ≡ some user
      → decrypt_totp_secret lib key legacy_key user.totp_secret ≡ some secret
      → matched_timestep lib key legacy_key code secret now ≡ some step
      → (validate_login lib key legacy_key db uid now code db_ok).0 ≡ ok true
      → (user.last_totp_timestep < step)
        × (is_enabled user.totp_enabled ≡ true)
        × ((validate_login lib key legacy_key db uid now code db_ok).1 uid
            ≡ some (record user { last_totp_timestep = step }))
  unfolding validate_login
  accepted_step db uid now code secret db_ok user step e d m a =
      (ground arith, ground arith, ground arith)

  -- After a code that matches a timestep is accepted, a code that matches this or an earlier timestep
  -- is refused on the next login of the user, at any time and whatever the write does, and nothing
  -- changes.
  pub no_replay :
      (db : Db) (uid now : ℕ) (code secret : String) (db_ok : Bool) (user : User) (step : ℕ)
      → db uid ≡ some user
      → decrypt_totp_secret lib key legacy_key user.totp_secret ≡ some secret
      → matched_timestep lib key legacy_key code secret now ≡ some step
      → (validate_login lib key legacy_key db uid now code db_ok).0 ≡ ok true
      → (later : ℕ) (again : String) (later_ok : Bool) (step' : ℕ)
      → matched_timestep lib key legacy_key again secret later ≡ some step'
      → step' ≤ step
      → let db' = (validate_login lib key legacy_key db uid now code db_ok).1 in
        validate_login lib key legacy_key db' uid later again later_ok ≡ (ok false, db')
  no_replay db uid now code secret db_ok user step e d m a later again later_ok step' m' le =
      let db' = (validate_login lib key legacy_key db uid now code db_ok).1 in
      let moved = (accepted_step db uid now code secret db_ok user step e d m a) in
      refused db' uid later again secret later_ok (record user { last_totp_timestep = step }) step'
        moved.2 d m' le moved.1
