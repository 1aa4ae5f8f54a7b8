-- ===== src/Auth/Totp/Enrol.antt =====
-- internal/service/totp.go: `GenerateSecret`, `VerifyAndEnable` and `Disable`. What is random, the
-- new secret and the plain recovery codes, is an argument.
pub mod Laws
use webcasa.Base.{
  ℕ, String, Bool, true, false, ◌≡◌, Option, none, some, List, [], ◌∷◌, ◌=s◌, if◌then◌else◌, arith,
  refl, ◌⊎◌, inl, inr, Option-cases, Bool-cases, not, ◌&&◌,
}
use webcasa.Auth.Totp.{
  RecoveryCodeEntry, User, Db, TotpLib, TotpError, Result, ok, err, user_not_found, not_setup,
  not_enabled, encrypt_failed, decrypt_failed, hash_failed, invalid_totp, write_failed, is_enabled,
  save, decrypt_totp_secret, matched_timestep,
}

module _ (lib : TotpLib) (key legacy_key : String) where
  store_secret : Db → ℕ → User → Bool → Option String → Result (Unit {0}) × Db
  store_secret db uid user db_ok none = (err encrypt_failed, db)
  store_secret db uid user db_ok (some encrypted) =
      if db_ok
      then (ok tt, save db uid (record user { totp_secret = encrypted }))
      else (err write_failed, db)

  generate_user : Db → ℕ → String → Bool → Option User → Result (Unit {0}) × Db
  unfolding store_secret
  generate_user db uid fresh db_ok none = (err user_not_found, db)
  generate_user db uid fresh db_ok (some user) =
      store_secret db uid user db_ok (lib.encrypt_aes_gcm fresh key)

  -- `GenerateSecret`, once the library has made the secret `fresh`.
  pub generate_secret : Db → ℕ → String → Bool → Result (Unit {0}) × Db
  unfolding generate_user
  generate_secret db uid fresh db_ok = generate_user db uid fresh db_ok (db uid)

  add_entry : Option String → Option (List RecoveryCodeEntry) → Option (List RecoveryCodeEntry)
  add_entry none rest = none
  add_entry (some hash) none = none
  add_entry (some hash) (some rest) = some (record { hash = hash; used = false } ∷ rest)

  -- The entries of fresh recovery codes, unless a hash fails.
  pub hash_codes : List String → Option (List RecoveryCodeEntry)
  unfolding add_entry
  hash_codes [] = some []
  hash_codes (code ∷ codes) = add_entry (lib.generate_hash code) (hash_codes codes)

  set_step : User → Option ℕ → User
  set_step user none = user
  set_step user (some step) = record user { last_totp_timestep = step }

  store_codes :
      Db
      → ℕ
      → User
      → String
      → String
      → ℕ
      → List String
      → Bool
      → Option (List RecoveryCodeEntry)
      → Result (List String) × Db
  unfolding set_step
  store_codes db uid user code secret now plain db_ok none = (err hash_failed, db)
  store_codes db uid user code secret now plain db_ok (some entries) =
      let user' = record user { totp_enabled = some true; recovery_codes = lib.marshal entries } in
      let user'' = set_step user' (matched_timestep lib key legacy_key code secret now) in
      if db_ok then (ok plain, save db uid user'') else (err write_failed, db)

  enable_secret :
      Db → ℕ → User → ℕ → String → List String → Bool → Option String → Result (List String) × Db
  unfolding store_codes
  enable_secret db uid user now code plain db_ok none = (err decrypt_failed, db)
  enable_secret db uid user now code plain db_ok (some secret) =
      if lib.validate code secret now
      then store_codes db uid user code secret now plain db_ok (hash_codes plain)
      else (err invalid_totp, db)

  enable_user : Db → ℕ → ℕ → String → List String → Bool → Option User → Result (List String) × Db
  unfolding enable_secret
  enable_user db uid now code plain db_ok none = (err user_not_found, db)
  enable_user db uid now code plain db_ok (some user) =
      if user.totp_secret =s ""
      then (err not_setup, db)
      else enable_secret db uid user now code plain db_ok
          (decrypt_totp_secret lib key legacy_key user.totp_secret)

  -- `VerifyAndEnable`, with the recovery codes `plain`.
  pub verify_and_enable : Db → ℕ → ℕ → String → List String → Bool → Result (List String) × Db
  unfolding enable_user
  verify_and_enable db uid now code plain db_ok = enable_user db uid now code plain db_ok (db uid)

  disable_secret : Db → ℕ → User → ℕ → String → Bool → Option String → Result (Unit {0}) × Db
  disable_secret db uid user now code db_ok none = (err decrypt_failed, db)
  disable_secret db uid user now code db_ok (some secret) =
      if lib.validate code secret now
      then (if db_ok
          then (
            ok tt,
            save db uid
                (record user { totp_enabled = some false; totp_secret = ""; recovery_codes = "" }),
          )
          else (err write_failed, db))
      else (err invalid_totp, db)

  disable_user : Db → ℕ → ℕ → String → Bool → Option User → Result (Unit {0}) × Db
  unfolding disable_secret
  disable_user db uid now code db_ok none = (err user_not_found, db)
  disable_user db uid now code db_ok (some user) =
      if is_enabled user.totp_enabled
      then disable_secret db uid user now code db_ok
          (decrypt_totp_secret lib key legacy_key user.totp_secret)
      else (err not_enabled, db)

  -- `Disable`.
  pub disable : Db → ℕ → ℕ → String → Bool → Result (Unit {0}) × Db
  unfolding disable_user
  disable db uid now code db_ok = disable_user db uid now code db_ok (db uid)
