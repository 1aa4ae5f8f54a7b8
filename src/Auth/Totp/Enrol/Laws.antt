-- ===== src/Auth/Totp/Enrol/Laws.antt =====
-- Enrolling in two-factor login, and replacing the second factor.
use webcasa.Base.{
  ℕ, String, Bool, true, false, ◌≡◌, Option, none, some, List, ◌=s◌, if◌then◌else◌, arith, refl,
  ◌⊎◌, inl, inr, Option-cases, Bool-cases, not, ◌&&◌,
}
use webcasa.Auth.Totp.{
  RecoveryCodeEntry, User, Db, TotpLib, TotpError, ok, err, user_not_found, not_setup,
  decrypt_failed, hash_failed, invalid_totp, write_failed, is_enabled, save, decrypt_totp_secret,
  matched_timestep,
}
use webcasa.Auth.Totp.Enrol.{generate_secret, hash_codes, set_step, verify_and_enable, disable}

module _ (lib : TotpLib) (key legacy_key : String) where
  passes : User → String → String → ℕ → Bool
  passes user code secret now = not (user.totp_secret =s "") && lib.validate code secret now

  failure : User → String → String → ℕ → TotpError → TotpError
  failure user code secret now last =
      if user.totp_secret =s ""
      then not_setup
      else if lib.validate code secret now
      then last
      else invalid_totp

  enrolled : User → String → String → ℕ → List RecoveryCodeEntry → User
  enrolled user code secret now es =
      set_step lib key legacy_key
        (record user { totp_enabled = some true; recovery_codes = lib.marshal es })
        (matched_timestep lib key legacy_key code secret now)

  set_step_fields :
      (user : User) (step : Option ℕ)
      → (set_step lib key legacy_key user step).totp_enabled ≡ user.totp_enabled
  unfolding set_step
  set_step_fields user none = refl
  set_step_fields user (some step) = refl

  set_step_codes :
      (user : User) (step : Option ℕ)
      → (set_step lib key legacy_key user step).recovery_codes ≡ user.recovery_codes
  unfolding set_step
  set_step_codes user none = refl
  set_step_codes user (some step) = refl

  set_step_secret :
      (user : User) (step : Option ℕ)
      → (set_step lib key legacy_key user step).totp_secret ≡ user.totp_secret
  unfolding set_step
  set_step_secret user none = refl
  set_step_secret user (some step) = refl

  -- What an enrolment that succeeds comes to.
  abbrev pub Enrols : Db → ℕ → ℕ → String → List String → Bool → Type 0
  Enrols db uid now code plain db_ok =
      (user : User) × (secret : String) × (es : List RecoveryCodeEntry) × (user' : User) × (db uid
        ≡ some user)
      × (decrypt_totp_secret lib key legacy_key user.totp_secret ≡ some secret)
      × (lib.validate code secret now ≡ true)
      × (hash_codes lib key legacy_key plain ≡ some es)
      × ((verify_and_enable lib key legacy_key db uid now code plain db_ok).0 ≡ ok plain)
      × ((verify_and_enable lib key legacy_key db uid now code plain db_ok).1 ≡ save db uid user')
      × (user'.totp_enabled ≡ some true)
      × (user'.recovery_codes ≡ lib.marshal es)
      × (user'.totp_secret ≡ user.totp_secret)

  -- An enrolment that succeeds rests on the stored secret and a code that is valid for it, and it
  -- turns two-factor login on with the hashed recovery codes and keeps the secret; one that fails
  -- changes nothing.
  pub verify_and_enable_lem :
      (db : Db) (uid now : ℕ) (code : String) (plain : List String) (db_ok : Bool)
      → Enrols db uid now code plain db_ok
        ⊎ ((e : TotpError) × (verify_and_enable lib key legacy_key db uid now code plain db_ok
              ≡ (err e, db)))
  unfolding verify_and_enable passes failure enrolled
  verify_and_enable_lem db uid now code plain db_ok = elim (Option-cases (db uid)) [
    | inl u ↦ inr (user_not_found, ground arith)
    | inr (user, u) ↦
        elim (Option-cases (decrypt_totp_secret lib key legacy_key user.totp_secret)) [
          | inl d ↦ inr (if user.totp_secret =s "" then not_setup else decrypt_failed, ground arith)
          | inr (secret, d) ↦ elim (Option-cases (hash_codes lib key legacy_key plain)) [
            | inl k ↦ inr (failure user code secret now hash_failed, ground arith)
            | inr (es, k) ↦ elim (Bool-cases (passes user code secret now && db_ok)) [
              | inl y ↦ inl (
                user,
                secret,
                es,
                enrolled user code secret now es,
                u,
                d,
                ground arith,
                k,
                ground arith,
                ground arith,
                set_step_fields _ _,
                set_step_codes _ _,
                set_step_secret _ _,
              )
              | inr n ↦ inr (failure user code secret now write_failed, ground arith)
            ]
          ]
        ]
  ]

  -- The second factor can be replaced without it: on an account with two-factor login on, setting
  -- up a new secret that encrypts and decrypts needs no code, and then a code of the new secret
  -- turns two-factor login off.
  pub disable-generate_secret :
      (db : Db) (uid now : ℕ) (fresh encrypted code : String) (user : User)
      → db uid ≡ some user
      → is_enabled user.totp_enabled ≡ true
      → lib.encrypt_aes_gcm fresh key ≡ some encrypted
      → lib.decrypt_aes_gcm encrypted key ≡ some fresh
      → lib.validate code fresh now ≡ true
      → let db' = (generate_secret lib key legacy_key db uid fresh true).1 in
        ((generate_secret lib key legacy_key db uid fresh true).0 ≡ ok tt)
        × ((disable lib key legacy_key db' uid now code true).0 ≡ ok tt)
        × ((disable lib key legacy_key db' uid now code true).1 uid
            ≡ some
                (record user { totp_enabled = some false; totp_secret = ""; recovery_codes = "" }))
  unfolding generate_secret disable decrypt_totp_secret
  disable-generate_secret db uid now fresh encrypted code user u on enc dec v =
      (ground arith, ground arith, ground arith)
