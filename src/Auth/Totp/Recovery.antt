-- ===== src/Auth/Totp/Recovery.antt =====
-- A recovery code is accepted once.
use webcasa.Base.{
  ℕ, suc, ◌+◌, ◌≤◌, String, Bool, true, false, ◌≡◌, refl, none, some, arith, List, [], ◌∷◌,
  if◌then◌else◌, Option-cases, Bool-cases, inl, inr, ◌⊎◌, ◌≢◌, All,
}
use webcasa.Auth.Totp.{
  RecoveryCodeEntry, User, Db, TotpLib, Result, ok, err, decrypt_totp_secret, matched_timestep,
  use_code, try_recovery, validate_login,
}

-- How many entries are left to use.
pub unused : List RecoveryCodeEntry → ℕ
unused [] = 0
unused (entry ∷ rest) = if entry.used then unused rest else suc (unused rest)

abbrev pub accepts : Result Bool → Bool
accepts (ok b) = b
accepts (err e) = false

not_accepts : (r : Result Bool) → r ≢ ok true → accepts r ≡ false
not_accepts (ok true) h = absurd (h refl)
not_accepts (ok false) h = refl
not_accepts (err e) h = refl

module _ (lib : TotpLib) (key legacy_key : String) where
  unused-use_code :
      (code : String) (es fs : List RecoveryCodeEntry)
      → use_code lib key legacy_key code es ≡ some fs
      → unused fs + 1 ≡ unused es
  unfolding use_code unused
  unused-use_code code [] fs h = cc
  unused-use_code code (entry ∷ rest) fs h =
      elim (Option-cases (use_code lib key legacy_key code rest)) [
        | inl e ↦ ground arith
        | inr (gs, e) ↦ ground (arith, unused-use_code code rest gs e)
      ]

  -- One attempt with a code that is no one-time code: it is accepted at the price of one entry, or
  -- it changes nothing.
  step_cases :
      (db : Db) (uid now : ℕ) (code secret : String) (db_ok : Bool) (user : User)
      (es : List RecoveryCodeEntry)
      → db uid ≡ some user
      → decrypt_totp_secret lib key legacy_key user.totp_secret ≡ some secret
      → lib.unmarshal user.recovery_codes ≡ some es
      → matched_timestep lib key legacy_key code secret now ≡ none
      → ((fs : List RecoveryCodeEntry) × ((validate_login lib key legacy_key db uid now code
              db_ok).0
            ≡ ok true)
          × ((validate_login lib key legacy_key db uid now code db_ok).1 uid
              ≡ some (record user { recovery_codes = lib.marshal fs }))
          × (unused fs + 1 ≡ unused es))
        ⊎ (((validate_login lib key legacy_key db uid now code db_ok).0 ≢ ok true)
            × ((validate_login lib key legacy_key db uid now code db_ok).1 ≡ db))
  unfolding validate_login try_recovery
  step_cases db uid now code secret db_ok user es e d p m =
      elim (Option-cases (use_code lib key legacy_key code es)) [
        | inl u ↦ inr (ground arith, ground arith)
        | inr (fs, u) ↦
            elim (Bool-cases
              (accepts (validate_login lib key legacy_key db uid now code db_ok).0)) [
                | inl a ↦ inl (fs, ground arith, ground arith, unused-use_code code es fs u)
                | inr a ↦ inr (ground arith, ground arith)
              ]
      ]

  -- A run of attempts as one user, each with its time, its code and whether its write succeeds:
  -- how many of them are accepted.
  pub accepted : Db → ℕ → List (ℕ × String × Bool) → ℕ
  accepted db uid [] = 0
  accepted db uid ((now, code, db_ok) ∷ rest) =
      let (verdict, db') = validate_login lib key legacy_key db uid now code db_ok in
      let n = accepted db' uid rest in if accepts verdict then suc n else n

  abbrev pub NoTotp : String → ℕ × String × Bool → Type 0
  NoTotp secret attempt = matched_timestep lib key legacy_key attempt.1 secret attempt.0 ≡ none

  -- However often they are tried, codes that match no timestep let in at most as many logins as
  -- the user has unused recovery entries: each entry serves once.
  pub accepted-le-unused :
      (db : Db) (uid : ℕ) (secret : String) (user : User) (es : List RecoveryCodeEntry)
      (attempts : List (ℕ × String × Bool))
      → db uid ≡ some user
      → decrypt_totp_secret lib key legacy_key user.totp_secret ≡ some secret
      → lib.unmarshal user.recovery_codes ≡ some es
      → All (NoTotp secret) attempts
      → accepted db uid attempts ≤ unused es
  unfolding accepted
  accepted-le-unused db uid secret user es [] e d p h = omega arith
  accepted-le-unused db uid secret user es ((now, code, db_ok) ∷ rest) e d p h =
      elim (step_cases db uid now code secret db_ok user es e d p h.0) [
        | inl (fs, ok_true, e', left) ↦
            let ih =
              accepted-le-unused (validate_login lib key legacy_key db uid now code db_ok).1 uid
                secret (record user { recovery_codes = lib.marshal fs }) fs rest e' d
                (lib.unmarshal_marshal fs) h.1 in
            rw ok_true (omega (arith, ih))
        | inr (refused, same) ↦
            rw (same, not_accepts _ refused)
              (accepted-le-unused db uid secret user es rest e d p h.1)
      ]
