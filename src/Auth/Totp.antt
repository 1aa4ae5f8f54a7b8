-- ===== src/Auth/Totp.antt =====
-- internal/service/totp.go. The library's calls (the code generator, AES-GCM, bcrypt, JSON) are the
-- fields of `TotpLib`; the user table is a function from ids, and `db_ok` says whether the write
-- of the call succeeds. Times are Unix seconds.
pub mod Replay
pub mod Enrol
pub mod Recovery
pub mod Sample
mod Tests
use webcasa.Base.{
  ℕ, suc, ◌+◌, ◌-◌, ◌*◌, ◌/◌, String, Bool, true, false, not, ◌≡◌, ◌≢◌, Option, none, some, List,
  [], ◌∷◌, leb, ◌==◌, ◌=s◌, if◌then◌else◌,
}

pub record RecoveryCodeEntry : Type 0 where
  pub hash : String
  pub used : Bool

-- The columns of `model.User` that the service reads or writes. `totp_enabled` is a `*bool`.
pub record User : Type 0 where
  pub username : String
  pub totp_enabled : Option Bool
  pub totp_secret : String
  pub recovery_codes : String
  pub last_totp_timestep : ℕ

abbrev pub Db : Type 0
Db = ℕ → Option User

-- Third-party code. JSON decodes what it encoded, and a JSON array is not the empty text.
pub record TotpLib : Type 0 where
  pub generate_code : String → ℕ → Option String
  pub validate : String → String → ℕ → Bool
  pub encrypt_aes_gcm : String → String → Option String
  pub decrypt_aes_gcm : String → String → Option String
  pub compare_hash : String → String → Bool
  pub generate_hash : String → Option String
  pub marshal : List RecoveryCodeEntry → String
  pub unmarshal : String → Option (List RecoveryCodeEntry)
  pub unmarshal_marshal : (es : List RecoveryCodeEntry) → unmarshal (marshal es) ≡ some es
  pub marshal_nonempty : (es : List RecoveryCodeEntry) → (marshal es =s "") ≡ false

pub data TotpError : Type 0 where
  user_not_found not_setup not_enabled encrypt_failed decrypt_failed hash_failed : TotpError
  invalid_totp parse_failed write_failed : TotpError

pub data Result {ℓ} (A : Type ℓ) : Type ℓ where
  ok : A → Result A
  err : TotpError → Result A

abbrev pub is_enabled : Option Bool → Bool
is_enabled none = false
is_enabled (some b) = b

abbrev pub totp_period : ℕ
totp_period = 30

-- `s.db.Save(&user)` and the updates: the row is replaced if the write succeeds.
abbrev pub save : Db → ℕ → User → Db
save db uid user = λ j. if uid == j then some user else db j

abbrev keep : RecoveryCodeEntry → Option (List RecoveryCodeEntry) → Option (List RecoveryCodeEntry)
keep entry none = none
keep entry (some es) = some (entry ∷ es)

module _ (lib : TotpLib) (key legacy_key : String) where
  unfoldable pub first_ok : Option String → Option String → Option String
  first_ok none other = other
  first_ok (some secret) other = some secret

  -- `decryptTOTPSecret`: the HKDF key first, then the key of data from before the migration.
  unfoldable pub decrypt_totp_secret : String → Option String
  unfolding first_ok
  decrypt_totp_secret encrypted =
      first_ok (lib.decrypt_aes_gcm encrypted key) (lib.decrypt_aes_gcm encrypted legacy_key)

  unfoldable pub code_is : Option String → String → Bool
  code_is none code = false
  code_is (some expected) code = expected =s code

  -- The loop of `matchedTimestep` over the steps it tries.
  unfoldable pub match_step : String → String → List ℕ → Option ℕ
  unfolding code_is
  match_step code secret [] = none
  match_step code secret (s ∷ rest) =
      if code_is (lib.generate_code secret s) code then some s else match_step code secret rest

  -- `matchedTimestep`, at a time of at least one period after the epoch.
  unfoldable pub matched_timestep : String → String → ℕ → Option ℕ
  unfolding match_step
  matched_timestep code secret now =
      let current = now / totp_period in
      match_step code secret (current ∷ (current + 1) ∷ (current - 1) ∷ [])

  -- The loop over the recovery codes: the entries with the first unused match marked as used.
  pub use_code : String → List RecoveryCodeEntry → Option (List RecoveryCodeEntry)
  use_code code [] = none
  use_code code (entry ∷ rest) =
      let later = keep entry (use_code code rest) in
      if entry.used
      then later
      else if lib.compare_hash entry.hash code
      then some (record entry { used = true } ∷ rest)
      else later

  save_codes : Db → ℕ → User → Bool → Option (List RecoveryCodeEntry) → Result Bool × Db
  save_codes db uid user db_ok none = (ok false, db)
  save_codes db uid user db_ok (some es) =
      if db_ok
      then (ok true, save db uid (record user { recovery_codes = lib.marshal es }))
      else (err write_failed, db)

  parse_codes : Db → ℕ → User → String → Bool → Option (List RecoveryCodeEntry) → Result Bool × Db
  unfolding save_codes
  parse_codes db uid user code db_ok none = (err parse_failed, db)
  parse_codes db uid user code db_ok (some es) = save_codes db uid user db_ok (use_code code es)

  -- The recovery-code half of `ValidateLogin`.
  pub try_recovery : Db → ℕ → User → String → Bool → Result Bool × Db
  unfolding parse_codes
  try_recovery db uid user code db_ok =
      if user.recovery_codes =s ""
      then (ok false, db)
      else parse_codes db uid user code db_ok (lib.unmarshal user.recovery_codes)

  -- The TOTP half: a matching code whose timestep was consumed is refused outright.
  try_step : Db → ℕ → User → String → Bool → Option ℕ → Result Bool × Db
  try_step db uid user code db_ok none = try_recovery db uid user code db_ok
  try_step db uid user code db_ok (some step) =
      if leb step user.last_totp_timestep
      then (ok false, db)
      else if db_ok
      then (ok true, save db uid (record user { last_totp_timestep = step }))
      else (err write_failed, db)

  try_secret : Db → ℕ → User → ℕ → String → Bool → Option String → Result Bool × Db
  unfolding try_step
  try_secret db uid user now code db_ok none = (err decrypt_failed, db)
  try_secret db uid user now code db_ok (some secret) =
      try_step db uid user code db_ok (matched_timestep code secret now)

  validate_user : Db → ℕ → ℕ → String → Bool → Option User → Result Bool × Db
  unfolding try_secret
  validate_user db uid now code db_ok none = (err user_not_found, db)
  validate_user db uid now code db_ok (some user) =
      if is_enabled user.totp_enabled
      then try_secret db uid user now code db_ok (decrypt_totp_secret user.totp_secret)
      else (err not_enabled, db)

  -- `ValidateLogin`.
  unfoldable pub validate_login : Db → ℕ → ℕ → String → Bool → Result Bool × Db
  unfolding validate_user
  validate_login db uid now code db_ok = validate_user db uid now code db_ok (db uid)
