-- ===== src/Auth/Totp/Tests.antt =====
-- The second factor on a concrete user.
use webcasa.Base.{
  ◌≤◌, true, false, ◌≡◌, refl, none, some, List, [], ◌∷◌, ◌==◌, if◌then◌else◌, arith, cut_prefix,
  ◌⊎◌,
}
use webcasa.Auth.Totp.{
  RecoveryCodeEntry, User, Db, TotpError, ok, err, decrypt_totp_secret, matched_timestep,
  match_step, validate_login, first_ok, code_is,
}
use webcasa.Auth.Totp.Sample.{sample, write_entries}
use webcasa.Auth.Totp.Replay.{no_replay}
use webcasa.Auth.Totp.Recovery.{accepted, unused, accepted-le-unused}
use webcasa.Auth.Totp.Enrol.{generate_secret, verify_and_enable, disable}
use webcasa.Auth.Totp.Enrol.Laws.{Enrols, verify_and_enable_lem, disable-generate_secret}

abbrev entries : List RecoveryCodeEntry
entries = record { hash = "abc"; used = false } ∷ record { hash = "def"; used = true } ∷ []

abbrev alice : User
alice = record {
  username = "alice";
  totp_enabled = some true;
  totp_secret = "#S";
  recovery_codes = write_entries entries;
  last_totp_timestep = 0;
}

abbrev users : Db
users = λ j. if 1 == j then some alice else none

abbrev after : Db
after = (validate_login sample "k" "old" users 1 60 "0S" true).1

-- The code of timestep 2, tried again 20 seconds later.
no_replay_example : validate_login sample "k" "old" after 1 80 "0S" true ≡ (ok false, after)
unfolding decrypt_totp_secret first_ok matched_timestep match_step code_is cut_prefix validate_login
no_replay_example =
    no_replay sample "k" "old" users 1 60 "0S" "S" true alice 2 refl refl refl refl 80 "0S" true 2
      refl (omega arith)

accepted-le-unused_example :
    accepted sample "k" "old" users 1 ((60, "abc", true) ∷ (61, "abc", true) ∷ []) ≤ unused entries
unfolding decrypt_totp_secret first_ok matched_timestep match_step code_is cut_prefix
accepted-le-unused_example =
    accepted-le-unused sample "k" "old" users 1 "S" alice entries
      ((60, "abc", true) ∷ (61, "abc", true) ∷ []) refl refl (sample.unmarshal_marshal entries)
      (refl, (refl, tt))

disable-generate_secret_example :
    let db' = (generate_secret sample "k" "old" users 1 "T" true).1 in
    ((generate_secret sample "k" "old" users 1 "T" true).0 ≡ ok tt)
    × ((disable sample "k" "old" db' 1 90 "0T" true).0 ≡ ok tt)
    × ((disable sample "k" "old" db' 1 90 "0T" true).1 1
        ≡ some (record alice { totp_enabled = some false; totp_secret = ""; recovery_codes = "" }))
unfolding cut_prefix
disable-generate_secret_example =
    disable-generate_secret sample "k" "old" users 1 90 "T" "#T" "0T" alice refl refl refl refl refl

verify_and_enable_lem_example :
    Enrols sample "k" "old" users 1 90 "0S" ("p" ∷ "q" ∷ []) true
    ⊎ ((e : TotpError) × (verify_and_enable sample "k" "old" users 1 90 "0S" ("p" ∷ "q" ∷ []) true
          ≡ (err e, users)))
verify_and_enable_lem_example =
    verify_and_enable_lem sample "k" "old" users 1 90 "0S" ("p" ∷ "q" ∷ []) true
