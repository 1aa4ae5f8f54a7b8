-- ===== src/Auth/Totp/Sample.antt =====
-- A concrete instance of the library: a code is a digit and the secret, encryption puts a mark in
-- front, and the recovery codes are written out character by character.
use Prim.Native.Char.{Char, code}
use Prim.Native.String.{◌++◌ as ◌<>◌}
use webcasa.Base.{
  ℕ, ◌%◌, String, Bool, true, false, ◌≡◌, refl, Option, none, some, List, [], ◌∷◌, ◌==◌, ◌=s◌,
  if◌then◌else◌, arith, cut_prefix, Bool-cases, inl, inr, ap, eq_iff, text_length,
}
use webcasa.Auth.Totp.{RecoveryCodeEntry, TotpLib}

unfoldable pub write_hash : String → String → String
write_hash String.[] rest = String.◌∷◌ ";" rest
write_hash (String.◌∷◌ x h) rest = String.◌∷◌ "c" (String.◌∷◌ x (write_hash h rest))

unfoldable pub write_entries : List RecoveryCodeEntry → String
unfolding write_hash
write_entries [] = "]"
write_entries (e ∷ es) =
    if e.used
    then String.◌∷◌ "u" (write_hash e.hash (write_entries es))
    else String.◌∷◌ "n" (write_hash e.hash (write_entries es))

abbrev pub Parsed : Type 0
Parsed = Option (String × List RecoveryCodeEntry)

unfoldable pub finish : Bool → Parsed → Parsed
finish used none = none
finish used (some (h, es)) = some ("", record { hash = h; used = used } ∷ es)

unfoldable pub push : Char → Parsed → Parsed
push x none = none
push x (some (h, es)) = some (String.◌∷◌ x h, es)

-- Inside a hash, or between two entries.
unfoldable pub read_entries : Bool → String → Parsed
unfolding finish push
read_entries inside String.[] = none
read_entries false (String.◌∷◌ x s) =
    let later = read_entries true s in
    if code x == 93 then some ("", []) else finish (code x == 117) later
read_entries true (String.◌∷◌ x String.[]) = none
read_entries true (String.◌∷◌ x (String.◌∷◌ y s)) =
    let ended = read_entries false (String.◌∷◌ y s) in
    let later = read_entries true s in if code x == 59 then ended else push y later

read-write_hash :
    (h rest : String) (es : List RecoveryCodeEntry)
    → read_entries false rest ≡ some ("", es)
    → read_entries true (write_hash h rest) ≡ some (h, es)
unfolding write_hash read_entries push
read-write_hash String.[] String.[] es e = absurd (ground (arith, e))
read-write_hash String.[] (String.◌∷◌ y s) es e = e
read-write_hash (String.◌∷◌ x h) rest es e = rw (read-write_hash h rest es e) refl

pub read-write_entries :
    (es : List RecoveryCodeEntry) → read_entries false (write_entries es) ≡ some ("", es)
unfolding write_entries read_entries finish
read-write_entries [] = refl
read-write_entries (e ∷ es) =
    let inner = read-write_hash e.hash (write_entries es) es (read-write_entries es) in
    elim (Bool-cases e.used) [
      | inl u ↦ rw u (rw inner (ground arith))
      | inr u ↦ rw u (rw inner (ground arith))
    ]

abbrev pub entries_of : Parsed → Option (List RecoveryCodeEntry)
entries_of none = none
entries_of (some (h, es)) = some es

cons-nonempty : (x : Char) (s : String) → (String.◌∷◌ x s =s "") ≡ false
unfolding text_length
cons-nonempty x s = elim (Bool-cases (String.◌∷◌ x s =s "")) [
  | inr e ↦ e
  | inl e ↦
      let same : String.◌∷◌ x s ≡ "" = ground (arith, eq_iff (String.◌∷◌ x s) "") in
      absurd (ground (arith, ap text_length same))
]

pub write_entries-nonempty : (es : List RecoveryCodeEntry) → (write_entries es =s "") ≡ false
unfolding write_entries
write_entries-nonempty [] = refl
write_entries-nonempty (e ∷ es) =
    let rest = write_hash e.hash (write_entries es) in
    ground (arith, cons-nonempty "u" rest, cons-nonempty "n" rest)

-- The code of a timestep is the secret with the step's parity in front.
abbrev pub sample_code : String → ℕ → String
sample_code secret step = if step % 2 == 0 then "0" <> secret else "1" <> secret

abbrev pub sample : TotpLib
sample = record {
  generate_code = λ secret step. some (sample_code secret step);
  validate = λ code secret now. code =s "0" <> secret;
  encrypt_aes_gcm = λ text key. some ("#" <> text);
  decrypt_aes_gcm = λ text key. cut_prefix "#" text;
  compare_hash = λ hash code. hash =s code;
  generate_hash = λ code. some code;
  marshal = write_entries;
  unmarshal = λ text. entries_of (read_entries false text);
  unmarshal_marshal = λ es. ap entries_of (read-write_entries es);
  marshal_nonempty = write_entries-nonempty;
}
