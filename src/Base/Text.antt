-- ===== src/Base/Text.antt =====
-- Text is the native `String`, walked character by character: the functions of Go's `strings` that
-- the program uses. All separators are ASCII, so bytes and characters agree on where to cut.
use Prim.Native.Char.{Char, code, len_utf8}
use Prim.Native.Nat.{ℕ, zero, suc, ◌+◌, ◌-◌, ◌*◌}
use Prim.Native.String.{String}
use mathlib.Core.Bool.{Bool, true, false, ◌&&◌, ◌||◌}
use mathlib.Core.Option.{Option, none, some}
use mathlib.Core.List.{List, [], ◌∷◌}
use webcasa.Base.Tests.{◌=s◌, ◌==◌, leb, if◌then◌else◌}

-- Whether a list of texts has a text.
unfoldable pub contains : List String → String → Bool
contains [] k = false
contains (j ∷ js) k = j =s k || contains js k

-- How often a list has a text.
abbrev pub hit : String → String → ℕ
hit j k = if j =s k then 1 else 0

unfoldable pub count : String → List String → ℕ
count k [] = 0
count k (j ∷ js) = hit j k + count k js

abbrev pub push_char : Char → List String → List String
push_char x [] = (String.◌∷◌ x String.[]) ∷ []
push_char x (p ∷ ps) = (String.◌∷◌ x p) ∷ ps

-- `strings.Split` at one character.
unfoldable pub split : ℕ → String → List String
split c String.[] = String.[] ∷ []
split c (String.◌∷◌ x s) =
    let rest = split c s in if code x == c then String.[] ∷ rest else push_char x rest

abbrev pub push_left : Char → Option (String × String) → Option (String × String)
push_left x none = none
push_left x (some (a, b)) = some (String.◌∷◌ x a, b)

-- The parts before and after the first occurrence of a character.
unfoldable pub cut : ℕ → String → Option (String × String)
cut c String.[] = none
cut c (String.◌∷◌ x s) =
    let rest = push_left x (cut c s) in if code x == c then some (String.[], s) else rest

-- `strings.CutPrefix`: the rest behind a prefix.
unfoldable pub cut_prefix : String → String → Option String
cut_prefix String.[] s = some s
cut_prefix (String.◌∷◌ x p) String.[] = none
cut_prefix (String.◌∷◌ x p) (String.◌∷◌ y s) =
    let rest = cut_prefix p s in if code x == code y then rest else none

abbrev pub is_some {ℓ} : {A : Type ℓ} → Option A → Bool
is_some none = false
is_some (some a) = true

-- `strings.HasPrefix`, the text first.
unfoldable pub has_prefix : String → String → Bool
unfolding cut_prefix
has_prefix s p = is_some (cut_prefix p s)

-- White space of `unicode.IsSpace`, below 128.
abbrev pub is_space : ℕ → Bool
is_space c = c == 32 || (leb 9 c && leb c 13)

unfoldable pub trim_left : String → String
trim_left String.[] = String.[]
trim_left (String.◌∷◌ x s) =
    let rest = trim_left s in if is_space (code x) then rest else String.◌∷◌ x s

abbrev pub push_trimmed : Char → String → String
push_trimmed x String.[] = if is_space (code x) then String.[] else String.◌∷◌ x String.[]
push_trimmed x (String.◌∷◌ y s) = String.◌∷◌ x (String.◌∷◌ y s)

unfoldable pub trim_right : String → String
trim_right String.[] = String.[]
trim_right (String.◌∷◌ x s) = push_trimmed x (trim_right s)

-- `strings.TrimSpace`.
unfoldable pub trim_space : String → String
unfolding trim_left trim_right
trim_space s = trim_right (trim_left s)

abbrev pub lower : ℕ → ℕ
lower c = if leb 65 c && leb c 90 then c + 32 else c

-- `strings.ToLower(s) == t`, on ASCII texts.
unfoldable pub lower_is : String → String → Bool
lower_is String.[] String.[] = true
lower_is String.[] (String.◌∷◌ y t) = false
lower_is (String.◌∷◌ x s) String.[] = false
lower_is (String.◌∷◌ x s) (String.◌∷◌ y t) = lower (code x) == code y && lower_is s t

-- The number of characters; the bytes of an ASCII text.
unfoldable pub text_length : String → ℕ
text_length String.[] = 0
text_length (String.◌∷◌ x s) = suc (text_length s)

unfoldable pub take_text : ℕ → String → String
take_text zero s = String.[]
take_text (suc n) String.[] = String.[]
take_text (suc n) (String.◌∷◌ x s) = String.◌∷◌ x (take_text n s)

abbrev pub push_text : Char → Option String → Option String
push_text x none = none
push_text x (some s) = some (String.◌∷◌ x s)

-- `s[:n]` counts bytes: the text of the first bytes, or `none` where they end inside a character.
unfoldable pub take_bytes : ℕ → String → Option String
take_bytes n String.[] = some String.[]
take_bytes n (String.◌∷◌ x s) =
    let rest = push_text x (take_bytes (n - len_utf8 x) s) in
    if n == 0 then some String.[] else if leb (len_utf8 x) n then rest else none

-- Whether every character passes a test.
unfoldable pub all_chars : (ℕ → Bool) → String → Bool
all_chars p String.[] = true
all_chars p (String.◌∷◌ x s) = p (code x) && all_chars p s

-- `strings.ContainsAny`, by a test on characters.
unfoldable pub any_char : (ℕ → Bool) → String → Bool
any_char p String.[] = false
any_char p (String.◌∷◌ x s) = p (code x) || any_char p s

abbrev pub is_digit : ℕ → Bool
is_digit c = leb 48 c && leb c 57

-- The number that a text of digits stands for, after the digits read so far.
unfoldable pub digits_value : ℕ → String → ℕ
digits_value n String.[] = n
digits_value n (String.◌∷◌ x s) = digits_value (n * 10 + (code x - 48)) s
