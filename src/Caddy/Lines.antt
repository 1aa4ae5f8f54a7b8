-- ===== src/Caddy/Lines.antt =====
-- The lines of a text: a line has no line feed, and a line trimmed does not begin with white space.
use Prim.Native.Char.{Char, code}
use webcasa.Base.{
  ℕ, String, Bool, false, ◌≡◌, ◌≢◌, refl, List, [], ◌∷◌, ◌==◌, is_space, any_char, split, push_char,
  trim_left, trim_right, push_trimmed, arith, All, Bool-cases, inl, inr,
}

abbrev pub is_newline : ℕ → Bool
is_newline c = c == b'\n'

abbrev pub OneLine : String → Type 0
OneLine s = any_char is_newline s ≡ false

push_char-OneLine :
    (x : Char) (lines : List String)
    → (code x == b'\n') ≡ false
    → All OneLine lines
    → All OneLine (push_char x lines)
unfolding any_char
push_char-OneLine x [] e h = (ground arith, tt)
push_char-OneLine x (line ∷ lines) e (h, hs) = (ground arith, hs)

pub split-OneLine : (s : String) → All OneLine (split b'\n' s)
unfolding split any_char
split-OneLine String.[] = (refl, tt)
split-OneLine (String.◌∷◌ x s) = elim (Bool-cases (code x == b'\n')) [
  | inl e ↦ rw e (refl, split-OneLine s)
  | inr e ↦ rw e (push_char-OneLine x (split b'\n' s) e (split-OneLine s))
]

pub trim_left-OneLine : (s : String) → OneLine s → OneLine (trim_left s)
unfolding trim_left any_char
trim_left-OneLine String.[] h = refl
trim_left-OneLine (String.◌∷◌ x s) h = elim (Bool-cases (is_space (code x))) [
  | inl e ↦ rw e (trim_left-OneLine s (ground arith))
  | inr e ↦ rw e h
]

pub trim_right-OneLine : (s : String) → OneLine s → OneLine (trim_right s)
unfolding trim_right any_char
trim_right-OneLine String.[] h = refl
trim_right-OneLine (String.◌∷◌ x s) h = go (trim_right s) (trim_right-OneLine s (ground arith))
  where
    go : (r : String) → OneLine r → OneLine (push_trimmed x r)
    go String.[] k = elim (Bool-cases (is_space (code x))) [
      | inl e ↦ rw e refl
      | inr e ↦ ground arith
    ]
    go (String.◌∷◌ y r) k = ground arith

-- A text that does not begin with white space.
abbrev pub Started : String → Type 0
Started String.[] = Unit
Started (String.◌∷◌ x s) = is_space (code x) ≡ false

pub trim_left-Started : (s : String) → Started (trim_left s)
unfolding trim_left
trim_left-Started String.[] = tt
trim_left-Started (String.◌∷◌ x s) = elim (Bool-cases (is_space (code x))) [
  | inl e ↦ rw e (trim_left-Started s)
  | inr e ↦ rw e e
]

push_trimmed-Started :
    (x : Char) (r : String) → is_space (code x) ≡ false → Started (push_trimmed x r)
push_trimmed-Started x String.[] e = rw e e
push_trimmed-Started x (String.◌∷◌ y r) e = e

pub trim_right-Started : (s : String) → Started s → Started (trim_right s)
unfolding trim_right
trim_right-Started String.[] h = tt
trim_right-Started (String.◌∷◌ x s) h = push_trimmed-Started x (trim_right s) h

pub rest-OneLine : (x : Char) (s : String) → OneLine (String.◌∷◌ x s) → OneLine s
unfolding any_char
rest-OneLine x s h = ground arith

push_char-nonempty : (x : Char) (lines : List String) → push_char x lines ≢ []
push_char-nonempty x [] = ground arith
push_char-nonempty x (line ∷ lines) = ground arith

pub split-nonempty : (s : String) → split b'\n' s ≢ []
unfolding split
split-nonempty String.[] = ground arith
split-nonempty (String.◌∷◌ x s) = elim (Bool-cases (code x == b'\n')) [
  | inl e ↦ rw e (ground arith)
  | inr e ↦ rw e (push_char-nonempty x (split b'\n' s))
]
