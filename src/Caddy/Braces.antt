-- ===== src/Caddy/Braces.antt =====
-- The braces of a Caddyfile, read character by character: the depth of the open blocks, where lines
-- that begin with # are comments. A text that closes a block which it did not open has no reading.
use Prim.Native.Char.{code}
use Prim.Native.String.{◌++◌ as ◌<>◌}
use text.Mathlib.TextLemmas.{nil-append, cons-append}
use webcasa.Base.{
  ℕ, zero, suc, String, Bool, false, ◌||◌, ◌≡◌, refl, ◌∙◌, ap, Option, none, some, ◌==◌,
  if◌then◌else◌, is_space, any_char, arith, Bool-cases, inl, inr,
}

pub data Mode : Type 0 where
  line_start in_line in_comment : Mode

-- Where the reading stands: the depth and the mode, unless it failed.
abbrev pub Place : Type 0
Place = Option (ℕ × Mode)

abbrev pub at : ℕ → Mode → Place
at d m = some (d, m)

abbrev pub brace : ℕ → ℕ → Place
brace d c =
    if c == b'{'
    then at (suc d) in_line
    else if c == b'}'
    then (elim d [ zero ↦ none | suc d' ↦ at d' in_line ])
    else at d in_line

abbrev pub read : ℕ → Mode → ℕ → Place
read d line_start c =
    if c == b'\n'
    then at d line_start
    else if is_space c
    then at d line_start
    else if c == b'#'
    then at d in_comment
    else brace d c
read d in_line c = if c == b'\n' then at d line_start else brace d c
read d in_comment c = if c == b'\n' then at d line_start else at d in_comment

abbrev pub advance : Place → ℕ → Place
advance none c = none
advance (some (d, m)) c = read d m c

unfoldable pub scan : Place → String → Place
scan p String.[] = p
scan p (String.◌∷◌ x s) = scan (advance p (code x)) s

pub scan-append : (p : Place) (s t : String) → scan p (s <> t) ≡ scan (scan p s) t
unfolding scan
scan-append p String.[] t = rw nil-append refl
scan-append p (String.◌∷◌ x s) t = rw cons-append (scan-append (advance p (code x)) s t)

-- A text leaves the depth as it is: from any mode, inside a line, and from line start to line start.
unfoldable pub Flat : String → Type 0
Flat s = (d : ℕ) (m : Mode) → (m' : Mode) × (scan (at d m) s ≡ at d m')

unfoldable pub Inline : String → Type 0
Inline s = (d : ℕ) → scan (at d in_line) s ≡ at d in_line

unfoldable pub Whole : String → Type 0
Whole s = (d : ℕ) → scan (at d line_start) s ≡ at d line_start

-- It ends a line, at the same depth.
unfoldable pub Tail : String → Type 0
Tail s = (d : ℕ) (m : Mode) → scan (at d m) s ≡ at d line_start

-- It begins a line, opens a block at the end of a line, does both, and closes a block.
unfoldable pub Leads : String → Type 0
Leads s = (d : ℕ) → scan (at d line_start) s ≡ at d in_line

unfoldable pub Opener : String → Type 0
Opener s = (d : ℕ) → scan (at d in_line) s ≡ at (suc d) line_start

unfoldable pub Opening : String → Type 0
Opening s = (d : ℕ) → scan (at d line_start) s ≡ at (suc d) line_start

unfoldable pub Closing : String → Type 0
Closing s = (d : ℕ) → scan (at (suc d) line_start) s ≡ at d line_start

abbrev pub structural : ℕ → Bool
structural c = c == b'\n' || c == b'{' || c == b'}'

-- A text without a line feed or a brace.
abbrev pub Plain : String → Type 0
Plain s = any_char structural s ≡ false

read-plain :
    (d : ℕ) (m : Mode) (c : ℕ) → structural c ≡ false → (m' : Mode) × (read d m c ≡ at d m')
read-plain d line_start c h = elim (Bool-cases (is_space c)) [
  | inl e ↦ (line_start, ground arith)
  | inr e ↦ elim (Bool-cases (c == b'#')) [
    | inl e' ↦ (in_comment, ground arith)
    | inr e' ↦ (in_line, ground arith)
  ]
]
read-plain d in_line c h = (in_line, ground arith)
read-plain d in_comment c h = (in_comment, ground arith)

pub Plain-Flat : (s : String) → Plain s → Flat s
unfolding scan any_char Flat
Plain-Flat String.[] h d m = (m, refl)
Plain-Flat (String.◌∷◌ x s) h d m =
    let (m', e) = read-plain d m (code x) (ground arith) in rw e (Plain-Flat s (ground arith) d m')

pub Plain-Inline : (s : String) → Plain s → Inline s
unfolding scan any_char Inline
Plain-Inline String.[] h d = refl
Plain-Inline (String.◌∷◌ x s) h d =
    let e : read d in_line (code x) ≡ at d in_line = ground arith in
    rw e (Plain-Inline s (ground arith) d)

pub Flat-append : (s t : String) → Flat s → Flat t → Flat (s <> t)
unfolding Flat
Flat-append s t hs ht d m =
    let (m1, e1) = hs d m in
    let (m2, e2) = ht d m1 in (m2, scan-append (at d m) s t ∙ ap (λ p. scan p t) e1 ∙ e2)

pub Flat-Tail : (s t : String) → Flat s → Tail t → Tail (s <> t)
unfolding Flat Tail
Flat-Tail s t hs ht d m =
    let (m1, e1) = hs d m in scan-append (at d m) s t ∙ ap (λ p. scan p t) e1 ∙ ht d m1

pub Tail-Whole : (s : String) → Tail s → Whole s
unfolding Whole Tail
Tail-Whole s h d = h d line_start

pub Whole-append : (s t : String) → Whole s → Whole t → Whole (s <> t)
unfolding Whole
Whole-append s t hs ht d = scan-append (at d line_start) s t ∙ ap (λ p. scan p t) (hs d) ∙ ht d

pub Whole-nil : Whole ""
unfolding scan Whole
Whole-nil d = refl

pub Inline-append : (s t : String) → Inline s → Inline t → Inline (s <> t)
unfolding Inline
Inline-append s t hs ht d = scan-append (at d in_line) s t ∙ ap (λ p. scan p t) (hs d) ∙ ht d

pub Inline-Opener : (s t : String) → Inline s → Opener t → Opener (s <> t)
unfolding Inline Opener
Inline-Opener s t hs ht d = scan-append (at d in_line) s t ∙ ap (λ p. scan p t) (hs d) ∙ ht d

pub Leads-Opening : (s t : String) → Leads s → Opener t → Opening (s <> t)
unfolding Leads Opener Opening
Leads-Opening s t hs ht d = scan-append (at d line_start) s t ∙ ap (λ p. scan p t) (hs d) ∙ ht d

-- A block: what opens it, its lines, and what closes it.
pub block_Whole : (s t u : String) → Opening s → Whole t → Closing u → Whole (s <> (t <> u))
unfolding Whole Opening Closing
block_Whole s t u hs ht hu d =
    scan-append (at d line_start) s (t <> u)
    ∙ ap (λ p. scan p (t <> u)) (hs d)
    ∙ scan-append (at (suc d) line_start) t u
    ∙ ap (λ p. scan p u) (ht (suc d))
    ∙ hu d
