-- ===== src/Caddy/Sanitized.antt =====
-- The count of the braces in custom directives, compared with their reading in a Caddyfile.
use Prim.Native.Char.{Char, code}
use Prim.Native.String.{◌++◌ as ◌<>◌}
use webcasa.Base.{
  ℕ, zero, suc, ◌+◌, String, false, ◌≡◌, ◌≢◌, refl, sym, ◌∙◌, ap, Option, none, some, List, [], ◌∷◌,
  ◌==◌, ◌=s◌, if◌then◌else◌, any_char, has_prefix, cut_prefix, split, trim_space, trim_left,
  trim_right, arith, subst, All, Bool-cases, Option-cases, inl, inr, eq_iff,
}
use webcasa.Caddy.Validate.{
  Depths, fails_at, ends_at, line_depth, lines_depth, brace_step, skipped, depth_error,
  sanitize_custom_directives,
}
use webcasa.Caddy.Braces.{
  Mode, line_start, in_line, in_comment, Place, at, read, scan, scan-append, Whole,
}
use webcasa.Caddy.Lines.{
  is_newline, OneLine, split-OneLine, trim_left-OneLine, trim_right-OneLine, Started,
  trim_left-Started, trim_right-Started, rest-OneLine, split-nonempty,
}
use webcasa.Caddy.Directives.{tabbed, glued, scan-glued, scan-trim_space}

-- Inside a line, the sanitizer counts what the reading counts.
read-brace_step :
    (d k j c : ℕ)
    → is_newline c ≡ false
    → brace_step k c ≡ some j
    → read (k + d) in_line c ≡ at (j + d) in_line
unfolding brace_step
read-brace_step d zero j c h e = ground arith
read-brace_step d (suc k) j c h e = ground arith

line_depth-step :
    (k j k' : ℕ) (x : Char) (s : String)
    → brace_step k (code x) ≡ some j
    → line_depth k (String.◌∷◌ x s) ≡ some k'
    → line_depth j s ≡ some k'
unfolding line_depth
line_depth-step k j k' x s n e = rw (n, line_depth) at e

line_depth-fails :
    (k k' : ℕ) (x : Char) (s : String)
    → brace_step k (code x) ≡ none
    → line_depth k (String.◌∷◌ x s) ≢ some k'
unfolding line_depth
line_depth-fails k k' x s n e = ground (arith, rw (n, line_depth) at e)

scan-line_depth :
    (d k k' : ℕ) (s : String)
    → OneLine s
    → line_depth k s ≡ some k'
    → scan (at (k + d) in_line) s ≡ at (k' + d) in_line
unfolding scan any_char
scan-line_depth d k k' String.[] h e = unfold line_depth in ground arith
scan-line_depth d k k' (String.◌∷◌ x s) h e = elim (Option-cases (brace_step k (code x))) [
  | inl n ↦ absurd (line_depth-fails k k' x s n e)
  | inr (j, n) ↦
      ap (λ p. scan p s) (read-brace_step d k j (code x) (ground arith) n)
      ∙ scan-line_depth d j k' s (ground arith) (line_depth-step k j k' x s n e)
]

scan-comment : (d : ℕ) (s : String) → OneLine s → scan (at d in_comment) s ≡ at d in_comment
unfolding scan any_char
scan-comment d String.[] h = refl
scan-comment d (String.◌∷◌ x s) h =
    let stays : read d in_comment (code x) ≡ at d in_comment = ground arith in
    ap (λ p. scan p s) stays ∙ scan-comment d s (ground arith)

hash_prefix : (x : Char) (s : String) → has_prefix (String.◌∷◌ x s) "#" ≡ (code x == b'#')
unfolding has_prefix cut_prefix
hash_prefix x s = elim (Bool-cases (b'#' == code x)) [
  | inl y ↦ rw y (ground arith)
  | inr n ↦ rw n (ground arith)
]

cons-differs : (x : Char) (s : String) → String.◌∷◌ x s ≢ ""
cons-differs x s = cc

cons-nonempty : (x : Char) (s : String) → (String.◌∷◌ x s =s "") ≡ false
cons-nonempty x s = elim (Bool-cases (String.◌∷◌ x s =s "")) [
  | inl y ↦ absurd (cons-differs x s (ground (arith, y, eq_iff (String.◌∷◌ x s) "")))
  | inr n ↦ n
]

skipped-cons : (x : Char) (s : String) → skipped (String.◌∷◌ x s) ≡ (code x == b'#')
skipped-cons x s = rw (cons-nonempty x s, hash_prefix x s) refl

abbrev go_on : ℕ → Option ℕ → Place
go_on d none = none
go_on d (some k) = at (k + d) in_comment

-- A line of the directives, trimmed.
scan-trimmed :
    (d k k' : ℕ) (t : String)
    → OneLine t
    → Started t
    → (if skipped t then some k else line_depth k t) ≡ some k'
    → (m : Mode) × (scan (at (k + d) line_start) t ≡ at (k' + d) m)
unfolding scan
scan-trimmed d k k' String.[] h st e = (line_start, unfold scan in ground arith)
scan-trimmed d k k' (String.◌∷◌ x s) h st e = elim (Bool-cases (code x == b'#')) [
  | inl y ↦
      let same : some k ≡ some k' = rw (skipped-cons x s, y) at e in
      let enters : read (k + d) line_start (code x) ≡ at (k + d) in_comment = ground arith in
      (
        in_comment,
        ap (λ p. scan p s) enters
            ∙ scan-comment (k + d) s (rest-OneLine x s h)
            ∙ ap (λ o. go_on d o) same,
      )
  | inr n ↦
      let counted : line_depth k (String.◌∷◌ x s) ≡ some k' = rw (skipped-cons x s, n) at e in
      let enters : read (k + d) line_start (code x) ≡ read (k + d) in_line (code x) =
        ground arith in
      (in_line, ap (λ p. scan p s) enters ∙ scan-line_depth d k k' (String.◌∷◌ x s) h counted)
]

newline_ends : (d : ℕ) (m : Mode) → scan (at d m) "\n" ≡ at d line_start
unfolding scan
newline_ends d line_start = refl
newline_ends d in_line = refl
newline_ends d in_comment = refl

scan-line :
    (d k k' : ℕ) (line : String)
    → OneLine line
    → (if skipped (trim_space line) then some k else line_depth k (trim_space line)) ≡ some k'
    → scan (at (k + d) line_start) (line <> "\n") ≡ at (k' + d) line_start
scan-line d k k' line h e =
    let started = trim_right-Started (trim_left line) (trim_left-Started line) in
    let one = trim_right-OneLine (trim_left line) (trim_left-OneLine line h) in
    let (m, same) =
      scan-trimmed d k k' (trim_space line) (unfold trim_space in one)
        (unfold trim_space in started) e in
    sym (scan-trim_space (k + d) line)
    ∙ scan-append (at (k + d) line_start) (trim_space line) "\n"
    ∙ ap (λ p. scan p "\n") same
    ∙ newline_ends (k' + d) m

scan-tab : (d : ℕ) → scan (at d line_start) "\t" ≡ at d line_start
unfolding scan
scan-tab d = refl

tabbed-glued :
    (d : ℕ) (lines : List String)
    → lines ≢ []
    → scan (at d line_start) (tabbed lines) ≡ scan (at d line_start) (glued lines)
unfolding tabbed glued
tabbed-glued d [] h = absurd (h refl)
tabbed-glued d (line ∷ lines) h =
    let t = line <> ("\n" <> tabbed lines) in
    scan-append (at d line_start) "\t" t ∙ ap (λ p. scan p t) (scan-tab d)

depth_error-none : (r : Depths) → depth_error r ≡ none → r ≡ ends_at 0
unfolding depth_error
depth_error-none (fails_at i) e = ground arith
depth_error-none (ends_at zero) e = refl
depth_error-none (ends_at (suc k)) e = ground arith

sanitized_depth :
    (s : String) → sanitize_custom_directives s ≡ none → lines_depth 0 0 (split b'\n' s) ≡ ends_at 0
unfolding sanitize_custom_directives
sanitized_depth String.[] e =
    unfold split in
    unfold lines_depth in unfold trim_space in unfold trim_left in unfold trim_right in refl
sanitized_depth (String.◌∷◌ x s) e = depth_error-none _ (rw (cons-nonempty x s) at e)

abbrev line_result : ℕ → String → Option ℕ
line_result k trimmed = if skipped trimmed then some k else line_depth k trimmed

lines_depth-step :
    (i k j k' : ℕ) (line : String) (lines : List String)
    → line_result k (trim_space line) ≡ some j
    → lines_depth i k (line ∷ lines) ≡ ends_at k'
    → lines_depth (i + 1) j lines ≡ ends_at k'
unfolding lines_depth
lines_depth-step i k j k' line lines n e = rw (n, lines_depth) at e

lines_depth-fails :
    (i k k' : ℕ) (line : String) (lines : List String)
    → line_result k (trim_space line) ≡ none
    → lines_depth i k (line ∷ lines) ≢ ends_at k'
unfolding lines_depth
lines_depth-fails i k k' line lines n e = ground (arith, rw (n, lines_depth) at e)

scan-tabbed :
    (d i k k' : ℕ) (lines : List String)
    → All OneLine lines
    → lines_depth i k lines ≡ ends_at k'
    → scan (at (k + d) line_start) (tabbed lines) ≡ at (k' + d) line_start
unfolding tabbed
scan-tabbed d i k k' [] h e = unfold lines_depth in unfold scan in ground arith
scan-tabbed d i k k' (line ∷ lines) (h, hs) e =
    elim (Option-cases (line_result k (trim_space line))) [
      | inl n ↦ absurd (lines_depth-fails i k k' line lines n e)
      | inr (j, n) ↦
          let start = at (k + d) line_start in
          scan-append start "\t" (line <> ("\n" <> tabbed lines))
          ∙ ap (λ p. scan p (line <> ("\n" <> tabbed lines))) (scan-tab (k + d))
          ∙ scan-append start line ("\n" <> tabbed lines)
          ∙ scan-append (scan start line) "\n" (tabbed lines)
          ∙ ap (λ p. scan p (tabbed lines))
              (sym (scan-append start line "\n") ∙ scan-line d k j line h n)
          ∙ scan-tabbed d (i + 1) j k' lines hs (lines_depth-step i k j k' line lines n e)
    ]

-- The lines of a text, each behind a tab, read as the text does.
scan-tabbed-split :
    (d : ℕ) (s : String)
    → scan (at d line_start) (tabbed (split b'\n' s)) ≡ scan (at d line_start) (s <> "\n")
scan-tabbed-split d s =
    tabbed-glued d (split b'\n' s) (split-nonempty s) ∙ scan-glued (at d line_start) s

closed :
    (lines : List String)
    → All OneLine lines
    → lines_depth 0 0 lines ≡ ends_at 0
    → Whole (tabbed lines)
unfolding Whole
closed lines h e d =
    subst (λ k. scan (at k line_start) (tabbed lines) ≡ at k line_start) (omega arith)
      (scan-tabbed d 0 0 0 lines h e)

-- Directives that the sanitizer accepts, trimmed, split into lines and each behind a tab, as the
-- renderer writes them, open and close their blocks in pairs where only whole lines are comments.
pub sanitize_custom_directives-Whole :
    (directives : String)
    → sanitize_custom_directives directives ≡ none
    → Whole (tabbed (split b'\n' (trim_space directives)))
unfolding Whole
sanitize_custom_directives-Whole directives e d =
    scan-tabbed-split d (trim_space directives)
    ∙ scan-trim_space d directives
    ∙ sym (scan-tabbed-split d directives)
    ∙ closed (split b'\n' directives) (split-OneLine directives) (sanitized_depth directives e) d
