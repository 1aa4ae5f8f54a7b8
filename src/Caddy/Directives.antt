-- ===== src/Caddy/Directives.antt =====
-- Custom directives: what the sanitizer accepts leaves the depth of the braces as it was, in the form
-- in which the renderer writes it, trimmed and with a tab before each line.
use Prim.Native.Char.{Char, code}
use Prim.Native.String.{◌++◌ as ◌<>◌}
use text.Mathlib.TextLemmas.{nil-append, cons-append}
use webcasa.Base.{
  ℕ, String, true, ◌≡◌, refl, sym, ◌∙◌, ap, none, some, List, [], ◌∷◌, ◌==◌, is_space, split,
  push_char, trim_space, trim_left, trim_right, push_trimmed, arith, Bool-cases, inl, inr,
}
use webcasa.Caddy.Braces.{
  line_start, in_line, in_comment, Place, at, advance, read, scan, scan-append,
}

-- The renderer's loop over the lines.
unfoldable pub tabbed : List String → String
tabbed [] = ""
tabbed (line ∷ lines) = "\t" <> (line <> ("\n" <> tabbed lines))

pub scan-none : (s : String) → scan none s ≡ none
unfolding scan
scan-none String.[] = refl
scan-none (String.◌∷◌ x s) = scan-none s

scan-cons :
    (p : Place) (x : Char) (s : String) → scan p (String.◌∷◌ x s) ≡ scan (advance p (code x)) s
unfolding scan
scan-cons p x s = refl

-- The lines with a tab before each but the first.
unfoldable pub glued : List String → String
glued [] = "\n"
glued (line ∷ lines) = line <> ("\n" <> tabbed lines)

after_newline :
    (p : Place) (s : String) → scan (advance p b'\n') ("\t" <> s) ≡ scan (advance p b'\n') s
after_newline none s = scan-append none "\t" s ∙ ap (λ q. scan q s) (scan-none "\t")
after_newline (some (d, line_start)) s =
    scan-append (at d line_start) "\t" s ∙ (unfold scan in refl)
after_newline (some (d, in_line)) s = scan-append (at d line_start) "\t" s ∙ (unfold scan in refl)
after_newline (some (d, in_comment)) s =
    scan-append (at d line_start) "\t" s ∙ (unfold scan in refl)

split-cons : (s : String) → (h : String) × (t : List String) × (split b'\n' s ≡ h ∷ t)
unfolding split
split-cons String.[] = ("", [], refl)
split-cons (String.◌∷◌ x s) =
    let (h, t, e) = split-cons s in
    elim (Bool-cases (code x == b'\n')) [
      | inl y ↦ ("", split b'\n' s, rw y refl)
      | inr n ↦ (String.◌∷◌ x h, t, rw (n, e) refl)
    ]

glued-push_char :
    (x : Char) (lines : List String) → glued (push_char x lines) ≡ String.◌∷◌ x (glued lines)
unfolding glued tabbed
glued-push_char x [] = cons-append x "" "\n"
glued-push_char x (line ∷ lines) = cons-append x line ("\n" <> tabbed lines)

newline_step :
    (p : Place) (h : String) (t : List String)
    → scan p (glued ("" ∷ h ∷ t)) ≡ scan (advance p b'\n') (glued (h ∷ t))
unfolding glued tabbed scan
newline_step p h t =
    ap (λ u. scan p u) (nil-append ("\n" <> tabbed (h ∷ t)))
    ∙ scan-append p "\n" (tabbed (h ∷ t))
    ∙ after_newline p (glued (h ∷ t))

newline-split :
    (x : Char) (s : String)
    → (code x == b'\n') ≡ true
    → split b'\n' (String.◌∷◌ x s) ≡ "" ∷ split b'\n' s
unfolding split
newline-split x s e = rw e refl

pub scan-glued : (p : Place) (s : String) → scan p (glued (split b'\n' s)) ≡ scan p (s <> "\n")
unfolding split scan glued tabbed
scan-glued p String.[] = refl
scan-glued p (String.◌∷◌ x s) = elim (Bool-cases (code x == b'\n')) [
  | inl e ↦
      let c : code x ≡ b'\n' = ground (arith, e) in
      let (h, t, es) = split-cons s in
      let first = newline_step p h t ∙ ap (λ l. scan (advance p b'\n') (glued l)) (sym es) in
      let last = ap (λ k. scan (advance p k) (s <> "\n")) (sym c) in
      ap (λ u. scan p (glued u)) (newline-split x s e ∙ ap (λ l. "" ∷ l) es)
      ∙ first
      ∙ scan-glued (advance p b'\n') s
      ∙ last
      ∙ ap (λ u. scan p u) (sym (cons-append x s "\n"))
  | inr e ↦
      rw (e, glued-push_char x (split b'\n' s), cons-append x s "\n")
        (scan-glued (advance p (code x)) s)
]

-- Trimming on the left, and on the right before a line feed, changes nothing.
scan-trim_left :
    (d : ℕ) (s t : String)
    → scan (at d line_start) (trim_left s <> t) ≡ scan (at d line_start) (s <> t)
unfolding trim_left scan
scan-trim_left d String.[] t = refl
scan-trim_left d (String.◌∷◌ x s) t = elim (Bool-cases (is_space (code x))) [
  | inr e ↦ rw e refl
  | inl e ↦
      let stays : read d line_start (code x) ≡ at d line_start = ground arith in
      rw (e, cons-append x s t) (scan-trim_left d s t ∙ ap (λ q. scan q (s <> t)) (sym stays))
]

space_then_newline : (p : Place) (c : ℕ) → is_space c ≡ true → scan p "\n" ≡ scan (advance p c) "\n"
unfolding scan
space_then_newline none c e = refl
space_then_newline (some (d, line_start)) c e = ground arith
space_then_newline (some (d, in_line)) c e = ground arith
space_then_newline (some (d, in_comment)) c e = ground arith

scan-push_trimmed :
    (p : Place) (x : Char) (r s : String)
    → ((q : Place) → scan q (r <> "\n") ≡ scan q (s <> "\n"))
    → scan p (push_trimmed x r <> "\n") ≡ scan p (String.◌∷◌ x s <> "\n")
unfolding scan
scan-push_trimmed p x String.[] s ih = elim (Bool-cases (is_space (code x))) [
  | inl e ↦ rw (e, cons-append x s "\n") (space_then_newline p (code x) e ∙ ih (advance p (code x)))
  | inr e ↦ rw (e, cons-append x s "\n", cons-append x "" "\n") (ih (advance p (code x)))
]
scan-push_trimmed p x (String.◌∷◌ y r) s ih =
    rw (cons-append x s "\n", cons-append x (String.◌∷◌ y r) "\n") (ih (advance p (code x)))

scan-trim_right : (p : Place) (s : String) → scan p (trim_right s <> "\n") ≡ scan p (s <> "\n")
unfolding trim_right
scan-trim_right p String.[] = refl
scan-trim_right p (String.◌∷◌ x s) =
    scan-push_trimmed p x (trim_right s) s (λ q. scan-trim_right q s)

pub scan-trim_space :
    (d : ℕ) (s : String)
    → scan (at d line_start) (trim_space s <> "\n") ≡ scan (at d line_start) (s <> "\n")
unfolding trim_space
scan-trim_space d s = scan-trim_right (at d line_start) (trim_left s) ∙ scan-trim_left d s "\n"
