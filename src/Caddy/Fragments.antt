-- ===== src/Caddy/Fragments.antt =====
-- Pieces of a Caddyfile that name no block of their own, and the values that the panel validates.
use Prim.Native.Char.{code}
use Prim.Native.String.{◌++◌ as ◌<>◌}
use webcasa.Base.{
  ℕ, suc, String, Bool, true, false, not, ◌||◌, ◌≡◌, refl, subst, ◌∙◌, ap, none, List, [], ◌∷◌,
  ◌==◌, ◌=s◌, is_space, is_digit, any_char, arith, All, Bool-cases, inl, inr, eq_iff,
}
use webcasa.Caddy.Validate.{
  NetLib, injects, breaks, validate_domain, validate_upstream, validate_ip_range,
  validate_caddy_value,
}
use webcasa.Caddy.Braces.{
  Mode, line_start, in_line, in_comment, at, read, scan, scan-append, Flat, Tail, Opening, Closing,
  Whole, structural, Plain, Whole-append, Whole-nil,
}
use webcasa.Caddy.Render.{concat_map, join_space}
use webcasa.Caddy.Render.Dns.{escapes, safe_dns_value, unusable}

pub any_char_mono :
    (p q : ℕ → Bool) (s : String)
    → ((c : ℕ) → q c ≡ false → p c ≡ false)
    → any_char q s ≡ false
    → any_char p s ≡ false
unfolding any_char
any_char_mono p q String.[] h e = refl
any_char_mono p q (String.◌∷◌ x s) h e =
    let first = h (code x) (ground arith) in
    let others = any_char_mono p q s h (ground arith) in ground arith

-- A text without a line feed, a brace or a `#`.
abbrev pub Clean : String → Type 0
Clean s = any_char (λ c. structural c || c == b'#') s ≡ false

pub Clean-Plain : (s : String) → Clean s → Plain s
Clean-Plain s h =
    any_char_mono structural (λ c. structural c || c == b'#') s (λ c e. ground arith) h

abbrev live : Mode → Bool
live in_comment = false
live line_start = true
live in_line = true

-- It neither is nor begins a comment; and it ends a line with the opening of a block.
unfoldable pub Visible : String → Type 0
Visible s =
    (d : ℕ) (m : Mode)
    → live m ≡ true
    → (m' : Mode) × (live m' ≡ true) × (scan (at d m) s ≡ at d m')

unfoldable pub Opens : String → Type 0
Opens s = (d : ℕ) (m : Mode) → live m ≡ true → scan (at d m) s ≡ at (suc d) line_start

read-Visible :
    (d : ℕ) (m : Mode) (c : ℕ)
    → live m ≡ true
    → (structural c || c == b'#') ≡ false
    → (m' : Mode) × (live m' ≡ true) × (read d m c ≡ at d m')
read-Visible d line_start c l h = elim (Bool-cases (is_space c)) [
  | inl e ↦ (line_start, refl, ground arith)
  | inr e ↦ (in_line, refl, ground arith)
]
read-Visible d in_line c l h = (in_line, refl, ground arith)
read-Visible d in_comment c l h = absurd (ground (arith, l))

pub Clean-Visible : (s : String) → Clean s → Visible s
unfolding scan any_char Visible
Clean-Visible String.[] h d m l = (m, l, refl)
Clean-Visible (String.◌∷◌ x s) h d m l =
    let (m', l', e) = read-Visible d m (code x) l (ground arith) in
    let (m'', l'', e') = Clean-Visible s (ground arith) d m' l' in
    (m'', l'', ap (λ p. scan p s) e ∙ e')

pub Visible-append : (s t : String) → Visible s → Visible t → Visible (s <> t)
unfolding Visible
Visible-append s t hs ht d m l =
    let (m1, l1, e1) = hs d m l in
    let (m2, l2, e2) = ht d m1 l1 in (m2, l2, scan-append (at d m) s t ∙ ap (λ p. scan p t) e1 ∙ e2)

pub Visible-Opens : (s t : String) → Visible s → Opens t → Opens (s <> t)
unfolding Visible Opens
Visible-Opens s t hs ht d m l =
    let (m1, l1, e1) = hs d m l in scan-append (at d m) s t ∙ ap (λ p. scan p t) e1 ∙ ht d m1 l1

pub Opens-Opening : (s : String) → Opens s → Opening s
unfolding Opening Opens
Opens-Opening s h d = h d line_start refl

pub brace-Opens : Opens " {\n"
unfolding scan Opens
brace-Opens d line_start l = refl
brace-Opens d in_line l = refl
brace-Opens d in_comment l = absurd (ground (arith, l))

-- A text whose reading is known from each mode.
pub Flat-text :
    (s : String) (a b c : Mode)
    → ((d : ℕ) → scan (at d line_start) s ≡ at d a)
    → ((d : ℕ) → scan (at d in_line) s ≡ at d b)
    → ((d : ℕ) → scan (at d in_comment) s ≡ at d c)
    → Flat s
unfolding Flat
Flat-text s a b c ha hb hc d line_start = (a, ha d)
Flat-text s a b c ha hb hc d in_line = (b, hb d)
Flat-text s a b c ha hb hc d in_comment = (c, hc d)

pub Tail-text :
    (s : String)
    → ((d : ℕ) → scan (at d line_start) s ≡ at d line_start)
    → ((d : ℕ) → scan (at d in_line) s ≡ at d line_start)
    → ((d : ℕ) → scan (at d in_comment) s ≡ at d line_start)
    → Tail s
unfolding Tail
Tail-text s ha hb hc d line_start = ha d
Tail-text s ha hb hc d in_line = hb d
Tail-text s ha hb hc d in_comment = hc d

pub Whole-text : (s : String) → ((d : ℕ) → scan (at d line_start) s ≡ at d line_start) → Whole s
unfolding Whole
Whole-text s h = h

pub Opening-text :
    (s : String) → ((d : ℕ) → scan (at d line_start) s ≡ at (suc d) line_start) → Opening s
unfolding Opening
Opening-text s h = h

pub Closing-text :
    (s : String) → ((d : ℕ) → scan (at (suc d) line_start) s ≡ at d line_start) → Closing s
unfolding Closing
Closing-text s h = h

pub newline-Tail : Tail "\n"
unfolding scan
newline-Tail = Tail-text "\n" (λ d. refl) (λ d. refl) (λ d. refl)

pub concat_map-Whole {κ} :
    {A : Type 0} (P : A → Type κ) (f : A → String) (xs : List A)
    → ((x : A) → P x → Whole (f x))
    → All P xs
    → Whole (concat_map f xs)
unfolding concat_map
concat_map-Whole P f [] h hs = Whole-nil
concat_map-Whole P f (x ∷ xs) h (hx, hs) =
    Whole-append (f x) (concat_map f xs) (h x hx) (concat_map-Whole P f xs h hs)

-- What the validators accept.
pub validate_caddy_value-Plain : (v : String) → validate_caddy_value v ≡ none → Plain v
unfolding validate_caddy_value
validate_caddy_value-Plain v h = elim (Bool-cases (v =s "")) [
  | inl y ↦
      let e : "" ≡ v = ground (arith, y, eq_iff v "") in
      subst (λ t. Plain t) e (unfold any_char in refl)
  | inr n ↦ any_char_mono structural breaks v (λ c e. ground arith) (ground (arith, n, h))
]

module _ (net : NetLib) where
  pub validate_domain-Clean : (s : String) → validate_domain net s ≡ none → Clean s
  unfolding validate_domain
  validate_domain-Clean s h = any_char_mono _ injects s (λ c e. ground arith) (ground (arith, h))

  pub validate_upstream-Clean : (s : String) → validate_upstream net s ≡ none → Clean s
  unfolding validate_upstream
  validate_upstream-Clean s h = any_char_mono _ injects s (λ c e. ground arith) (ground (arith, h))

  pub validate_ip_range-Clean : (s : String) → validate_ip_range net s ≡ none → Clean s
  unfolding validate_ip_range
  validate_ip_range-Clean s h = any_char_mono _ injects s (λ c e. ground arith) (ground (arith, h))

pub unusable-Plain : (v : String) → unusable v ≡ false → Plain v
unfolding safe_dns_value
unusable-Plain v h = any_char_mono structural escapes v (λ c e. ground arith) (ground (arith, h))

pub digits-Clean : (s : String) → any_char (λ c. not (is_digit c)) s ≡ false → Clean s
digits-Clean s h = any_char_mono _ (λ c. not (is_digit c)) s (λ c e. ground arith) h

-- The addresses of upstreams, joined.
pub join_space-Clean : (xs : List String) → All Clean xs → Visible (join_space xs)
unfolding join_space
join_space-Clean [] h = Clean-Visible "" (unfold any_char in refl)
join_space-Clean (a ∷ []) (h, _) = Clean-Visible a h
join_space-Clean (a ∷ b ∷ rest) (h, hs) = Visible-append a _ (Clean-Visible a h) (
    Visible-append " " _ (Clean-Visible " " (unfold any_char in refl))
      (join_space-Clean (b ∷ rest) hs))
