-- ===== src/Hosts/Distinct.antt =====
-- Lists of hosts in which no key and no domain stands twice, under insertion, change and removal.
use webcasa.Base.{
  ℕ, String, false, ◌≡◌, ◌≢◌, sym, ◌∙◌, ap, some, List, [], ◌∷◌, ◌++◌, ◌==◌, All, All-append, arith,
  Bool-cases, inl, inr, eq_iff,
}
use webcasa.Caddy.{Host}
use webcasa.Hosts.Lookup.{find_host-All}
use webcasa.Hosts.{find_host, domain_taken, domain_taken_by_other, modify_host, remove_host}

abbrev pub Apart : Host → Host → Type 0
Apart x y = (x.id ≢ y.id) × (x.domain ≢ y.domain)

abbrev pub Distinct : List Host → Type 0
Distinct [] = Unit
Distinct (h ∷ hs) = All (Apart h) hs × Distinct hs

All_map {κ κ'} :
    (P : Host → Type κ) (Q : Host → Type κ') (hs : List Host)
    → ((h : Host) → P h → Q h)
    → All P hs
    → All Q hs
All_map P Q [] f h = tt
All_map P Q (x ∷ hs) f (p, ps) = (f x p, All_map P Q hs f ps)

pub Distinct-append :
    (hs : List Host) (h : Host) → Distinct hs → All (λ x. Apart x h) hs → Distinct (hs ++ h ∷ [])
Distinct-append [] h d a = (tt, tt)
Distinct-append (x ∷ hs) h (dx, d) (ax, a) =
    (All-append (Apart x) hs (h ∷ []) (dx, (ax, tt)), Distinct-append hs h d a)

-- Where the host of a key is replaced, by one with that key and a domain that no other host has.
abbrev pub Free : ℕ → String → Host → Type 0
Free i domain x = x.id ≢ i → x.domain ≢ domain

module _ (i : ℕ) (host : Host) (key : host.id ≡ i) where
  apart-modify :
      (x : Host) (hs : List Host)
      → x.id ≢ i
      → x.domain ≢ host.domain
      → All (Apart x) hs
      → All (Apart x) (modify_host i (λ h. host) hs)
  unfolding modify_host
  apart-modify x [] n m a = tt
  apart-modify x (y ∷ hs) n m (p, ps) = elim (Bool-cases (y.id == i)) [
    | inl e ↦ rw e (((λ q. n (q ∙ key)), m), apart-modify x hs n m ps)
    | inr e ↦ rw e (p, apart-modify x hs n m ps)
  ]

  apart-replaced :
      (x : Host) (hs : List Host)
      → x.id ≡ i
      → All (Apart x) hs
      → All (Free i host.domain) hs
      → All (Apart host) (modify_host i (λ h. host) hs)
  unfolding modify_host
  apart-replaced x [] e a f = tt
  apart-replaced x (y ∷ hs) e ((p, _), ps) (f, fs) =
      let other : y.id ≢ i = λ q. p (e ∙ sym q) in
      let n : (y.id == i) ≡ false = ground (arith, other) in
      rw n (((λ q. other (sym q ∙ key)), (λ q. f other (sym q))), apart-replaced x hs e ps fs)

  pub Distinct-modify :
      (hs : List Host)
      → All (Free i host.domain) hs
      → Distinct hs
      → Distinct (modify_host i (λ h. host) hs)
  unfolding modify_host
  Distinct-modify [] f d = tt
  Distinct-modify (x ∷ hs) (f, fs) (dx, d) = elim (Bool-cases (x.id == i)) [
    | inl e ↦ rw e (apart-replaced x hs (ground (arith, e)) dx fs, Distinct-modify hs fs d)
    | inr e ↦
        let n : x.id ≢ i = ground (arith, e) in
        rw e (apart-modify x hs n (f n) dx, Distinct-modify hs fs d)
  ]

Distinct-remove_all :
    (P : Host → Type 0) (i : ℕ) (hs : List Host) → All P hs → All P (remove_host i hs)
unfolding remove_host
Distinct-remove_all P i [] a = tt
Distinct-remove_all P i (y ∷ hs) (p, ps) = elim (Bool-cases (y.id == i)) [
  | inl e ↦ rw e (Distinct-remove_all P i hs ps)
  | inr e ↦ rw e (p, Distinct-remove_all P i hs ps)
]

pub Distinct-remove : (i : ℕ) (hs : List Host) → Distinct hs → Distinct (remove_host i hs)
unfolding remove_host
Distinct-remove i [] d = tt
Distinct-remove i (x ∷ hs) (dx, d) = elim (Bool-cases (x.id == i)) [
  | inl e ↦ rw e (Distinct-remove i hs d)
  | inr e ↦ rw e (Distinct-remove_all (Apart x) i hs dx, Distinct-remove i hs d)
]

-- What the counts of the source say.
pub domain_taken-false :
    (hs : List Host) (domain : String)
    → domain_taken hs domain ≡ false
    → All (λ x. x.domain ≢ domain) hs
unfolding domain_taken
domain_taken-false [] domain h = tt
domain_taken-false (x ∷ hs) domain h =
    ((ground (arith, h, eq_iff x.domain domain)), domain_taken-false hs domain (ground (arith, h)))

pub domain_taken_by_other-false :
    (hs : List Host) (domain : String) (i : ℕ)
    → domain_taken_by_other hs domain i ≡ false
    → All (Free i domain) hs
unfolding domain_taken_by_other
domain_taken_by_other-false [] domain i h = tt
domain_taken_by_other-false (x ∷ hs) domain i h = (
  (λ n. ground (arith, h, n, eq_iff x.domain domain)),
  domain_taken_by_other-false hs domain i (ground (arith, h)),
)

-- The host that is found has the key, and the others have other domains.
pub find_host-id : (hs : List Host) (i : ℕ) (h : Host) → find_host hs i ≡ some h → h.id ≡ i
unfolding find_host
find_host-id [] i h e = absurd (ground (arith, e))
find_host-id (x ∷ hs) i h e = elim (Bool-cases (x.id == i)) [
  | inl y ↦
      let same : some x ≡ some h = rw (y, find_host) at e in
      let first : x ≡ h = cc same in sym (ap (λ (w : Host). w.id) first) ∙ ground (arith, y)
  | inr n ↦ find_host-id hs i h (rw (n, find_host) at e)
]

pub find_host-Free :
    (hs : List Host) (i : ℕ) (h : Host)
    → Distinct hs
    → find_host hs i ≡ some h
    → All (Free i h.domain) hs
unfolding find_host
find_host-Free [] i h d e = tt
find_host-Free (x ∷ hs) i h (dx, d) e = elim (Bool-cases (x.id == i)) [
  | inl y ↦
      let same : some x ≡ some h = rw (y, find_host) at e in
      let first : x ≡ h = cc same in
      (
        (λ n. absurd (n (ground (arith, y)))),
        All_map (Apart x) (Free i h.domain) hs
            (λ z (a, b) n q. b (ap (λ w. w.domain) first ∙ sym q)) dx,
      )
  | inr n ↦
      let later : find_host hs i ≡ some h = rw (n, find_host) at e in
      let (_, other) = find_host-All (Apart x) hs i h dx later in
      ((λ m. other), find_host-Free hs i h d later)
]
