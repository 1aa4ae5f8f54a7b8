-- ===== src/Hosts/Keys.antt =====
-- The list of hosts with its next key, under the steps that the operations consist of.
use webcasa.Base.{
  ℕ, ◌+◌, ◌<◌, false, ◌≡◌, ◌≢◌, none, some, List, [], ◌∷◌, ◌++◌, ◌==◌, All, All-append, arith,
  Bool-cases, Option-cases, inl, inr,
}
use webcasa.Caddy.{Host}
use webcasa.Caddy.Validate.{NetLib}
use webcasa.Hosts.{
  HostCreateRequest, Store, domain_exists, invalid, find_host, domain_taken, domain_taken_by_other,
  modify_host,
}
use webcasa.Hosts.Checks.{validate_request, create_error, update_error}
use webcasa.Hosts.Lookup.{find_host-All, modify_host-All}
use webcasa.Hosts.Distinct.{
  Apart, Distinct, Free, Distinct-append, Distinct-modify, domain_taken-false, find_host-id,
}
use webcasa.Hosts.Ops.{cleared}

-- The keys and the domains are distinct, and the next key is above all of them.
abbrev pub Keyed : List Host → ℕ → Type 0
Keyed hosts next = Distinct hosts × All (λ h. h.id < next) hosts

fresh :
    (hs : List Host) (h : Host) (next : ℕ)
    → h.id ≡ next
    → All (λ x. x.id < next) hs
    → All (λ x. x.domain ≢ h.domain) hs
    → All (λ x. Apart x h) hs
fresh [] h next e b d = tt
fresh (x ∷ hs) h next e (b, bs) (d, ds) =
    (((λ q. ground (arith, q, e, b)), d), fresh hs h next e bs ds)

above : (hs : List Host) (next : ℕ) → All (λ x. x.id < next) hs → All (λ x. x.id < next + 1) hs
above [] next b = tt
above (x ∷ hs) next (b, bs) = ((omega arith), above hs next bs)

pub insert-Keyed :
    (hs : List Host) (h : Host) (next : ℕ)
    → h.id ≡ next
    → domain_taken hs h.domain ≡ false
    → Keyed hs next
    → Keyed (hs ++ h ∷ []) (next + 1)
insert-Keyed hs h next e t (d, b) =
    let here : h.id < next + 1 = ground (arith, e) in
    (
      Distinct-append hs h d (fresh hs h next e b (domain_taken-false hs h.domain t)),
      All-append (λ x. x.id < next + 1) hs (h ∷ []) (above hs next b, (here, tt)),
    )

pub replace-Keyed :
    (hs : List Host) (i : ℕ) (old h : Host) (next : ℕ)
    → find_host hs i ≡ some old
    → h.id ≡ i
    → All (Free i h.domain) hs
    → Keyed hs next
    → Keyed (modify_host i (λ x. h) hs) next
replace-Keyed hs i old h next e k f (d, b) =
    let placed : old.id < next = find_host-All (λ x. x.id < next) hs i old b e in
    let found = find_host-id hs i old e in
    let under : h.id < next = ground (arith, placed, found, k) in
    (
      Distinct-modify i h k hs f d,
      modify_host-All (λ x. x.id < next) i (λ x. h) hs (λ x c. under) b,
    )

pub cleared-Distinct : (i : ℕ) (hs : List Host) → Distinct hs → Distinct (modify_host i cleared hs)
unfolding modify_host
cleared-Distinct i [] d = tt
cleared-Distinct i (x ∷ hs) (dx, d) =
    let others = modify_host-All (Apart x) i cleared hs (λ h a. a) dx in
    elim (Bool-cases (x.id == i)) [
      | inl e ↦ rw e (others, cleared-Distinct i hs d)
      | inr e ↦ rw e (others, cleared-Distinct i hs d)
    ]

-- What the checks of a creation and an update say of the domain.
pub create_error-domain :
    (net : NetLib) (s : Store) (req : HostCreateRequest)
    → create_error net s req ≡ none
    → domain_taken s.hosts req.domain ≡ false
unfolding create_error
create_error-domain net s req h = elim (Option-cases (validate_request net req)) [
  | inr (x, e) ↦
      let stop : some (invalid x) ≡ none = rw (e, create_error) at h in
      absurd (ground (arith, stop))
  | inl e ↦ elim (Bool-cases (domain_taken s.hosts req.domain)) [
    | inr n ↦ n
    | inl y ↦
        let stop : some domain_exists ≡ none = rw (e, create_error, y) at h in
        absurd (ground (arith, stop))
  ]
]

pub update_error-domain :
    (net : NetLib) (s : Store) (i : ℕ) (host : Host) (req : HostCreateRequest)
    → update_error net s i host req ≡ none
    → domain_taken_by_other s.hosts req.domain i ≡ false
unfolding update_error
update_error-domain net s i host req h = elim (Option-cases (validate_request net req)) [
  | inr (x, e) ↦
      let stop : some (invalid x) ≡ none = rw (e, update_error) at h in
      absurd (ground (arith, stop))
  | inl e ↦ elim (Bool-cases (domain_taken_by_other s.hosts req.domain i)) [
    | inr n ↦ n
    | inl y ↦
        let stop : some domain_exists ≡ none = rw (e, update_error, y) at h in
        absurd (ground (arith, stop))
  ]
]
