-- ===== src/Hosts/Lookup.antt =====
-- The list of hosts under lookup, change and removal, and the checks before a write.
use webcasa.Base.{
  ℕ, ◌≡◌, subst, none, some, List, [], ◌∷◌, ◌==◌, All, arith, Bool-cases, Option-cases, inl, inr,
}
use webcasa.Caddy.{Host}
use webcasa.Caddy.Validate.{NetLib}
use webcasa.Hosts.{HostCreateRequest, Store, invalid, find_host, modify_host, remove_host}
use webcasa.Hosts.Checks.{validate_request, create_error, update_error}

module _ {κ} (P : Host → Type κ) where
  pub find_host-All : (hs : List Host) (i : ℕ) (h : Host) → All P hs → find_host hs i ≡ some h → P h
  unfolding find_host
  find_host-All [] i h ps e = absurd (ground (arith, e))
  find_host-All (x ∷ hs) i h (p, ps) e = elim (Bool-cases (x.id == i)) [
    | inl y ↦ let same : some x ≡ some h = rw (y, find_host) at e in subst P (cc same) p
    | inr n ↦ find_host-All hs i h ps (rw (n, find_host) at e)
  ]

  pub modify_host-All :
      (i : ℕ) (f : Host → Host) (hs : List Host)
      → ((h : Host) → P h → P (f h))
      → All P hs
      → All P (modify_host i f hs)
  unfolding modify_host
  modify_host-All i f [] k ps = tt
  modify_host-All i f (x ∷ hs) k (p, ps) = elim (Bool-cases (x.id == i)) [
    | inl y ↦ rw y (k x p, modify_host-All i f hs k ps)
    | inr n ↦ rw n (p, modify_host-All i f hs k ps)
  ]

  pub remove_host-All : (i : ℕ) (hs : List Host) → All P hs → All P (remove_host i hs)
  unfolding remove_host
  remove_host-All i [] ps = tt
  remove_host-All i (x ∷ hs) (p, ps) = elim (Bool-cases (x.id == i)) [
    | inl y ↦ rw y (remove_host-All i hs ps)
    | inr n ↦ rw n (p, remove_host-All i hs ps)
  ]

pub create_error-none :
    (net : NetLib) (s : Store) (req : HostCreateRequest)
    → create_error net s req ≡ none
    → validate_request net req ≡ none
unfolding create_error
create_error-none net s req h = elim (Option-cases (validate_request net req)) [
  | inl e ↦ e
  | inr (x, e) ↦
      let stop : some (invalid x) ≡ none = rw (e, create_error) at h in
      absurd (ground (arith, stop))
]

pub update_error-none :
    (net : NetLib) (s : Store) (i : ℕ) (host : Host) (req : HostCreateRequest)
    → update_error net s i host req ≡ none
    → validate_request net req ≡ none
unfolding update_error
update_error-none net s i host req h = elim (Option-cases (validate_request net req)) [
  | inl e ↦ e
  | inr (x, e) ↦
      let stop : some (invalid x) ≡ none = rw (e, update_error) at h in
      absurd (ground (arith, stop))
]
