-- ===== src/Hosts/Routes.antt =====
-- The routes of a copied host (`CloneHost` and `ImportAll` of internal/service/host.go) lead where the
-- routes of the original lead.
use webcasa.Base.{
  ℕ, suc, ◌+◌, ◌≤◌, ◌<◌, String, true, false, ◌≡◌, refl, sym, ◌∙◌, ap, ◌⊎◌, Option, none, some,
  List, [], ◌∷◌, map, ◌==◌, arith, Bool-cases, inl, inr,
}
use webcasa.Caddy.{Host, Upstream, Route}
use webcasa.Caddy.Render.{find_upstream}
use webcasa.Hosts.{string_or_default}
use webcasa.Hosts.Build.{position_of, upstream_at, remap, copy_upstreams, copy_routes, copied_host}

-- The address of the upstream of a route, if there is one.
abbrev pub address_of : Option Upstream → Option String
address_of none = none
address_of (some u) = some u.address

abbrev pub target_of : List Upstream → Option ℕ → Option String
target_of upstreams none = none
target_of upstreams (some i) = address_of (find_upstream upstreams i)

-- A path with where it leads.
abbrev pub lead : List Upstream → Route → String × Option String
lead upstreams r = (r.path, target_of upstreams r.upstream_id)

-- The keys of the copies are new.
copy_upstreams-below :
    (us : List Upstream) (key i : ℕ) → i < key → find_upstream (copy_upstreams key us) i ≡ none
unfolding find_upstream copy_upstreams
copy_upstreams-below [] key i h = refl
copy_upstreams-below (u ∷ us) key i h =
    let later = copy_upstreams-below us (key + 1) i (omega arith) in
    let other : (key == i) ≡ false = ground arith in rw (later, other) refl

-- An upstream of the list, its place, and the copy at that place.
Placed : List Upstream → ℕ → ℕ → Type 0
Placed us key i =
    (u : Upstream) × (n : ℕ) × (j : ℕ) × (find_upstream us i ≡ some u)
    × (position_of us i ≡ some n)
    × (upstream_at (copy_upstreams key us) n ≡ some j)
    × (key ≤ j)
    × (address_of (find_upstream (copy_upstreams key us) j) ≡ some u.address)

Missing : List Upstream → ℕ → Type 0
Missing us i = (find_upstream us i ≡ none) × (position_of us i ≡ none)

address_of-kept :
    (o rest : Option Upstream) (a : String)
    → address_of o ≡ some a
    → address_of (elim o [ none ↦ rest | some v ↦ some v ]) ≡ some a
address_of-kept none rest a e = absurd (ground (arith, e))
address_of-kept (some v) rest a e = e

copy_upstreams-here :
    (u : Upstream) (us : List Upstream) (key : ℕ)
    → address_of (find_upstream (copy_upstreams key (u ∷ us)) key) ≡ some u.address
unfolding find_upstream copy_upstreams
copy_upstreams-here u us key =
    let later = copy_upstreams-below us (key + 1) key (omega arith) in
    let same : (key == key) ≡ true = ground arith in rw (later, same) refl

placed : (us : List Upstream) (key i : ℕ) → Missing us i ⊎ Placed us key i
unfolding Missing Placed find_upstream position_of upstream_at copy_upstreams
placed [] key i = inl (refl, refl)
placed (u ∷ us) key i = elim (placed us (key + 1) i) [
  | inr (v, n, j, hf, hp, ha, hj, ht) ↦ inr (
    v,
    suc n,
    j,
    rw hf refl,
    rw hp refl,
    ha,
    (omega arith),
    address_of-kept (find_upstream (copy_upstreams (key + 1) us) j) _ v.address ht,
  )
  | inl (hf, hp) ↦ elim (Bool-cases (u.id == i)) [
    | inr m ↦ inl (rw (hf, m) refl, rw (hp, m) refl)
    | inl y ↦ inr (
      u,
      0,
      key,
      rw (hf, y) refl,
      rw (hp, y) refl,
      refl,
      (omega arith),
      copy_upstreams-here u us key,
    )
  ]
]

remap-none :
    (old new : List Upstream) (i : ℕ) → position_of old i ≡ none → remap old new i none ≡ none
remap-none old new i h = rw (h, remap) refl

remap-some :
    (old new : List Upstream) (i n j : ℕ)
    → position_of old i ≡ some n
    → upstream_at new n ≡ some j
    → remap old new i none ≡ some j
remap-some old new i n j h k = rw (h, remap, k) refl

remap-target :
    (us : List Upstream) (key i : ℕ)
    → target_of (copy_upstreams key us) (remap us (copy_upstreams key us) i none)
      ≡ target_of us (some i)
unfolding Missing Placed
remap-target us key i = elim (placed us key i) [
  | inl (hf, hp) ↦
      ap (λ o. target_of (copy_upstreams key us) o) (remap-none us (copy_upstreams key us) i hp)
      ∙ sym (ap address_of hf)
  | inr (u, n, j, hf, hp, ha, hj, ht) ↦
      ap (λ o. target_of (copy_upstreams key us) o)
        (remap-some us (copy_upstreams key us) i n j hp ha)
      ∙ ht
      ∙ sym (ap address_of hf)
]

-- A path that is empty is written as the default of its column.
abbrev pub original : List Upstream → Route → String × Option String
original upstreams r = (string_or_default r.path "/", target_of upstreams r.upstream_id)

remapped-target :
    (us : List Upstream) (key : ℕ) (o : Option ℕ)
    → target_of
        (copy_upstreams key us)
        (elim o [ none ↦ none | some i ↦ remap us (copy_upstreams key us) i none ])
      ≡ target_of us o
remapped-target us key none = refl
remapped-target us key (some i) = remap-target us key i

copy_routes-leads :
    (us : List Upstream) (key route_key : ℕ) (rs : List Route)
    → map (lead (copy_upstreams key us)) (copy_routes us (copy_upstreams key us) route_key rs)
      ≡ map (original us) rs
unfolding copy_routes
copy_routes-leads us key route_key [] = refl
copy_routes-leads us key route_key (r ∷ rs) =
    ap
      (λ t.
        (string_or_default r.path "/", t)
        ∷ map (lead (copy_upstreams key us))
            (copy_routes us (copy_upstreams key us) (route_key + 1) rs))
      (remapped-target us key r.upstream_id)
    ∙ ap (λ l. original us r ∷ l) (copy_routes-leads us key (route_key + 1) rs)

-- The routes of a copied host, whose rows all have new keys, have the paths of the original's routes and
-- lead to the addresses to which those lead, in the same order; a route that leads nowhere leads nowhere.
-- An empty path reads as the default of its column, a slash.
pub copied_host-leads :
    (host_key upstream_key route_key : ℕ) (host : Host)
    → map
        (lead (copied_host host_key upstream_key route_key host).upstreams)
        (copied_host host_key upstream_key route_key host).routes
      ≡ map (original host.upstreams) host.routes
unfolding copied_host
copied_host-leads host_key upstream_key route_key host =
    copy_routes-leads host.upstreams upstream_key route_key host.routes
