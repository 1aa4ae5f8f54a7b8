-- ===== src/Hosts/Rows.antt =====
-- The rows that the operations build from a request or a host carry over what was checked of it.
use webcasa.Base.{
  ℕ, ◌+◌, String, true, ◌≡◌, refl, subst, Option, none, some, List, [], ◌∷◌, map, ◌=s◌, All, arith,
  Bool-cases, Option-cases, inl, inr, any_char,
}
use webcasa.Caddy.{Upstream, Route, BasicAuth}
use webcasa.Caddy.Validate.{Error, validate_caddy_value}
use webcasa.Caddy.Braces.{Plain}
use webcasa.Caddy.Fragments.{validate_caddy_value-Plain}
use webcasa.Hosts.{UpstreamInput, HeaderInput, AccessInput, BasicAuthInput, string_or_default}
use webcasa.Hosts.Checks.{first_error, each, validate_pair}
use webcasa.Hosts.Build.{
  input_upstreams, input_headers, input_rules, add_auth, hash_auths, remap_route, copy_upstreams,
  copy_routes,
}
use webcasa.Hosts.Ops.{accepts_name}

pub first_error-none : (es : List Error) → first_error es ≡ none → All (λ e. e ≡ none) es
unfolding first_error
first_error-none [] h = tt
first_error-none (none ∷ es) h = (refl, first_error-none es h)
first_error-none (some e ∷ es) h = ground (arith, h)

pub All_of_map {ℓ ℓ' κ} :
    {A : Type ℓ} {B : Type ℓ'} (P : B → Type κ) (f : A → B) (xs : List A)
    → All P (map f xs)
    → All (λ x. P (f x)) xs
All_of_map P f [] h = tt
All_of_map P f (x ∷ xs) (h, hs) = (h, All_of_map P f xs hs)

pub each-none {ℓ} :
    {A : Type ℓ} (f : A → Error) (xs : List A) → each f xs ≡ none → All (λ x. f x ≡ none) xs
each-none f xs h = All_of_map (λ e. e ≡ none) f xs (first_error-none (map f xs) h)

pair-none :
    (name value : String)
    → validate_pair (name, value) ≡ none
    → (validate_caddy_value name ≡ none) × (validate_caddy_value value ≡ none)
pair-none name value h =
    let (hn, (hv, _)) =
      first_error-none (validate_caddy_value name ∷ validate_caddy_value value ∷ []) h in
    (hn, hv)

pub pairs-none {ℓ} :
    {A : Type ℓ} (f : A → String × String) (xs : List A)
    → each validate_pair (map f xs) ≡ none
    → All (λ x. (validate_caddy_value (f x).0 ≡ none) × (validate_caddy_value (f x).1 ≡ none)) xs
pairs-none {A = A} f xs h =
    go xs (All_of_map (λ p. validate_pair p ≡ none) f xs (each-none validate_pair (map f xs) h))
  where
    go :
        (ys : List A)
        → All (λ x. validate_pair (f x) ≡ none) ys
        → All
            (λ x. (validate_caddy_value (f x).0 ≡ none) × (validate_caddy_value (f x).1 ≡ none))
            ys
    go [] k = tt
    go (y ∷ ys) (k, ks) = (pair-none (f y).0 (f y).1 k, go ys ks)

-- The rows of a request carry over what was checked of it.
module _ {κ} (P : String → Type κ) where
  pub input_upstreams-All :
      (key i : ℕ) (us : List UpstreamInput)
      → All (λ u. P u.address) us
      → All (λ u. P u.address) (input_upstreams key i us)
  unfolding input_upstreams
  input_upstreams-All key i [] h = tt
  input_upstreams-All key i (u ∷ us) (h, hs) = (h, input_upstreams-All (key + 1) (i + 1) us hs)

  pub input_rules-All :
      (i : ℕ) (rules : List AccessInput)
      → All (λ r. P r.ip_range) rules
      → All (λ r. P r.ip_range) (input_rules i rules)
  unfolding input_rules
  input_rules-All i [] h = tt
  input_rules-All i (r ∷ rest) (h, hs) = (h, input_rules-All (i + 1) rest hs)

  pub input_headers-All :
      (i : ℕ) (headers : List HeaderInput)
      → All (λ h. P h.name × P h.value) headers
      → All (λ h. P h.name × P h.value) (input_headers i headers)
  unfolding input_headers
  input_headers-All i [] h = tt
  input_headers-All i (x ∷ rest) (h, hs) = (h, input_headers-All (i + 1) rest hs)

  pub copy_upstreams-All :
      (key : ℕ) (us : List Upstream)
      → All (λ u. P u.address) us
      → All (λ u. P u.address) (copy_upstreams key us)
  unfolding copy_upstreams
  copy_upstreams-All key [] h = tt
  copy_upstreams-All key (u ∷ us) (h, hs) = (h, copy_upstreams-All (key + 1) us hs)

pub default-none :
    (s d : String)
    → validate_caddy_value s ≡ none
    → validate_caddy_value d ≡ none
    → validate_caddy_value (string_or_default s d) ≡ none
default-none s d hs hd = elim (Bool-cases (s =s "")) [ inl e ↦ rw e hd | inr e ↦ rw e hs ]

pub copy_routes-All :
    (old new : List Upstream) (key : ℕ) (rs : List Route)
    → All (λ r. validate_caddy_value r.path ≡ none) rs
    → All (λ r. validate_caddy_value r.path ≡ none) (copy_routes old new key rs)
unfolding copy_routes
copy_routes-All old new key [] h = tt
copy_routes-All old new key (r ∷ rs) (h, hs) = (
  default-none r.path "/" h (unfold validate_caddy_value in unfold any_char in refl),
  copy_routes-All old new (key + 1) rs hs,
)

pub remap_route-path : (old new : List Upstream) (r : Route) → (remap_route old new r).path ≡ r.path
remap_route-path old new r = elim (Option-cases r.upstream_id) [
  | inl e ↦ rw e refl
  | inr (i, e) ↦ rw e refl
]

accepts_name-Plain : (name : String) → accepts_name name ≡ true → Plain name
accepts_name-Plain name h = validate_caddy_value-Plain name (ground (arith, h))

abbrev pub PlainHashes : (String → Option String) → Type 0
PlainHashes bcrypt = (password hash : String) → bcrypt password ≡ some hash → Plain hash

abbrev pub PlainAuths : List BasicAuth → Type 0
PlainAuths = All (λ a. Plain a.username × Plain a.password_hash)

add_auth-some :
    (bcrypt : String → Option String) (name : String) (o : Option String)
    (rest : Option (List BasicAuth)) (auths : List BasicAuth)
    → add_auth bcrypt name o rest ≡ some auths
    → (hash : String) × (others : List BasicAuth) × (o ≡ some hash)
      × (rest ≡ some others)
      × (record { username = name; password_hash = hash } ∷ others ≡ auths)
add_auth-some bcrypt name none rest auths e = absurd (ground (arith, e))
add_auth-some bcrypt name (some hash) none auths e = absurd (ground (arith, e))
add_auth-some bcrypt name (some hash) (some others) auths e = (hash, others, refl, refl, cc e)

hash_auths-cons :
    (bcrypt : String → Option String) (a : BasicAuthInput) (rest : List BasicAuthInput)
    (auths : List BasicAuth)
    → hash_auths bcrypt accepts_name (a ∷ rest) ≡ some auths
    → (accepts_name a.username ≡ true)
      × (add_auth bcrypt a.username (bcrypt a.password) (hash_auths bcrypt accepts_name rest)
          ≡ some auths)
unfolding hash_auths
hash_auths-cons bcrypt a rest auths h = elim (Bool-cases (accepts_name a.username)) [
  | inl y ↦ (y, rw (y, hash_auths) at h)
  | inr n ↦ let stop : none ≡ some auths = rw (n, hash_auths) at h in absurd (ground (arith, stop))
]

pub hash_auths-Plain :
    (bcrypt : String → Option String) (inputs : List BasicAuthInput) (auths : List BasicAuth)
    → PlainHashes bcrypt
    → hash_auths bcrypt accepts_name inputs ≡ some auths
    → PlainAuths auths
unfolding hash_auths
hash_auths-Plain bcrypt [] auths hp h =
    let e : [] ≡ auths = ground (arith, h) in subst PlainAuths e tt
hash_auths-Plain bcrypt (a ∷ rest) auths hp h =
    let (y, e) = hash_auths-cons bcrypt a rest auths h in
    let (hash, others, eh, eo, same) = add_auth-some bcrypt a.username _ _ auths e in
    subst PlainAuths same (
      (accepts_name-Plain a.username y, hp a.password hash eh),
      hash_auths-Plain bcrypt rest others hp eo,
    )
