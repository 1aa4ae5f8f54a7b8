-- ===== src/Notify.antt =====
-- internal/notify/ssrf.go: which targets a webhook may have. `NetworkLib` is what the source calls of
-- `net`, `net/url` and `strings`; a lookup is the answer of the resolver, which can change between calls.
pub mod Targets
mod Tests
use webcasa.Base.{
  ℕ, String, Bool, true, false, not, ◌&&◌, ◌||◌, ◌≡◌, ◌≢◌, refl, Option, none, some, List, [], ◌∷◌,
  ◌==◌, ◌=s◌, if◌then◌else◌, All, arith, Bool-cases, Option-cases, inl, inr, contains,
}

pub record Url : Type 0 where
  pub scheme : String
  pub hostname : String

pub record NetworkLib (Ip : Type 0) : Type 0 where
  pub parse_url : String → Option Url
  pub to_lower : String → String
  pub parse_ip : String → Option Ip
  pub is_loopback : Ip → Bool
  pub is_link_local_unicast : Ip → Bool
  pub is_link_local_multicast : Ip → Bool
  pub to4 : Ip → Option (ℕ × ℕ × ℕ × ℕ)
  pub split_host_port : String → Option (String × String)

pub data SsrfError : Type 0 where
  empty_url invalid_url unsupported_scheme blocked_hostname bad_address lookup_failed : SsrfError
  loopback link_local metadata_endpoint : SsrfError

abbrev pub dangerous_hosts : List String
dangerous_hosts =
    "localhost" ∷ "127.0.0.1" ∷ "0.0.0.0" ∷ "::1" ∷ "[::1]" ∷ "metadata.google.internal"
    ∷ "metadata.internal" ∷ []

-- `strings.HasSuffix`.
unfoldable pub has_suffix : String → String → Bool
has_suffix String.[] p = p =s ""
has_suffix (String.◌∷◌ x s) p = (String.◌∷◌ x s) =s p || has_suffix s p

-- A connection is to the first address of the lookup; an empty lookup panics.
pub data Dialled : Type 0 where
  refused : SsrfError → Dialled
  connects : String → String → Dialled
  panics : Dialled

module _ {Ip : Type 0} (lib : NetworkLib Ip) where
  abbrev pub is_metadata : Option (ℕ × ℕ × ℕ × ℕ) → Bool
  is_metadata none = false
  is_metadata (some (a, b, c, d)) = a == 169 && b == 254

  unfoldable pub check_blocked_ip : Ip → Option SsrfError
  check_blocked_ip ip =
      if lib.is_loopback ip
      then some loopback
      else if lib.is_link_local_unicast ip || lib.is_link_local_multicast ip
      then some link_local
      else if is_metadata (lib.to4 ip)
      then some metadata_endpoint
      else none

  -- An address that does not parse is passed over.
  abbrev pub check_address : Option Ip → Option SsrfError
  check_address none = none
  check_address (some ip) = check_blocked_ip ip

  unfoldable pub check_addresses : List String → Option SsrfError
  unfolding check_blocked_ip
  check_addresses [] = none
  check_addresses (addr ∷ rest) = elim (check_address (lib.parse_ip addr)) [
    | some e ↦ some e
    | none ↦ check_addresses rest
  ]

  abbrev pub check_lookup : Option (List String) → Option SsrfError
  check_lookup none = none
  check_lookup (some addresses) = check_addresses addresses

  abbrev pub check_host : (String → Option (List String)) → String → Option Ip → Option SsrfError
  check_host lookup hostname none = check_lookup (lookup hostname)
  check_host lookup hostname (some ip) = check_blocked_ip ip

  abbrev pub validate_hostname : (String → Option (List String)) → String → Option SsrfError
  validate_hostname lookup hostname =
      if contains dangerous_hosts hostname
      then some blocked_hostname
      else if has_suffix hostname ".internal"
      then some blocked_hostname
      else check_host lookup hostname (lib.parse_ip hostname)

  abbrev pub validate_parsed : (String → Option (List String)) → Option Url → Option SsrfError
  validate_parsed lookup none = some invalid_url
  validate_parsed lookup (some u) =
      if not (u.scheme =s "http") && not (u.scheme =s "https")
      then some unsupported_scheme
      else validate_hostname lookup (lib.to_lower u.hostname)

  unfoldable pub validate_webhook_url : (String → Option (List String)) → String → Option SsrfError
  unfolding check_addresses check_blocked_ip has_suffix
  validate_webhook_url lookup raw_url =
      if raw_url =s "" then some empty_url else validate_parsed lookup (lib.parse_url raw_url)

  abbrev pub dial_first : String → List String → Dialled
  dial_first port [] = panics
  dial_first port (addr ∷ rest) = connects addr port

  abbrev pub dial_checked : String → List String → Option SsrfError → Dialled
  dial_checked port addresses (some e) = refused e
  dial_checked port addresses none = dial_first port addresses

  abbrev pub dial_lookup : String → Option (List String) → Dialled
  dial_lookup port none = refused lookup_failed
  dial_lookup port (some addresses) = dial_checked port addresses (check_addresses addresses)

  abbrev pub dial_parts : (String → Option (List String)) → Option (String × String) → Dialled
  dial_parts lookup none = refused bad_address
  dial_parts lookup (some (host, port)) = dial_lookup port (lookup host)

  unfoldable pub safe_dial_context : (String → Option (List String)) → String → Dialled
  unfolding check_addresses check_blocked_ip
  safe_dial_context lookup addr = dial_parts lookup (lib.split_host_port addr)
