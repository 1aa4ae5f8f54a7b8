-- ===== src/Hosts/Checks.antt =====
-- internal/service/host.go: what `Create`, `Update` and `ImportAll` check before they write. The source
-- ranges over a map of eight values in no order; here the first of them that fails is reported.
use webcasa.Base.{
  ℕ, String, Bool, true, false, not, ◌||◌, Option, none, some, List, [], ◌∷◌, map, ◌=s◌,
  if◌then◌else◌,
}
use webcasa.Caddy.{Host}
use webcasa.Caddy.Validate.{
  NetLib, Error, validate_domain, validate_upstream, validate_ip_range, validate_caddy_value,
  sanitize_custom_directives,
}
use webcasa.Hosts.{
  HostCreateRequest, HostError, invalid, domain_exists, invalid_host_type, missing_field, Store,
  domain_taken, domain_taken_by_other, string_or_default,
}

unfoldable pub first_error : List Error → Error
first_error [] = none
first_error (none ∷ es) = first_error es
first_error (some e ∷ es) = some e

-- A loop that returns the first error.
abbrev pub each {ℓ} : {A : Type ℓ} → (A → Error) → List A → Error
each f xs = first_error (map f xs)

abbrev pub validate_pair : String × String → Error
validate_pair (name, value) =
    first_error (validate_caddy_value name ∷ validate_caddy_value value ∷ [])

module _ (net : NetLib) where
  -- The checks that the three operations share, in their order.
  unfoldable pub validate_fields :
      String → List String → List String → String → List String → List (String × String) → Error
  unfolding first_error
  validate_fields domain addresses ranges directives values headers = first_error (
      validate_domain net domain
      ∷ each (validate_upstream net) addresses
      ∷ each (validate_ip_range net) ranges
      ∷ sanitize_custom_directives directives
      ∷ each validate_caddy_value values
      ∷ each validate_pair headers
      ∷ [])

  abbrev pub request_values : HostCreateRequest → List String
  request_values req =
      req.redirect_url ∷ req.root_path ∷ req.error_page_path ∷ req.php_fastcgi ∷ req.index_files
      ∷ req.cors_origins ∷ req.cors_methods ∷ req.cors_headers ∷ []

  abbrev pub host_values : Host → List String
  host_values host =
      host.redirect_url ∷ host.root_path ∷ host.error_page_path ∷ host.php_fastcgi
      ∷ host.index_files ∷ host.cors_origins ∷ host.cors_methods ∷ host.cors_headers ∷ []

  unfoldable pub validate_request : HostCreateRequest → Error
  unfolding validate_fields
  validate_request req =
      validate_fields req.domain (map (λ u. u.address) req.upstreams)
        (map (λ r. r.ip_range) req.access_rules) req.custom_directives (request_values req)
        (map (λ h. (h.name, h.value)) req.custom_headers)

  unfoldable pub validate_import : Host → Error
  unfolding validate_fields first_error
  validate_import host = first_error (
      validate_fields host.domain (map (λ u. u.address) host.upstreams)
        (map (λ r. r.ip_range) host.access_rules) host.custom_directives (host_values host)
        (map (λ h. (h.name, h.value)) host.custom_headers)
      ∷ each (λ r. validate_caddy_value r.path) host.routes
      ∷ [])

abbrev pub known_host_type : String → Bool
known_host_type t = t =s "proxy" || t =s "redirect" || t =s "static" || t =s "php"

abbrev pub no_upstream : HostCreateRequest → Bool
no_upstream req = elim req.upstreams [ [] ↦ true | u ∷ us ↦ false ]

-- What a type of host cannot be without, by the type, the redirect URL and the root path.
abbrev pub lacks_field : String → HostCreateRequest → String → String → Bool
lacks_field host_type req redirect_url root_path =
    if host_type =s "redirect"
    then redirect_url =s ""
    else if host_type =s "proxy"
    then no_upstream req
    else root_path =s ""

abbrev pub type_error : String → HostCreateRequest → String → String → Option HostError
type_error host_type req redirect_url root_path =
    if not (known_host_type host_type)
    then some invalid_host_type
    else if lacks_field host_type req redirect_url root_path
    then some missing_field
    else none

module _ (net : NetLib) where
  unfoldable pub create_error : Store → HostCreateRequest → Option HostError
  unfolding validate_request domain_taken
  create_error s req = elim (validate_request net req) [
    | some e ↦ some (invalid e)
    | none ↦
        if domain_taken s.hosts req.domain
        then some domain_exists
        else type_error (string_or_default req.host_type "proxy") req req.redirect_url req.root_path
  ]

  unfoldable pub update_error : Store → ℕ → Host → HostCreateRequest → Option HostError
  unfolding validate_request domain_taken_by_other
  update_error s i host req = elim (validate_request net req) [
    | some e ↦ some (invalid e)
    | none ↦
        if domain_taken_by_other s.hosts req.domain i
        then some domain_exists
        else type_error (string_or_default req.host_type host.host_type) req
            (string_or_default req.redirect_url host.redirect_url)
            (string_or_default req.root_path host.root_path)
  ]
