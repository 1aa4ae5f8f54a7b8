-- ===== src/Hosts/Safety.antt =====
-- The hosts that the operations build are safe: what they check covers what is rendered.
use webcasa.Base.{ℕ, String, ◌≡◌, refl, none, List, [], ◌∷◌, map, All, any_char}
use webcasa.Caddy.{Host, BasicAuth}
use webcasa.Caddy.Validate.{
  NetLib, Error, validate_domain, validate_upstream, validate_ip_range, validate_caddy_value,
  sanitize_custom_directives,
}
use webcasa.Caddy.Braces.{Plain}
use webcasa.Caddy.Blocks.{Safe}
use webcasa.Hosts.{HostCreateRequest}
use webcasa.Hosts.Checks.{
  each, validate_pair, validate_fields, request_values, host_values, validate_request,
  validate_import,
}
use webcasa.Hosts.Build.{new_host, updated_host}
use webcasa.Hosts.Rows.{
  first_error-none, All_of_map, each-none, pairs-none, input_upstreams-All, input_rules-All,
  input_headers-All, default-none, PlainAuths,
}

-- What the shared checks cover.
Checked :
    NetLib
    → String
    → List String
    → List String
    → String
    → List String
    → List (String × String)
    → Type 0
Checked net domain addresses ranges directives values headers =
    (validate_domain net domain ≡ none)
    × (All (λ a. validate_upstream net a ≡ none) addresses)
    × (All (λ r. validate_ip_range net r ≡ none) ranges)
    × (sanitize_custom_directives directives ≡ none)
    × (All (λ v. validate_caddy_value v ≡ none) values)
    × (each validate_pair headers ≡ none)

validate_fields-Checked :
    (net : NetLib) (domain : String) (addresses ranges : List String) (directives : String)
    (values : List String) (headers : List (String × String))
    → validate_fields net domain addresses ranges directives values headers ≡ none
    → Checked net domain addresses ranges directives values headers
unfolding validate_fields Checked
validate_fields-Checked net domain addresses ranges directives values headers h =
    let checks : List Error =
      validate_domain net domain
      ∷ each (validate_upstream net) addresses
      ∷ each (validate_ip_range net) ranges
      ∷ sanitize_custom_directives directives
      ∷ each validate_caddy_value values
      ∷ each validate_pair headers
      ∷ [] in
    let (hd, (hu, (hr, (hc, (hv, (hh, _)))))) = first_error-none checks h in
    (hd, each-none _ addresses hu, each-none _ ranges hr, hc, each-none _ values hv, hh)

module _ (net : NetLib) where
  -- A host as `Create` builds it.
  pub new_host-Safe :
      (host_key upstream_key : ℕ) (req : HostCreateRequest) (auths : List BasicAuth)
      → validate_request net req ≡ none
      → PlainAuths auths
      → Safe net (new_host host_key upstream_key req auths)
  unfolding new_host validate_request Checked
  new_host-Safe host_key upstream_key req auths h ha =
      let (hd, hu, hr, hc, (v1, (v2, (v3, (v4, (v5, (v6, (v7, (v8, _)))))))), hh) =
        validate_fields-Checked net req.domain _ _ req.custom_directives (request_values net req) _
          h in
      record {
        domain = hd;
        upstreams =
            input_upstreams-All (λ a. validate_upstream net a ≡ none) upstream_key 0 req.upstreams
              (All_of_map _ _ req.upstreams hu);
        rules =
            input_rules-All (λ a. validate_ip_range net a ≡ none) 0 req.access_rules
              (All_of_map _ _ req.access_rules hr);
        directives = hc;
        redirect_url = v1;
        root_path = v2;
        error_page_path = v3;
        php_fastcgi = v4;
        index_files = v5;
        cors_origins = v6;
        cors_methods = v7;
        cors_headers = v8;
        headers =
            input_headers-All (λ a. validate_caddy_value a ≡ none) 0 req.custom_headers
              (pairs-none (λ x. (x.name, x.value)) req.custom_headers hh);
        routes = tt;
        auths = ha;
        cert_path = unfold any_char in refl;
        key_path = unfold any_char in refl;
      }

  -- A host as `Update` builds it, with the routes of the old one.
  pub updated_host-Safe :
      (host : Host) (upstream_key : ℕ) (req : HostCreateRequest) (auths : List BasicAuth)
      → Safe net host
      → validate_request net req ≡ none
      → PlainAuths auths
      → Safe net (updated_host host upstream_key req auths)
  unfolding updated_host validate_request Checked
  updated_host-Safe host upstream_key req auths safe h ha =
      let (hd, hu, hr, hc, (v1, (v2, (v3, (v4, (v5, (v6, (v7, (v8, _)))))))), hh) =
        validate_fields-Checked net req.domain _ _ req.custom_directives (request_values net req) _
          h in
      record {
        domain = hd;
        upstreams =
            input_upstreams-All (λ a. validate_upstream net a ≡ none) upstream_key 0 req.upstreams
              (All_of_map _ _ req.upstreams hu);
        rules =
            input_rules-All (λ a. validate_ip_range net a ≡ none) 0 req.access_rules
              (All_of_map _ _ req.access_rules hr);
        directives = hc;
        redirect_url = default-none req.redirect_url host.redirect_url v1 safe.redirect_url;
        root_path = v2;
        error_page_path = v3;
        php_fastcgi = v4;
        index_files = v5;
        cors_origins = v6;
        cors_methods = v7;
        cors_headers = v8;
        headers =
            input_headers-All (λ a. validate_caddy_value a ≡ none) 0 req.custom_headers
              (pairs-none (λ x. (x.name, x.value)) req.custom_headers hh);
        routes = safe.routes;
        auths = ha;
        cert_path = safe.cert_path;
        key_path = safe.key_path;
      }

  -- A host as `ImportAll` accepts it, where the values that it does not check are plain.
  pub validate_import-Safe :
      (host : Host)
      → validate_import net host ≡ none
      → PlainAuths host.basic_auths
      → Plain host.custom_cert_path × Plain host.custom_key_path
      → Safe net host
  unfolding validate_import Checked
  validate_import-Safe host h ha (hcert, hkey) =
      let fields : Error =
        validate_fields net host.domain (map (λ u. u.address) host.upstreams)
          (map (λ r. r.ip_range) host.access_rules) host.custom_directives (host_values net host)
          (map (λ x. (x.name, x.value)) host.custom_headers) in
      let (hf, (hroutes, _)) =
        first_error-none (fields ∷ each (λ r. validate_caddy_value r.path) host.routes ∷ []) h in
      let (hd, hu, hr, hc, (v1, (v2, (v3, (v4, (v5, (v6, (v7, (v8, _)))))))), hh) =
        validate_fields-Checked net host.domain _ _ host.custom_directives (host_values net host) _
          hf in
      record {
        domain = hd;
        upstreams = All_of_map _ _ host.upstreams hu;
        rules = All_of_map _ _ host.access_rules hr;
        directives = hc;
        redirect_url = v1;
        root_path = v2;
        error_page_path = v3;
        php_fastcgi = v4;
        index_files = v5;
        cors_origins = v6;
        cors_methods = v7;
        cors_headers = v8;
        headers = pairs-none (λ x. (x.name, x.value)) host.custom_headers hh;
        routes = each-none _ host.routes hroutes;
        auths = ha;
        cert_path = hcert;
        key_path = hkey;
      }
