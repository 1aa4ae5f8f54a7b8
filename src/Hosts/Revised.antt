-- ===== src/Hosts/Revised.antt =====
-- Safe hosts under the changes that the operations make to a stored host.
use webcasa.Base.{ℕ, String, Bool, ◌≡◌, sym, subst, Option, none, List, [], ◌∷◌, map, All}
use webcasa.Caddy.{Host, Upstream, Route, CustomHeader, AccessRule, BasicAuth}
use webcasa.Caddy.Validate.{
  NetLib, validate_domain, validate_upstream, validate_ip_range, validate_caddy_value,
}
use webcasa.Caddy.Braces.{Plain}
use webcasa.Caddy.Blocks.{Safe}
use webcasa.Hosts.Build.{remap_route, copy_headers, with_defaults, copied_host}
use webcasa.Hosts.Ops.{remap_routes, remapped, cleared}
use webcasa.Hosts.Rows.{copy_upstreams-All, copy_routes-All, remap_route-path, PlainAuths}

module _ (net : NetLib) where
  remap_routes-All :
      (old new : List Upstream) (rs : List Route)
      → All (λ r. validate_caddy_value r.path ≡ none) rs
      → All (λ r. validate_caddy_value r.path ≡ none) (map (remap_route old new) rs)
  remap_routes-All old new [] h = tt
  remap_routes-All old new (r ∷ rs) (h, hs) = (
    subst (λ p. validate_caddy_value p ≡ none) (sym (remap_route-path old new r)) h,
    remap_routes-All old new rs hs,
  )

  -- A safe host stays safe with other checked rows, another domain and other certificates.
  revised-Safe :
      (host : Host) (key : ℕ) (enabled : Option Bool) (domain : String) (upstreams : List Upstream)
      (headers : List CustomHeader) (rules : List AccessRule) (routes : List Route)
      (auths : List BasicAuth) (cert key_path : String)
      → Safe net host
      → validate_domain net domain ≡ none
      → All (λ u. validate_upstream net u.address ≡ none) upstreams
      → All
          (λ h. (validate_caddy_value h.name ≡ none) × (validate_caddy_value h.value ≡ none))
          headers
      → All (λ r. validate_ip_range net r.ip_range ≡ none) rules
      → All (λ r. validate_caddy_value r.path ≡ none) routes
      → PlainAuths auths
      → Plain cert × Plain key_path
      → Safe net (record host {
        id = key;
        enabled = enabled;
        domain = domain;
        upstreams = upstreams;
        custom_headers = headers;
        access_rules = rules;
        routes = routes;
        basic_auths = auths;
        custom_cert_path = cert;
        custom_key_path = key_path;
      })
  revised-Safe host key enabled domain upstreams headers rules routes auths cert key_path safe hd hu
        hh hr hroutes ha (hc, hk) =
      record {
        domain = hd;
        upstreams = hu;
        rules = hr;
        directives = safe.directives;
        redirect_url = safe.redirect_url;
        root_path = safe.root_path;
        error_page_path = safe.error_page_path;
        php_fastcgi = safe.php_fastcgi;
        index_files = safe.index_files;
        cors_origins = safe.cors_origins;
        cors_methods = safe.cors_methods;
        cors_headers = safe.cors_headers;
        headers = hh;
        routes = hroutes;
        auths = ha;
        cert_path = hc;
        key_path = hk;
      }

  routed :
      (host : Host) (rs : List Route)
      → Safe net host
      → All (λ r. validate_caddy_value r.path ≡ none) rs
      → Safe net (record host { routes = rs })
  routed host rs safe h =
      revised-Safe host _ _ _ _ _ _ rs _ _ _ safe safe.domain safe.upstreams safe.headers safe.rules
        h safe.auths (safe.cert_path, safe.key_path)

  remap_routes-kept :
      (old new : List Upstream) (rs : List Route)
      → All (λ r. validate_caddy_value r.path ≡ none) rs
      → All (λ r. validate_caddy_value r.path ≡ none) (remap_routes old new rs)
  remap_routes-kept [] new rs h = h
  remap_routes-kept (u ∷ us) [] rs h = h
  remap_routes-kept (u ∷ us) (v ∷ vs) rs h = remap_routes-All (u ∷ us) (v ∷ vs) rs h

  pub remapped-Safe :
      (old : List Upstream) (host : Host) → Safe net host → Safe net (remapped old host)
  remapped-Safe old host safe =
      routed host (remap_routes old host.upstreams host.routes) safe
        (remap_routes-kept old host.upstreams host.routes safe.routes)

  -- The columns with a default hold nothing that is checked.
  defaults-Safe : (host : Host) → Safe net host → Safe net (with_defaults host)
  defaults-Safe host safe = record {
    domain = safe.domain;
    upstreams = safe.upstreams;
    rules = safe.rules;
    directives = safe.directives;
    redirect_url = safe.redirect_url;
    root_path = safe.root_path;
    error_page_path = safe.error_page_path;
    php_fastcgi = safe.php_fastcgi;
    index_files = safe.index_files;
    cors_origins = safe.cors_origins;
    cors_methods = safe.cors_methods;
    cors_headers = safe.cors_headers;
    headers = safe.headers;
    routes = safe.routes;
    auths = safe.auths;
    cert_path = safe.cert_path;
    key_path = safe.key_path;
  }

  copy_headers-All :
      (hs : List CustomHeader)
      → All (λ h. (validate_caddy_value h.name ≡ none) × (validate_caddy_value h.value ≡ none)) hs
      → All
          (λ h. (validate_caddy_value h.name ≡ none) × (validate_caddy_value h.value ≡ none))
          (copy_headers hs)
  unfolding copy_headers
  copy_headers-All [] h = tt
  copy_headers-All (x ∷ xs) (h, hs) = (h, copy_headers-All xs hs)

  -- A copy under new keys.
  pub copied_host-Safe :
      (host_key upstream_key route_key : ℕ) (host : Host)
      → Safe net host
      → Safe net (copied_host host_key upstream_key route_key host)
  unfolding copied_host
  copied_host-Safe host_key upstream_key route_key host safe =
      revised-Safe (with_defaults host) host_key _ _ _ _ _ _ _ _ _ (defaults-Safe host safe)
        safe.domain
        (copy_upstreams-All (λ a. validate_upstream net a ≡ none) upstream_key host.upstreams
          safe.upstreams)
        (copy_headers-All host.custom_headers safe.headers) safe.rules
        (copy_routes-All host.upstreams _ route_key host.routes safe.routes) safe.auths
        (safe.cert_path, safe.key_path)

  -- Another domain, other certificates, and no rows.
  pub renamed-Safe :
      (host : Host) (d : String)
      → Safe net host
      → validate_domain net d ≡ none
      → Safe net (record host { domain = d })
  renamed-Safe host d safe h =
      revised-Safe host _ _ d _ _ _ _ _ _ _ safe h safe.upstreams safe.headers safe.rules
        safe.routes safe.auths (safe.cert_path, safe.key_path)

  pub certified-Safe :
      (host : Host) (cert key : String)
      → Safe net host
      → Plain cert × Plain key
      → Safe net (record host { custom_cert_path = cert; custom_key_path = key })
  certified-Safe host cert key safe h =
      revised-Safe host _ _ _ _ _ _ _ _ cert key safe safe.domain safe.upstreams safe.headers
        safe.rules safe.routes safe.auths h

  pub cleared-Safe : (host : Host) → Safe net host → Safe net (cleared host)
  cleared-Safe host safe =
      revised-Safe host _ _ _ [] [] [] _ [] _ _ safe safe.domain tt tt tt safe.routes tt
        (safe.cert_path, safe.key_path)

  pub enabled-Safe :
      (host : Host) (e : Option Bool) → Safe net host → Safe net (record host { enabled = e })
  enabled-Safe host e safe =
      revised-Safe host _ e _ _ _ _ _ _ _ _ safe safe.domain safe.upstreams safe.headers safe.rules
        safe.routes safe.auths (safe.cert_path, safe.key_path)
