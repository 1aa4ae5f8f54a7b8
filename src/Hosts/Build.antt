-- ===== src/Hosts/Build.antt =====
-- internal/service/host.go: the rows that the operations build. `bcrypt` is the hash of a password, which
-- can fail; keys are given in the order in which the rows are inserted.
use webcasa.Base.{
  ℕ, zero, suc, ◌+◌, ℤ, pos, negsuc, is_nonpos, String, Bool, true, false, Option, none, some, List,
  [], ◌∷◌, ◌==◌, if◌then◌else◌,
}
use webcasa.Caddy.{Upstream, Route, CustomHeader, AccessRule, BasicAuth, Host}
use webcasa.Caddy.Render.{is_on}
use webcasa.Hosts.{
  UpstreamInput, HeaderInput, AccessInput, BasicAuthInput, HostCreateRequest, bool_or_default,
  int_or_default, string_or_default, key_or_nil,
}

-- The rows of a request, from a key and a position on.
unfoldable pub input_upstreams : ℕ → ℕ → List UpstreamInput → List Upstream
input_upstreams key i [] = []
input_upstreams key i (u ∷ us) =
    record {
      id = key;
      address = u.address;
      weight = if is_nonpos u.weight then pos 1 else u.weight;
      sort_order = pos i;
    }
    ∷ input_upstreams (key + 1) (i + 1) us

unfoldable pub input_headers : ℕ → List HeaderInput → List CustomHeader
input_headers i [] = []
input_headers i (h ∷ hs) =
    record {
      direction = string_or_default h.direction "response";
      operation = string_or_default h.operation "set";
      name = h.name;
      value = h.value;
      sort_order = pos i;
    }
    ∷ input_headers (i + 1) hs

unfoldable pub input_rules : ℕ → List AccessInput → List AccessRule
input_rules i [] = []
input_rules i (a ∷ rest) =
    record { rule_type = a.rule_type; ip_range = a.ip_range; sort_order = pos i }
    ∷ input_rules (i + 1) rest

module _ (bcrypt : String → Option String) where
  abbrev pub add_auth : String → Option String → Option (List BasicAuth) → Option (List BasicAuth)
  add_auth username none rest = none
  add_auth username (some hash) none = none
  add_auth username (some hash) (some auths) =
      some (record { username = username; password_hash = hash } ∷ auths)

  -- The loop over the basic auths, which stops at a name that breaks the syntax or a hash that fails.
  unfoldable pub hash_auths : (String → Bool) → List BasicAuthInput → Option (List BasicAuth)
  hash_auths accepts [] = some []
  hash_auths accepts (a ∷ rest) =
      let others = hash_auths accepts rest in
      if accepts a.username then add_auth a.username (bcrypt a.password) others else none

unfoldable pub new_host : ℕ → ℕ → HostCreateRequest → List BasicAuth → Host
unfolding input_upstreams input_headers input_rules
new_host host_key upstream_key req auths = record {
  id = host_key;
  domain = req.domain;
  host_type = string_or_default req.host_type "proxy";
  enabled = some (bool_or_default req.enabled true);
  tls_enabled = some (bool_or_default req.tls_enabled true);
  http_redirect = some (bool_or_default req.http_redirect true);
  web_socket = some (bool_or_default req.web_socket false);
  redirect_url = req.redirect_url;
  redirect_code = int_or_default req.redirect_code (pos 301);
  custom_cert_path = "";
  custom_key_path = "";
  tls_mode = string_or_default req.tls_mode "auto";
  dns_provider_id = key_or_nil req.dns_provider_id;
  certificate_id = none;
  compression = some (bool_or_default req.compression false);
  cache_enabled = some (bool_or_default req.cache_enabled false);
  cache_ttl = int_or_default req.cache_ttl (pos 300);
  cors_enabled = some (bool_or_default req.cors_enabled false);
  cors_origins = req.cors_origins;
  cors_methods = req.cors_methods;
  cors_headers = req.cors_headers;
  security_headers = some (bool_or_default req.security_headers false);
  error_page_path = req.error_page_path;
  custom_directives = req.custom_directives;
  root_path = req.root_path;
  directory_browse = some (bool_or_default req.directory_browse false);
  php_fastcgi = req.php_fastcgi;
  index_files = req.index_files;
  group_id = key_or_nil req.group_id;
  tags = req.tag_ids;
  upstreams = input_upstreams upstream_key 0 req.upstreams;
  custom_headers = input_headers 0 req.custom_headers;
  access_rules = input_rules 0 req.access_rules;
  routes = [];
  basic_auths = auths;
}

-- `oldIDMap`: the position of an upstream among the old ones, and the new upstream at a position.
unfoldable pub position_of : List Upstream → ℕ → Option ℕ
position_of [] i = none
position_of (u ∷ us) i = elim (position_of us i) [
  | some n ↦ some (suc n)
  | none ↦ if u.id == i then some 0 else none
]

unfoldable pub upstream_at : List Upstream → ℕ → Option ℕ
upstream_at [] n = none
upstream_at (u ∷ us) zero = some u.id
upstream_at (u ∷ us) (suc n) = upstream_at us n

-- The new upstream at the place of an old one; without one, `otherwise`.
abbrev pub remap : List Upstream → List Upstream → ℕ → Option ℕ → Option ℕ
remap old new i otherwise = elim (position_of old i) [
  | none ↦ otherwise
  | some n ↦ (elim (upstream_at new n) [ none ↦ otherwise | some j ↦ some j ])
]

-- `Update` leaves a route as it is where it finds no new upstream.
abbrev pub remap_route : List Upstream → List Upstream → Route → Route
remap_route old new r = elim r.upstream_id [
  | none ↦ r
  | some i ↦ record r { upstream_id = remap old new i (some i) }
]

-- Asked for a group, `Save` writes the key of the preloaded group again, if the host has one; without
-- one asked for, the key is cleared after it.
abbrev pub saved_group : Option ℕ → Option ℕ → Option ℕ
saved_group old none = none
saved_group none (some i) = key_or_nil (some i)
saved_group (some group) (some i) = some group

unfoldable pub updated_host : Host → ℕ → HostCreateRequest → List BasicAuth → Host
unfolding input_upstreams input_headers input_rules
updated_host host upstream_key req auths = record host {
  domain = req.domain;
  host_type = string_or_default req.host_type host.host_type;
  enabled = some (bool_or_default req.enabled (is_on host.enabled));
  tls_enabled = some (bool_or_default req.tls_enabled (is_on host.tls_enabled));
  http_redirect = some (bool_or_default req.http_redirect (is_on host.http_redirect));
  web_socket = some (bool_or_default req.web_socket (is_on host.web_socket));
  redirect_url = string_or_default req.redirect_url host.redirect_url;
  redirect_code = int_or_default req.redirect_code host.redirect_code;
  custom_directives = req.custom_directives;
  compression = some (bool_or_default req.compression (is_on host.compression));
  cache_enabled = some (bool_or_default req.cache_enabled (is_on host.cache_enabled));
  cache_ttl = int_or_default req.cache_ttl host.cache_ttl;
  cors_enabled = some (bool_or_default req.cors_enabled (is_on host.cors_enabled));
  cors_origins = req.cors_origins;
  cors_methods = req.cors_methods;
  cors_headers = req.cors_headers;
  security_headers = some (bool_or_default req.security_headers (is_on host.security_headers));
  error_page_path = req.error_page_path;
  root_path = req.root_path;
  directory_browse = some (bool_or_default req.directory_browse (is_on host.directory_browse));
  php_fastcgi = req.php_fastcgi;
  index_files = req.index_files;
  tls_mode = string_or_default req.tls_mode host.tls_mode;
  dns_provider_id = key_or_nil req.dns_provider_id;
  group_id = saved_group host.group_id req.group_id;
  tags = req.tag_ids;
  upstreams = input_upstreams upstream_key 0 req.upstreams;
  custom_headers = input_headers 0 req.custom_headers;
  access_rules = input_rules 0 req.access_rules;
  basic_auths = auths;
}

-- A number of which zero is written as the default of its column.
abbrev pub column_or_default : ℤ → ℤ → ℤ
column_or_default (pos zero) d = d
column_or_default (pos (suc n)) d = pos (suc n)
column_or_default (negsuc n) d = negsuc n

-- Copies of upstreams with new keys. `Create` leaves the zero value of a column with a default to the
-- default, here and below.
unfoldable pub copy_upstreams : ℕ → List Upstream → List Upstream
copy_upstreams key [] = []
copy_upstreams key (u ∷ us) =
    record u { id = key; weight = column_or_default u.weight (pos 1) } ∷ copy_upstreams (key + 1) us

unfoldable pub copy_headers : List CustomHeader → List CustomHeader
copy_headers [] = []
copy_headers (h ∷ hs) =
    record h {
      direction = string_or_default h.direction "request";
      operation = string_or_default h.operation "set";
    }
    ∷ copy_headers hs

-- Copies of routes with new keys; `CloneHost` and `ImportAll` clear an upstream they do not find.
unfoldable pub copy_routes : List Upstream → List Upstream → ℕ → List Route → List Route
copy_routes old new key [] = []
copy_routes old new key (r ∷ rs) =
    record {
      id = key;
      path = string_or_default r.path "/";
      upstream_id = elim r.upstream_id [ none ↦ none | some i ↦ remap old new i none ];
      sort_order = r.sort_order;
    }
    ∷ copy_routes old new (key + 1) rs

-- The columns of a host with a default.
abbrev pub with_defaults : Host → Host
with_defaults host = record host {
  host_type = string_or_default host.host_type "proxy";
  enabled = some (bool_or_default host.enabled true);
  tls_enabled = some (bool_or_default host.tls_enabled true);
  http_redirect = some (bool_or_default host.http_redirect true);
  web_socket = some (bool_or_default host.web_socket false);
  redirect_code = column_or_default host.redirect_code (pos 301);
  tls_mode = string_or_default host.tls_mode "auto";
  compression = some (bool_or_default host.compression false);
  cache_enabled = some (bool_or_default host.cache_enabled false);
  cache_ttl = column_or_default host.cache_ttl (pos 300);
  cors_enabled = some (bool_or_default host.cors_enabled false);
  security_headers = some (bool_or_default host.security_headers false);
  directory_browse = some (bool_or_default host.directory_browse false);
}

-- A host with the rows of another one, under new keys.
unfoldable pub copied_host : ℕ → ℕ → ℕ → Host → Host
unfolding copy_upstreams copy_headers copy_routes
copied_host host_key upstream_key route_key host =
    let upstreams = copy_upstreams upstream_key host.upstreams in
    record (with_defaults host) {
      id = host_key;
      upstreams = upstreams;
      custom_headers = copy_headers host.custom_headers;
      routes = copy_routes host.upstreams upstreams route_key host.routes;
    }
