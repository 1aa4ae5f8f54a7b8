-- ===== src/Caddy/Render.antt =====
-- internal/caddy/renderer.go: the blocks of a host. A function returns what the source writes to its
-- `strings.Builder`. `RenderLib` is what the source calls: `fmt` for numbers, `sort.Slice` by the field
-- that is compared, and `json.Unmarshal` into a map, in which a missing key reads as the empty text.
pub mod Dns
pub mod Site
use Prim.Native.String.{◌++◌ as ◌<>◌}
use webcasa.Base.{
  ℕ, ℤ, pos, negsuc, String, Bool, true, false, not, ◌&&◌, ◌||◌, Option, none, some, List, [], ◌∷◌,
  map, ◌==◌, ◌=s◌, ltb, if◌then◌else◌, has_prefix, length,
}
use webcasa.Caddy.{Upstream, Route, CustomHeader, AccessRule, BasicAuth, DnsProvider, Host}

pub record RenderLib : Type 1 where
  pub itoa : ℕ → String
  pub sort_by : {A : Type 0} → (A → ℤ) → List A → List A
  pub unmarshal : String → Option (String → String)

-- `p != nil && *p`, and `p != nil && !*p`.
abbrev pub is_on : Option Bool → Bool
is_on none = false
is_on (some b) = b

abbrev pub is_off : Option Bool → Bool
is_off none = false
is_off (some b) = not b

abbrev pub or_default : String → String → String
or_default s d = if s =s "" then d else s

-- The texts of a list, one behind the other.
unfoldable pub concat_map {ℓ} : {A : Type ℓ} → (A → String) → List A → String
concat_map f [] = ""
concat_map f (x ∷ xs) = f x <> concat_map f xs

-- `strings.Join` with a space.
unfoldable pub join_space : List String → String
join_space [] = ""
join_space (a ∷ []) = a
join_space (a ∷ b ∷ rest) = a <> (" " <> join_space (b ∷ rest))

abbrev pub is_302 : ℤ → Bool
is_302 (pos n) = n == 302
is_302 (negsuc n) = false

unfoldable pub render_redirect : Host → String
render_redirect host =
    "\tredir "
    <> (host.redirect_url
        <> ("{uri} " <> ((if is_302 host.redirect_code then "temporary" else "permanent") <> "\n")))

unfoldable pub render_basic_auth : List BasicAuth → String
render_basic_auth auths =
    "\tbasicauth {\n"
    <> (concat_map (λ a. "\t\t" <> (a.username <> (" " <> (a.password_hash <> "\n")))) auths
        <> "\t}\n")

abbrev pub is_public_url : Upstream → Bool
is_public_url u = has_prefix u.address "http://" || has_prefix u.address "https://"

abbrev pub any_public : List Upstream → Bool
any_public [] = false
any_public (u ∷ us) = is_public_url u || any_public us

unfoldable pub render_reverse_proxy : List Upstream → String
render_reverse_proxy upstreams =
    ("\treverse_proxy " <> (join_space (map (λ u. u.address) upstreams) <> " {\n"))
    <> (((if ltb 1 (length upstreams) then "\t\tlb_policy round_robin\n" else "")
          <> ((if any_public upstreams then "\t\theader_up Host {upstream_hostport}\n" else "")
              <> "\t\theader_up X-Real-IP {remote_host}\n"))
        <> "\t}\n")

-- `upstreamMap[id]`: the last upstream of the list with that id.
unfoldable pub find_upstream : List Upstream → ℕ → Option Upstream
find_upstream [] i = none
find_upstream (u ∷ us) i = elim (find_upstream us i) [
  | none ↦ if u.id == i then some u else none
  | some v ↦ some v
]

module _ (lib : RenderLib) where
  unfoldable pub render_target : List Upstream → ℕ → Option ℕ → String
  unfolding find_upstream
  render_target upstreams route none = ""
  render_target upstreams route (some i) = elim (find_upstream upstreams i) [
    | none ↦ ""
    | some u ↦ "\treverse_proxy @path_" <> (lib.itoa route <> (" " <> (u.address <> "\n")))
  ]

  unfoldable pub render_route : List Upstream → Route → String
  unfolding render_target
  render_route upstreams r =
      ("\t@path_" <> (lib.itoa r.id <> (" path " <> (r.path <> "\n"))))
      <> render_target upstreams r.id r.upstream_id

  unfoldable pub render_routes : Host → String
  unfolding render_route concat_map
  render_routes host =
      concat_map (render_route host.upstreams) (lib.sort_by (λ r. r.sort_order) host.routes)

  unfoldable pub render_access_rule : AccessRule → String
  render_access_rule r =
      if r.rule_type =s "allow"
      then ("\t@blocked not remote_ip " <> (r.ip_range <> "\n")) <> "\tabort @blocked\n"
      else if r.rule_type =s "deny"
      then ("\t@denied remote_ip " <> (r.ip_range <> "\n")) <> "\tabort @denied\n"
      else ""

  unfoldable pub render_access_rules : List AccessRule → String
  unfolding render_access_rule concat_map
  render_access_rules rules = concat_map render_access_rule (lib.sort_by (λ r. r.sort_order) rules)

  unfoldable pub render_header : CustomHeader → String
  render_header h =
      if h.operation =s "set"
      then "\t\t" <> (h.name <> (" \"" <> (h.value <> "\"\n")))
      else if h.operation =s "add"
      then "\t\t+" <> (h.name <> (" \"" <> (h.value <> "\"\n")))
      else if h.operation =s "delete"
      then "\t\t-" <> (h.name <> "\n")
      else ""

  unfoldable pub render_response_headers : List CustomHeader → String
  unfolding render_header concat_map
  render_response_headers [] = ""
  render_response_headers (h ∷ hs) =
      "\theader {\n"
      <> (concat_map render_header (lib.sort_by (λ x. x.sort_order) (h ∷ hs)) <> "\t}\n")

  unfoldable pub render_proxy_target : Host → List Upstream → List Route → String
  unfolding render_routes render_reverse_proxy
  render_proxy_target host upstreams (r ∷ rs) = render_routes host
  render_proxy_target host [] [] = ""
  render_proxy_target host (u ∷ us) [] = render_reverse_proxy (u ∷ us)

  unfoldable pub render_proxy_host : Host → String
  unfolding render_proxy_target render_response_headers
  render_proxy_host host =
      render_proxy_target host (lib.sort_by (λ u. u.sort_order) host.upstreams) host.routes
      <> render_response_headers host.custom_headers

unfoldable pub render_cors : Host → String
render_cors host =
    let origins = or_default host.cors_origins "*" in
    "\t@cors_preflight method OPTIONS\n"
    <> (("\theader @cors_preflight {\n"
          <> ((("\t\tAccess-Control-Allow-Origin \"" <> (origins <> "\"\n"))
                <> (("\t\tAccess-Control-Allow-Methods \""
                      <> (or_default host.cors_methods "GET, POST, PUT, DELETE, OPTIONS" <> "\"\n"))
                    <> (("\t\tAccess-Control-Allow-Headers \""
                          <> (or_default host.cors_headers "Content-Type, Authorization" <> "\"\n"))
                        <> "\t\tAccess-Control-Max-Age \"86400\"\n")))
              <> "\t}\n"))
        <> ("\trespond @cors_preflight 204\n"
            <> ("\theader Access-Control-Allow-Origin \"" <> (origins <> "\"\n"))))

abbrev pub security_headers_text : String
security_headers_text =
    "\theader {\n"
    <> ("\t\tStrict-Transport-Security \"max-age=31536000; includeSubDomains; preload\"\n"
        <> ("\t\tX-Content-Type-Options \"nosniff\"\n"
            <> ("\t\tX-Frame-Options \"DENY\"\n"
                <> ("\t\tReferrer-Policy \"strict-origin-when-cross-origin\"\n"
                    <> ("\t\tX-XSS-Protection \"1; mode=block\"\n"
                        <> ("\t\tPermissions-Policy \"camera=(), microphone=(), geolocation=()\"\n"
                            <> "\t}\n"))))))

module _ (lib : RenderLib) where
  unfoldable pub render_error_page : String → ℕ → String
  render_error_page path code =
      ("\t\t@"
        <> (lib.itoa code <> (" expression {err.status_code} == " <> (lib.itoa code <> "\n"))))
      <> (("\t\thandle @" <> (lib.itoa code <> " {\n"))
          <> ((("\t\t\troot * " <> (path <> "\n"))
                <> (("\t\t\trewrite * /" <> (lib.itoa code <> ".html\n")) <> "\t\t\tfile_server\n"))
              <> "\t\t}\n"))

  unfoldable pub render_error_pages : String → String
  unfolding render_error_page concat_map
  render_error_pages path =
      "\thandle_errors {\n"
      <> (concat_map (render_error_page path) (404 ∷ 502 ∷ 503 ∷ []) <> "\t}\n")

unfoldable pub render_static_host : Host → String
render_static_host host =
    ("\troot * " <> (host.root_path <> "\n"))
    <> ((if host.index_files =s "" then "" else "\ttry_files {path} " <> (host.index_files <> "\n"))
        <> (if is_on host.directory_browse then "\tfile_server browse\n" else "\tfile_server\n"))

unfoldable pub render_php_host : Host → String
render_php_host host =
    ("\troot * " <> (host.root_path <> "\n"))
    <> (("\tphp_fastcgi " <> (or_default host.php_fastcgi "localhost:9000" <> "\n"))
        <> "\tfile_server\n")
