-- ===== src/Caddy/Render/Site.antt =====
-- internal/caddy/renderer.go: `renderHostBlock` and `RenderCaddyfile`. The directory of the logs is
-- `cfg.LogDir`, the time is the text of `time.Now`, and the providers are read by their id.
use Prim.Native.String.{◌++◌ as ◌<>◌}
use webcasa.Base.{
  ℕ, String, ◌||◌, Option, none, some, List, [], ◌∷◌, ◌=s◌, if◌then◌else◌, split, trim_space,
}
use webcasa.Caddy.{Host, DnsProvider, BasicAuth, AccessRule}
use webcasa.Caddy.Directives.{tabbed}
use webcasa.Caddy.Render.{
  RenderLib, is_on, is_off, or_default, concat_map, render_access_rules, render_basic_auth,
  render_cors, security_headers_text, render_redirect, render_static_host, render_php_host,
  render_proxy_host, render_error_pages,
}
use webcasa.Caddy.Render.Dns.{render_dns_tls}

abbrev pub tls_mode_of : Host → String
tls_mode_of host = or_default host.tls_mode "auto"

unfoldable pub site_address : Host → String
site_address host =
    if tls_mode_of host =s "off" || is_off host.tls_enabled
    then "http://" <> host.domain
    else host.domain

module _ (lib : RenderLib) (log_dir : String) (providers : ℕ → Option DnsProvider) where
  unfoldable pub render_provider : Option ℕ → String
  unfolding render_dns_tls
  render_provider none = ""
  render_provider (some i) = elim (providers i) [ none ↦ "" | some p ↦ render_dns_tls lib p ]

  unfoldable pub render_tls : Host → String
  unfolding render_provider
  render_tls host =
      let mode = tls_mode_of host in
      if mode =s "custom"
      then (if host.custom_cert_path =s "" || host.custom_key_path =s ""
          then ""
          else "\ttls " <> (host.custom_cert_path <> (" " <> (host.custom_key_path <> "\n"))))
      else if mode =s "dns" || mode =s "wildcard"
      then render_provider host.dns_provider_id
      else ""

  unfoldable pub render_type : Host → String
  unfolding render_redirect render_static_host render_php_host render_proxy_host
  render_type host =
      if host.host_type =s "redirect"
      then render_redirect host
      else if host.host_type =s "static"
      then render_static_host host
      else if host.host_type =s "php"
      then render_php_host host
      else render_proxy_host lib host

  abbrev pub rules_text : List AccessRule → String
  rules_text [] = ""
  rules_text (r ∷ rs) = render_access_rules lib (r ∷ rs)

  abbrev pub auths_text : List BasicAuth → String
  auths_text [] = ""
  auths_text (a ∷ rest) = render_basic_auth (a ∷ rest)

  unfoldable pub render_log : Host → String
  render_log host =
      "\tlog {\n\t\toutput file "
      <> (log_dir
          <> ("/access-"
              <> (host.domain <> ".log {\n\t\t\troll_size 50MiB\n\t\t\troll_keep 3\n\t\t}\n\t}\n")))

  -- What stands between the braces of the site.
  unfoldable pub render_body : Host → String
  unfolding render_tls render_cors render_type tabbed render_error_pages render_log
  render_body host =
      render_tls host
      <> ((if is_on host.compression then "\tencode gzip zstd\n" else "")
          <> (rules_text host.access_rules
              <> (auths_text host.basic_auths
                  <> ((if is_on host.cors_enabled then render_cors host else "")
                      <> ((if is_on host.security_headers then security_headers_text else "")
                          <> (render_type host
                              <> ((if host.custom_directives =s ""
                                    then ""
                                    else tabbed (split b'\n' (trim_space host.custom_directives)))
                                  <> ((if host.error_page_path =s ""
                                        then ""
                                        else render_error_pages lib host.error_page_path)
                                      <> render_log host))))))))

  unfoldable pub render_host_block : Host → String
  unfolding site_address render_body
  render_host_block host = (site_address host <> " {\n") <> (render_body host <> "}\n\n")

  abbrev pub render_enabled : Host → String
  render_enabled host = if is_off host.enabled then "" else render_host_block host

  abbrev pub preamble : String → String
  preamble now =
      "# ============================================\n# Auto-generated by Web.Casa (https://web.casa)\n# DO NOT EDIT MANUALLY — changes will be overwritten\n"
      <> (("# Generated at: " <> (now <> "\n"))
          <> "# ============================================\n\n")

  abbrev pub global_options : String
  global_options =
      "{\n\tadmin localhost:2019\n\tlog {\n\t\toutput file "
      <> (log_dir
          <> "/caddy.log {\n\t\t\troll_size 100MiB\n\t\t\troll_keep 5\n\t\t}\n\t\tlevel INFO\n\t}\n}\n\n")

  unfoldable pub render_caddyfile : String → List Host → String
  unfolding concat_map
  render_caddyfile now hosts = preamble now <> (global_options <> concat_map render_enabled hosts)
