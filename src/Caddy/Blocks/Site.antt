-- ===== src/Caddy/Blocks/Site.antt =====
-- The block of a site and the whole Caddyfile.
use Prim.Native.String.{◌++◌ as ◌<>◌}
use webcasa.Base.{
  ℕ, suc, String, ◌≡◌, refl, Option, none, some, List, [], ◌∷◌, ◌=s◌, ◌||◌, any_char, All,
  Bool-cases, Option-cases, inl, inr, ◌∙◌, ap,
}
use webcasa.Caddy.{Host, AccessRule, BasicAuth, DnsProvider}
use webcasa.Caddy.Validate.{NetLib, validate_ip_range}
use webcasa.Caddy.Braces.{
  line_start, in_line, at, scan, scan-append, Inline, Plain-Inline, Whole, Whole-append, Whole-nil,
  block_Whole, Plain, Plain-Flat,
}
use webcasa.Caddy.Sanitized.{sanitize_custom_directives-Whole}
use webcasa.Caddy.Render.{RenderLib, is_on, is_off}
use webcasa.Caddy.Render.Site.{
  tls_mode_of, site_address, render_provider, render_tls, render_type, rules_text, auths_text,
  render_log, render_body, render_host_block, render_enabled, global_options, render_caddyfile,
}
use webcasa.Caddy.Fragments.{
  Clean-Plain, Clean-Visible, Visible, Visible-append, Visible-Opens, Opens-Opening, brace-Opens,
  Whole-text, Closing-text, newline-Tail, concat_map-Whole, validate_domain-Clean,
}
use webcasa.Caddy.Blocks.{Safe, RenderLaws, line_Whole, pair_line_Whole, if_Whole}
use webcasa.Caddy.Blocks.Dns.{render_dns_tls-Whole}
use webcasa.Caddy.Blocks.Parts.{
  render_redirect-Whole, render_basic_auth-Whole, render_cors-Whole, security_headers-Whole,
  render_static_host-Whole, render_php_host-Whole,
}
use webcasa.Caddy.Blocks.Proxy.{
  render_access_rules-Whole, render_proxy_host-Whole, render_error_pages-Whole,
}

-- A text whose first piece opens blocks and stays inside a line, in which a value follows.
skip_Plain : (d : ℕ) (v t : String) → Plain v → scan (at d in_line) (v <> t) ≡ scan (at d in_line) t
unfolding Inline
skip_Plain d v t h = scan-append (at d in_line) v t ∙ ap (λ p. scan p t) (Plain-Inline v h d)

value_block :
    (s t : String) (k : ℕ → ℕ)
    → ((d : ℕ) → scan (at d line_start) s ≡ at (k d) in_line)
    → ((d : ℕ) → scan (at (k d) in_line) t ≡ at d line_start)
    → Whole (s <> t)
unfolding Whole
value_block s t k hs ht d = scan-append (at d line_start) s t ∙ ap (λ p. scan p t) (hs d) ∙ ht d

module _ (lib : RenderLib) (laws : RenderLaws lib) (net : NetLib) (log_dir : String)
    (log_Plain : Plain log_dir) (providers : ℕ → Option DnsProvider) where
  render_provider-Whole : (o : Option ℕ) → Whole (render_provider lib log_dir providers o)
  unfolding render_provider
  render_provider-Whole none = Whole-nil
  render_provider-Whole (some i) = elim (Option-cases (providers i)) [
    | inl e ↦ rw (e, render_provider) Whole-nil
    | inr (p, e) ↦ rw (e, render_provider) (render_dns_tls-Whole lib p)
  ]

  render_tls-Whole : (host : Host) → Safe net host → Whole (render_tls lib log_dir providers host)
  unfolding render_tls any_char
  render_tls-Whole host safe =
      if_Whole (tls_mode_of host =s "custom") _ _
        (if_Whole (host.custom_cert_path =s "" || host.custom_key_path =s "") "" _ Whole-nil (
          pair_line_Whole "\ttls " host.custom_cert_path " " host.custom_key_path "\n" refl
            (Plain-Flat host.custom_cert_path safe.cert_path) (Plain-Flat " " refl)
            (Plain-Flat host.custom_key_path safe.key_path) newline-Tail))
        (if_Whole (tls_mode_of host =s "dns" || tls_mode_of host =s "wildcard") _ ""
          (render_provider-Whole host.dns_provider_id) Whole-nil)

  render_type-Whole : (host : Host) → Safe net host → Whole (render_type lib log_dir providers host)
  unfolding render_type
  render_type-Whole host safe =
      if_Whole (host.host_type =s "redirect") _ _ (render_redirect-Whole host safe.redirect_url) (
        if_Whole (host.host_type =s "static") _ _
          (render_static_host-Whole host safe.root_path safe.index_files)
          (if_Whole (host.host_type =s "php") _ _
            (render_php_host-Whole host safe.root_path safe.php_fastcgi)
            (render_proxy_host-Whole lib laws net host safe)))

  rules_text-Whole :
      (rules : List AccessRule)
      → All (λ r. validate_ip_range net r.ip_range ≡ none) rules
      → Whole (rules_text lib log_dir providers rules)
  rules_text-Whole [] h = Whole-nil
  rules_text-Whole (r ∷ rs) h = render_access_rules-Whole lib laws net (r ∷ rs) h

  auths_text-Whole :
      (auths : List BasicAuth)
      → All (λ a. Plain a.username × Plain a.password_hash) auths
      → Whole (auths_text lib log_dir providers auths)
  auths_text-Whole [] h = Whole-nil
  auths_text-Whole (a ∷ rest) h = render_basic_auth-Whole (a ∷ rest) h

  render_log-Whole : (host : Host) → Safe net host → Whole (render_log lib log_dir providers host)
  unfolding render_log scan any_char
  render_log-Whole host safe =
      let domain = Clean-Plain host.domain (validate_domain-Clean net host.domain safe.domain) in
      let end : String = ".log {\n\t\t\troll_size 50MiB\n\t\t\troll_keep 3\n\t\t}\n\t}\n" in
      value_block "\tlog {\n\t\toutput file " _ (λ d. suc d) (λ d. refl)
        (λ d.
          skip_Plain (suc d) log_dir ("/access-" <> (host.domain <> end)) log_Plain
          ∙ skip_Plain (suc d) "/access-" (host.domain <> end) refl
          ∙ skip_Plain (suc d) host.domain end domain)

  -- Between the braces of a site, every block is closed, at the depth at which it was opened.
  pub render_body-Whole :
      (host : Host) → Safe net host → Whole (render_body lib log_dir providers host)
  unfolding render_body scan
  render_body-Whole host safe = Whole-append _ _ (render_tls-Whole host safe) (
      Whole-append _ _ (if_Whole (is_on host.compression) _ "" (Whole-text _ (λ d. refl)) Whole-nil)
        (Whole-append _ _ (rules_text-Whole host.access_rules safe.rules) (
          Whole-append _ _ (auths_text-Whole host.basic_auths safe.auths) (
            Whole-append _ _
              (if_Whole (is_on host.cors_enabled) _ ""
                (render_cors-Whole host safe.cors_origins safe.cors_methods safe.cors_headers)
                Whole-nil)
              (Whole-append _ _
                (if_Whole (is_on host.security_headers) _ "" security_headers-Whole Whole-nil)
                (Whole-append _ _ (render_type-Whole host safe) (
                  Whole-append _ _
                    (if_Whole (host.custom_directives =s "") "" _ Whole-nil
                      (sanitize_custom_directives-Whole host.custom_directives safe.directives))
                    (Whole-append _ _
                      (if_Whole (host.error_page_path =s "") "" _ Whole-nil (
                        render_error_pages-Whole lib laws net host.error_page_path
                          safe.error_page_path))
                      (render_log-Whole host safe)))))))))

  site_address-Visible : (host : Host) → Safe net host → Visible (site_address host)
  unfolding site_address any_char
  site_address-Visible host safe =
      let domain = Clean-Visible host.domain (validate_domain-Clean net host.domain safe.domain) in
      elim (Bool-cases (tls_mode_of host =s "off" || is_off host.tls_enabled)) [
        | inl e ↦ rw e (Visible-append "http://" host.domain (Clean-Visible "http://" refl) domain)
        | inr e ↦ rw e domain
      ]

  pub render_host_block-Whole :
      (host : Host) → Safe net host → Whole (render_host_block lib log_dir providers host)
  unfolding render_host_block scan
  render_host_block-Whole host safe =
      block_Whole _ _ "}\n\n"
        (Opens-Opening _
          (Visible-Opens (site_address host) " {\n" (site_address-Visible host safe) brace-Opens))
        (render_body-Whole host safe) (Closing-text _ (λ d. refl))

  render_enabled-Whole :
      (host : Host) → Safe net host → Whole (render_enabled lib log_dir providers host)
  render_enabled-Whole host safe =
      if_Whole (is_off host.enabled) "" _ Whole-nil (render_host_block-Whole host safe)

  global_options-Whole : Whole (global_options lib log_dir providers)
  unfolding scan
  global_options-Whole =
      value_block "{\n\tadmin localhost:2019\n\tlog {\n\t\toutput file " _ (λ d. suc (suc d))
        (λ d. refl)
        (λ d.
          skip_Plain (suc (suc d)) log_dir
            "/caddy.log {\n\t\t\troll_size 100MiB\n\t\t\troll_keep 5\n\t\t}\n\t\tlevel INFO\n\t}\n}\n\n"
            log_Plain)

  -- The Caddyfile of accepted hosts opens and closes its blocks in pairs.
  pub render_caddyfile-Whole :
      (now : String) (hosts : List Host)
      → Plain now
      → All (Safe net) hosts
      → Whole (render_caddyfile lib log_dir providers now hosts)
  unfolding render_caddyfile scan any_char
  render_caddyfile-Whole now hosts h hs =
      Whole-append _ _
        (Whole-append _ _ (Whole-text _ (λ d. refl)) (
          Whole-append _ _
            (line_Whole "# Generated at: " now "\n" refl (Plain-Flat now h) newline-Tail)
            (Whole-text _ (λ d. refl))))
        (Whole-append _ _ global_options-Whole (
          concat_map-Whole (Safe net) (render_enabled lib log_dir providers) hosts
            render_enabled-Whole hs))
