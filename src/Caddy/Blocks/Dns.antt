-- ===== src/Caddy/Blocks/Dns.antt =====
-- The TLS blocks of DNS providers.
use Prim.Native.String.{◌++◌ as ◌<>◌}
use webcasa.Base.{String, not, refl, ◌=s◌, ◌||◌, any_char, arith, Option-cases, inl, inr}
use webcasa.Caddy.{DnsProvider}
use webcasa.Caddy.Braces.{
  scan, Flat, Whole, Whole-append, Whole-nil, Opening, block_Whole, Plain, Plain-Flat, structural,
}
use webcasa.Caddy.Render.{RenderLib, or_default}
use webcasa.Caddy.Render.Dns.{
  unusable, escapes, safe_dns_value, render_dns_cloudflare, render_dns_pair, render_dns_route53,
  render_dns_config, render_dns_tls,
}
use webcasa.Caddy.Fragments.{
  any_char_mono, Opening-text, Closing-text, newline-Tail, unusable-Plain,
}
use webcasa.Caddy.Blocks.{line_Whole, pair_line_Whole, tab_block_Whole, if_Whole, test_Whole}

render_dns_cloudflare-Whole : (token : String) → Whole (render_dns_cloudflare token)
unfolding render_dns_cloudflare scan any_char
render_dns_cloudflare-Whole token =
    test_Whole (unusable token) "" _ (λ e. Whole-nil)
      (λ e. tab_block_Whole "\ttls {\n" _ (Opening-text _ (λ d. refl)) (
        line_Whole "\t\tdns cloudflare " token "\n" refl (Plain-Flat token (unusable-Plain token e))
          newline-Tail))

key_line :
    (key value : String)
    → Plain key
    → Flat value
    → Whole ("\t\t\t" <> (key <> (" " <> (value <> "\n"))))
unfolding any_char
key_line key value hk hv =
    pair_line_Whole "\t\t\t" key " " value "\n" refl (Plain-Flat key hk) (Plain-Flat " " refl) hv
      newline-Tail

render_dns_pair-Whole :
    (opening key1 key2 value1 value2 : String)
    → Opening opening
    → Plain key1
    → Plain key2
    → Whole (render_dns_pair opening key1 key2 value1 value2)
unfolding render_dns_pair scan
render_dns_pair-Whole opening key1 key2 value1 value2 ho h1 h2 =
    test_Whole (unusable value1 || unusable value2) "" _ (λ e. Whole-nil)
      (λ e.
        let v1 = Plain-Flat value1 (unusable-Plain value1 (ground (arith, e))) in
        let v2 = Plain-Flat value2 (unusable-Plain value2 (ground (arith, e))) in
        tab_block_Whole "\ttls {\n" _ (Opening-text _ (λ d. refl)) (
          block_Whole opening _ "\t\t}\n" ho
            (Whole-append _ _ (key_line key1 value1 h1 v1) (key_line key2 value2 h2 v2))
            (Closing-text _ (λ d. refl))))

render_dns_route53-Whole : (region ak sk : String) → Whole (render_dns_route53 region ak sk)
unfolding render_dns_route53 scan any_char
render_dns_route53-Whole region ak sk =
    test_Whole (unusable ak || unusable sk) "" _ (λ e. Whole-nil)
      (λ e.
        test_Whole (not (safe_dns_value (or_default region "us-east-1"))) "" _ (λ e'. Whole-nil)
          (λ e'.
            let where_Plain =
              any_char_mono structural escapes (or_default region "us-east-1") (λ c n. ground arith)
                (unfold safe_dns_value in ground (arith, e')) in
            tab_block_Whole "\ttls {\n" _ (Opening-text _ (λ d. refl)) (
              block_Whole "\t\tdns route53 {\n" _ "\t\t}\n" (Opening-text _ (λ d. refl))
                (Whole-append _ _
                  (line_Whole "\t\t\tregion " _ "\n" refl
                    (Plain-Flat (or_default region "us-east-1") where_Plain) newline-Tail)
                  (Whole-append _ _
                    (line_Whole "\t\t\taccess_key_id " ak "\n" refl
                      (Plain-Flat ak (unusable-Plain ak (ground (arith, e)))) newline-Tail)
                    (line_Whole "\t\t\tsecret_access_key " sk "\n" refl
                      (Plain-Flat sk (unusable-Plain sk (ground (arith, e)))) newline-Tail)))
                (Closing-text _ (λ d. refl)))))

render_dns_config-Whole :
    (provider : String) (cfg : String → String) → Whole (render_dns_config provider cfg)
unfolding render_dns_config scan any_char
render_dns_config-Whole provider cfg =
    if_Whole (provider =s "cloudflare") _ _ (render_dns_cloudflare-Whole (cfg "api_token")) (
      if_Whole (provider =s "alidns") _ _
        (render_dns_pair-Whole "\t\tdns alidns {\n" "access_key_id" "access_key_secret" _ _
          (Opening-text _ (λ d. refl)) refl refl)
        (if_Whole (provider =s "tencentcloud") _ _
          (render_dns_pair-Whole "\t\tdns tencentcloud {\n" "secret_id" "secret_key" _ _
            (Opening-text _ (λ d. refl)) refl refl)
          (if_Whole (provider =s "route53") _ "" (render_dns_route53-Whole (cfg "region") _ _)
            Whole-nil)))

-- Whatever the configuration of a DNS provider holds, what is rendered for it opens and closes its
-- blocks in pairs.
pub render_dns_tls-Whole : (lib : RenderLib) (p : DnsProvider) → Whole (render_dns_tls lib p)
unfolding render_dns_tls
render_dns_tls-Whole lib p = elim (Option-cases (lib.unmarshal p.config)) [
  | inl e ↦ rw (e, render_dns_tls) Whole-nil
  | inr (cfg, e) ↦ rw (e, render_dns_tls) (render_dns_config-Whole p.provider cfg)
]
