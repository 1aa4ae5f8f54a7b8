-- ===== src/Caddy/Render/Dns.antt =====
-- internal/caddy/renderer.go: `safeDnsValue` and `renderDnsTLS`.
use Prim.Native.String.{◌++◌ as ◌<>◌}
use webcasa.Base.{
  ℕ, String, Bool, not, ◌||◌, Option, none, some, ◌==◌, ◌=s◌, if◌then◌else◌, any_char,
}
use webcasa.Caddy.{DnsProvider}
use webcasa.Caddy.Render.{RenderLib, or_default}

-- The characters of "\n\r{}\"\\;#".
abbrev pub escapes : ℕ → Bool
escapes c =
    c == b'\n'
    || c == b'\r'
    || c == b'{'
    || c == b'}'
    || c == b'"'
    || c == b'\\'
    || c == b';'
    || c == b'#'

unfoldable pub safe_dns_value : String → Bool
safe_dns_value val = not (any_char escapes val)

abbrev pub unusable : String → Bool
unusable val = val =s "" || not (safe_dns_value val)

unfoldable pub render_dns_cloudflare : String → String
render_dns_cloudflare token =
    if unusable token
    then ""
    else "\ttls {\n" <> (("\t\tdns cloudflare " <> (token <> "\n")) <> "\t}\n")

-- `alidns` and `tencentcloud`, by the names of the module and of its two keys.
unfoldable pub render_dns_pair : String → String → String → String → String → String
render_dns_pair opening key1 key2 value1 value2 =
    if unusable value1 || unusable value2
    then ""
    else "\ttls {\n"
      <> ((opening
            <> ((("\t\t\t" <> (key1 <> (" " <> (value1 <> "\n"))))
                  <> ("\t\t\t" <> (key2 <> (" " <> (value2 <> "\n")))))
                <> "\t\t}\n"))
          <> "\t}\n")

unfoldable pub render_dns_route53 : String → String → String → String
render_dns_route53 region ak sk =
    if unusable ak || unusable sk
    then ""
    else if not (safe_dns_value (or_default region "us-east-1"))
    then ""
    else "\ttls {\n"
      <> (("\t\tdns route53 {\n"
            <> ((("\t\t\tregion " <> (or_default region "us-east-1" <> "\n"))
                  <> (("\t\t\taccess_key_id " <> (ak <> "\n"))
                      <> ("\t\t\tsecret_access_key " <> (sk <> "\n"))))
                <> "\t\t}\n"))
          <> "\t}\n")

unfoldable pub render_dns_config : String → (String → String) → String
unfolding render_dns_cloudflare render_dns_pair render_dns_route53
render_dns_config provider cfg =
    if provider =s "cloudflare"
    then render_dns_cloudflare (cfg "api_token")
    else if provider =s "alidns"
    then render_dns_pair "\t\tdns alidns {\n" "access_key_id" "access_key_secret"
        (cfg "access_key_id") (cfg "access_key_secret")
    else if provider =s "tencentcloud"
    then render_dns_pair "\t\tdns tencentcloud {\n" "secret_id" "secret_key" (cfg "secret_id")
        (cfg "secret_key")
    else if provider =s "route53"
    then render_dns_route53 (cfg "region") (cfg "access_key_id") (cfg "secret_access_key")
    else ""

abbrev pub with_config : String → Option (String → String) → String
with_config provider none = ""
with_config provider (some cfg) = render_dns_config provider cfg

unfoldable pub render_dns_tls : RenderLib → DnsProvider → String
render_dns_tls lib p = with_config p.provider (lib.unmarshal p.config)
