-- ===== src/Caddy/Blocks/Parts.antt =====
-- The parts of a site's block, one for each function of the renderer.
use webcasa.Base.{String, ◌≡◌, refl, none, List, ◌=s◌, any_char, All, Bool-cases, inl, inr}
use webcasa.Caddy.{Host, BasicAuth}
use webcasa.Caddy.Validate.{validate_caddy_value}
use webcasa.Caddy.Braces.{
  in_line, in_comment, Flat, Flat-Tail, Tail-Whole, Tail, Whole, Whole-append, Whole-nil, Plain,
  Plain-Flat, scan,
}
use webcasa.Caddy.Render.{
  or_default, is_on, is_302, render_redirect, render_basic_auth, render_cors, security_headers_text,
  render_static_host, render_php_host,
}
use webcasa.Caddy.Fragments.{
  Flat-text, Tail-text, Whole-text, Opening-text, newline-Tail, concat_map-Whole,
  validate_caddy_value-Plain,
}
use webcasa.Caddy.Blocks.{line_Whole, pair_line_Whole, tab_block_Whole, if_Whole}

pub value_Flat : (v : String) → validate_caddy_value v ≡ none → Flat v
value_Flat v h = Plain-Flat v (validate_caddy_value-Plain v h)

default_Flat : (v d : String) → Flat v → Flat d → Flat (or_default v d)
default_Flat v d hv hd = elim (Bool-cases (v =s "")) [ inl e ↦ rw e hd | inr e ↦ rw e hv ]

pub quote-Tail : Tail "\"\n"
unfolding scan
quote-Tail = Tail-text "\"\n" (λ d. refl) (λ d. refl) (λ d. refl)

uri-Flat : Flat "{uri} "
unfolding scan
uri-Flat = Flat-text "{uri} " in_line in_line in_comment (λ d. refl) (λ d. refl) (λ d. refl)

pub plain : (s : String) → Plain s → Flat s
plain = Plain-Flat

pub render_redirect-Whole :
    (host : Host) → validate_caddy_value host.redirect_url ≡ none → Whole (render_redirect host)
unfolding render_redirect any_char
render_redirect-Whole host h =
    pair_line_Whole "\tredir " host.redirect_url "{uri} " _ "\n" refl
      (value_Flat host.redirect_url h) uri-Flat
      (elim (Bool-cases (is_302 host.redirect_code)) [
        | inl e ↦ rw e (plain "temporary" refl)
        | inr e ↦ rw e (plain "permanent" refl)
      ])
      newline-Tail

pub render_basic_auth-Whole :
    (auths : List BasicAuth)
    → All (λ a. Plain a.username × Plain a.password_hash) auths
    → Whole (render_basic_auth auths)
unfolding render_basic_auth scan any_char
render_basic_auth-Whole auths h = tab_block_Whole "\tbasicauth {\n" _ (Opening-text _ (λ d. refl)) (
    concat_map-Whole (λ a. Plain a.username × Plain a.password_hash) _ auths
      (λ a (hu, hp).
        pair_line_Whole "\t\t" a.username " " a.password_hash "\n" refl (plain a.username hu)
          (plain " " refl) (plain a.password_hash hp) newline-Tail)
      h)

pub render_cors-Whole :
    (host : Host)
    → validate_caddy_value host.cors_origins ≡ none
    → validate_caddy_value host.cors_methods ≡ none
    → validate_caddy_value host.cors_headers ≡ none
    → Whole (render_cors host)
unfolding render_cors scan any_char
render_cors-Whole host ho hm hh =
    let origins = default_Flat host.cors_origins "*" (value_Flat _ ho) (plain "*" refl) in
    let methods =
      default_Flat host.cors_methods _ (value_Flat _ hm)
        (plain "GET, POST, PUT, DELETE, OPTIONS" refl) in
    let headers =
      default_Flat host.cors_headers _ (value_Flat _ hh)
        (plain "Content-Type, Authorization" refl) in
    Whole-append "\t@cors_preflight method OPTIONS\n" _ (Whole-text _ (λ d. refl)) (
      Whole-append _ _
        (tab_block_Whole "\theader @cors_preflight {\n" _ (Opening-text _ (λ d. refl)) (
          Whole-append _ _
            (line_Whole "\t\tAccess-Control-Allow-Origin \"" _ "\"\n" refl origins quote-Tail)
            (Whole-append _ _
              (line_Whole "\t\tAccess-Control-Allow-Methods \"" _ "\"\n" refl methods quote-Tail)
              (Whole-append _ _
                (line_Whole "\t\tAccess-Control-Allow-Headers \"" _ "\"\n" refl headers quote-Tail)
                (Whole-text _ (λ d. refl))))))
        (Whole-append "\trespond @cors_preflight 204\n" _ (Whole-text _ (λ d. refl))
          (line_Whole "\theader Access-Control-Allow-Origin \"" _ "\"\n" refl origins quote-Tail)))

pub security_headers-Whole : Whole security_headers_text
unfolding scan
security_headers-Whole = Whole-text security_headers_text (λ d. refl)

pub render_static_host-Whole :
    (host : Host)
    → validate_caddy_value host.root_path ≡ none
    → validate_caddy_value host.index_files ≡ none
    → Whole (render_static_host host)
unfolding render_static_host scan any_char
render_static_host-Whole host hr hi =
    Whole-append _ _
      (line_Whole "\troot * " host.root_path "\n" refl (value_Flat _ hr) newline-Tail)
      (Whole-append _ _
        (if_Whole (host.index_files =s "") "" _ Whole-nil (
          Tail-Whole _ (
            Flat-Tail "\ttry_files {path} " _
              (Flat-text "\ttry_files {path} " in_line in_line in_comment (λ d. refl) (λ d. refl)
                (λ d. refl))
              (Flat-Tail host.index_files "\n" (value_Flat _ hi) newline-Tail))))
        (if_Whole (is_on host.directory_browse) _ _ (Whole-text _ (λ d. refl))
          (Whole-text _ (λ d. refl))))

pub render_php_host-Whole :
    (host : Host)
    → validate_caddy_value host.root_path ≡ none
    → validate_caddy_value host.php_fastcgi ≡ none
    → Whole (render_php_host host)
unfolding render_php_host scan any_char
render_php_host-Whole host hr hp =
    Whole-append _ _
      (line_Whole "\troot * " host.root_path "\n" refl (value_Flat _ hr) newline-Tail)
      (Whole-append _ "\tfile_server\n"
        (line_Whole "\tphp_fastcgi " _ "\n" refl
          (default_Flat host.php_fastcgi _ (value_Flat _ hp) (plain "localhost:9000" refl))
          newline-Tail)
        (Whole-text _ (λ d. refl)))
