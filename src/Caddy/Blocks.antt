-- ===== src/Caddy/Blocks.antt =====
-- The blocks that the renderer writes for a host whose values the panel accepts: each is closed, at the
-- depth at which it was opened.
pub mod Parts
pub mod Proxy
pub mod Dns
pub mod Site
use Prim.Native.String.{◌++◌ as ◌<>◌}
use webcasa.Base.{
  ℕ, ℤ, String, Bool, true, false, not, ◌≡◌, refl, Option, none, some, List, [], ◌∷◌, ◌=s◌,
  if◌then◌else◌, any_char, is_digit, arith, All, Bool-cases, inl, inr,
}
use webcasa.Caddy.{Host, Upstream, Route, CustomHeader, AccessRule, BasicAuth}
use webcasa.Caddy.Validate.{
  NetLib, validate_domain, validate_upstream, validate_ip_range, validate_caddy_value,
  sanitize_custom_directives,
}
use webcasa.Caddy.Braces.{
  Mode, line_start, in_line, in_comment, Flat, Flat-Tail, Flat-append, Tail-Whole, Tail, Whole,
  Whole-append, Whole-nil, Opening, Closing, block_Whole, Plain, Plain-Flat, scan,
}
use webcasa.Caddy.Render.{RenderLib}
use webcasa.Caddy.Fragments.{Clean, newline-Tail, Closing-text}

-- What the panel has checked of a host, and the values that it does not check, which are plain.
pub record Safe (net : NetLib) (host : Host) : Type 0 where
  pub domain : validate_domain net host.domain ≡ none
  pub upstreams : All (λ u. validate_upstream net u.address ≡ none) host.upstreams
  pub rules : All (λ r. validate_ip_range net r.ip_range ≡ none) host.access_rules
  pub directives : sanitize_custom_directives host.custom_directives ≡ none
  pub redirect_url : validate_caddy_value host.redirect_url ≡ none
  pub root_path : validate_caddy_value host.root_path ≡ none
  pub error_page_path : validate_caddy_value host.error_page_path ≡ none
  pub php_fastcgi : validate_caddy_value host.php_fastcgi ≡ none
  pub index_files : validate_caddy_value host.index_files ≡ none
  pub cors_origins : validate_caddy_value host.cors_origins ≡ none
  pub cors_methods : validate_caddy_value host.cors_methods ≡ none
  pub cors_headers : validate_caddy_value host.cors_headers ≡ none
  pub headers :
      All
        (λ h. (validate_caddy_value h.name ≡ none) × (validate_caddy_value h.value ≡ none))
        host.custom_headers
  pub routes : All (λ r. validate_caddy_value r.path ≡ none) host.routes
  pub auths : All (λ a. Plain a.username × Plain a.password_hash) host.basic_auths
  pub cert_path : Plain host.custom_cert_path
  pub key_path : Plain host.custom_key_path

-- What the renderer relies on: `%d` writes digits, and sorting a slice keeps its elements.
pub record RenderLaws (lib : RenderLib) : Type 1 where
  pub itoa_digits : (n : ℕ) → any_char (λ c. not (is_digit c)) (lib.itoa n) ≡ false
  pub sort_keeps :
      {A : Type 0} (P : A → Type 0) (key : A → ℤ) (xs : List A)
      → All P xs
      → All P (lib.sort_by key xs)

-- Lines of a literal text, of a literal and a value, and of two of each.
pub line_Whole : (k v t : String) → Plain k → Flat v → Tail t → Whole (k <> (v <> t))
line_Whole k v t hk hv ht = Tail-Whole _ (Flat-Tail k _ (Plain-Flat k hk) (Flat-Tail v t hv ht))

pub pair_line_Whole :
    (k v l w t : String)
    → Plain k
    → Flat v
    → Flat l
    → Flat w
    → Tail t
    → Whole (k <> (v <> (l <> (w <> t))))
pair_line_Whole k v l w t hk hv hl hw ht =
    line_Whole k v (l <> (w <> t)) hk hv (Flat-Tail l _ hl (Flat-Tail w t hw ht))

-- A block inside a site.
pub tab_block_Whole : (s t : String) → Opening s → Whole t → Whole (s <> (t <> "\t}\n"))
unfolding scan
tab_block_Whole s t hs ht = block_Whole s t _ hs ht (Closing-text "\t}\n" (λ d. refl))

pub if_Whole : (b : Bool) (s t : String) → Whole s → Whole t → Whole (if b then s else t)
if_Whole true s t hs ht = hs
if_Whole false s t hs ht = ht

-- The same, where each text may use the test that leads to it.
pub test_Whole :
    (b : Bool) (s t : String)
    → (b ≡ true → Whole s)
    → (b ≡ false → Whole t)
    → Whole (if b then s else t)
test_Whole true s t hs ht = hs refl
test_Whole false s t hs ht = ht refl
