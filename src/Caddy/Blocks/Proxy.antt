-- ===== src/Caddy/Blocks/Proxy.antt =====
-- The parts of a site's block that hold a list: upstreams, routes, headers, access rules and error pages.
use webcasa.Base.{
  ℕ, String, ◌≡◌, refl, subst, Option, none, some, List, [], ◌∷◌, ◌=s◌, if◌then◌else◌, any_char,
  arith, All, Option-cases, inl, inr, map, ltb, length, ◌==◌,
}
use webcasa.Caddy.{Host, Upstream, Route, CustomHeader, AccessRule}
use webcasa.Caddy.Validate.{NetLib, validate_upstream, validate_ip_range, validate_caddy_value}
use webcasa.Caddy.Braces.{
  in_line, in_comment, Flat, Whole, Whole-append, Whole-nil, block_Whole, scan,
}
use webcasa.Caddy.Render.{
  RenderLib, render_reverse_proxy, any_public, find_upstream, render_target, render_route,
  render_routes, render_access_rule, render_access_rules, render_header, render_response_headers,
  render_proxy_target, render_proxy_host, render_error_page, render_error_pages,
}
use webcasa.Caddy.Fragments.{
  Clean, Clean-Plain, Clean-Visible, Visible-Opens, Opens-Opening, brace-Opens, Flat-text,
  Tail-text, Whole-text, Opening-text, Closing-text, newline-Tail, concat_map-Whole,
  validate_upstream-Clean, validate_ip_range-Clean, digits-Clean, join_space-Clean,
}
use webcasa.Caddy.Blocks.{Safe, RenderLaws, line_Whole, pair_line_Whole, tab_block_Whole, if_Whole}
use webcasa.Caddy.Blocks.Parts.{value_Flat, quote-Tail, plain}

addresses :
    (net : NetLib) (us : List Upstream)
    → All (λ u. validate_upstream net u.address ≡ none) us
    → All Clean (map (λ u. u.address) us)
addresses net [] h = tt
addresses net (u ∷ us) (h, hs) = (validate_upstream-Clean net u.address h, addresses net us hs)

pub render_reverse_proxy-Whole :
    (net : NetLib) (us : List Upstream)
    → All (λ u. validate_upstream net u.address ≡ none) us
    → Whole (render_reverse_proxy us)
unfolding render_reverse_proxy scan any_char
render_reverse_proxy-Whole net us h =
    tab_block_Whole _ _
      (Opens-Opening _ (
        Visible-Opens "\treverse_proxy " _ (Clean-Visible "\treverse_proxy " refl)
          (Visible-Opens _ " {\n" (join_space-Clean _ (addresses net us h)) brace-Opens)))
      (Whole-append _ _ (if_Whole (ltb 1 (length us)) _ "" (Whole-text _ (λ d. refl)) Whole-nil) (
        Whole-append _ _ (if_Whole (any_public us) _ "" (Whole-text _ (λ d. refl)) Whole-nil)
          (Whole-text _ (λ d. refl))))

found_here :
    (us : List Upstream) (v : Upstream) (i : ℕ) (u : Upstream)
    → find_upstream us i ≡ none
    → find_upstream (v ∷ us) i ≡ some u
    → v ≡ u
unfolding find_upstream
found_here us v i u n e =
    let picked : (if v.id == i then some v else none) ≡ some u = rw (n, find_upstream) at e in
    ground (arith, picked)

found_later :
    (us : List Upstream) (v : Upstream) (i : ℕ) (u w : Upstream)
    → find_upstream us i ≡ some w
    → find_upstream (v ∷ us) i ≡ some u
    → w ≡ u
unfolding find_upstream
found_later us v i u w n e = let picked : some w ≡ some u = rw (n, find_upstream) at e in cc picked

find_upstream-All :
    (P : Upstream → Type 0) (us : List Upstream) (i : ℕ) (u : Upstream)
    → All P us
    → find_upstream us i ≡ some u
    → P u
find_upstream-All P [] i u h e = absurd (unfold find_upstream in ground (arith, e))
find_upstream-All P (v ∷ us) i u (h, hs) e = elim (Option-cases (find_upstream us i)) [
  | inl n ↦ subst P (found_here us v i u n e) h
  | inr (w, n) ↦ subst P (found_later us v i u w n e) (find_upstream-All P us i w hs n)
]

module _ (lib : RenderLib) (laws : RenderLaws lib) (net : NetLib) where
  number-Clean : (n : ℕ) → Clean (lib.itoa n)
  number-Clean n = digits-Clean (lib.itoa n) (laws.itoa_digits n)

  number-Flat : (n : ℕ) → Flat (lib.itoa n)
  number-Flat n = plain (lib.itoa n) (Clean-Plain (lib.itoa n) (number-Clean n))

  render_access_rule-Whole :
      (r : AccessRule) → validate_ip_range net r.ip_range ≡ none → Whole (render_access_rule lib r)
  unfolding render_access_rule scan any_char
  render_access_rule-Whole r h =
      let range =
        plain r.ip_range (Clean-Plain r.ip_range (validate_ip_range-Clean net r.ip_range h)) in
      if_Whole (r.rule_type =s "allow") _ _
        (Whole-append _ "\tabort @blocked\n"
          (line_Whole "\t@blocked not remote_ip " r.ip_range "\n" refl range newline-Tail)
          (Whole-text _ (λ d. refl)))
        (if_Whole (r.rule_type =s "deny") _ ""
          (Whole-append _ "\tabort @denied\n"
            (line_Whole "\t@denied remote_ip " r.ip_range "\n" refl range newline-Tail)
            (Whole-text _ (λ d. refl)))
          Whole-nil)

  pub render_access_rules-Whole :
      (rules : List AccessRule)
      → All (λ r. validate_ip_range net r.ip_range ≡ none) rules
      → Whole (render_access_rules lib rules)
  unfolding render_access_rules
  render_access_rules-Whole rules h =
      concat_map-Whole (λ r. validate_ip_range net r.ip_range ≡ none) _ _ render_access_rule-Whole
        (laws.sort_keeps _ (λ r. r.sort_order) rules h)

  render_header-Whole :
      (h : CustomHeader)
      → (validate_caddy_value h.name ≡ none) × (validate_caddy_value h.value ≡ none)
      → Whole (render_header lib h)
  unfolding render_header any_char
  render_header-Whole h (hn, hv) =
      let name = value_Flat h.name hn in
      let value = value_Flat h.value hv in
      if_Whole (h.operation =s "set") _ _
        (pair_line_Whole "\t\t" h.name " \"" h.value "\"\n" refl name (plain " \"" refl) value
          quote-Tail)
        (if_Whole (h.operation =s "add") _ _
          (pair_line_Whole "\t\t+" h.name " \"" h.value "\"\n" refl name (plain " \"" refl) value
            quote-Tail)
          (if_Whole (h.operation =s "delete") _ ""
            (line_Whole "\t\t-" h.name "\n" refl name newline-Tail) Whole-nil))

  pub render_response_headers-Whole :
      (hs : List CustomHeader)
      → All (λ h. (validate_caddy_value h.name ≡ none) × (validate_caddy_value h.value ≡ none)) hs
      → Whole (render_response_headers lib hs)
  unfolding render_response_headers scan
  render_response_headers-Whole [] h = Whole-nil
  render_response_headers-Whole (x ∷ xs) h =
      tab_block_Whole "\theader {\n" _ (Opening-text _ (λ d. refl)) (
        concat_map-Whole
          (λ y. (validate_caddy_value y.name ≡ none) × (validate_caddy_value y.value ≡ none)) _ _
          render_header-Whole (laws.sort_keeps _ (λ y. y.sort_order) (x ∷ xs) h))

  render_target-Whole :
      (us : List Upstream) (route : ℕ) (o : Option ℕ)
      → All (λ u. validate_upstream net u.address ≡ none) us
      → Whole (render_target lib us route o)
  unfolding render_target any_char
  render_target-Whole us route none h = Whole-nil
  render_target-Whole us route (some i) h = elim (Option-cases (find_upstream us i)) [
    | inl e ↦ rw (e, render_target) Whole-nil
    | inr (u, e) ↦
        rw (e, render_target)
          (pair_line_Whole "\treverse_proxy @path_" (lib.itoa route) " " u.address "\n" refl
            (number-Flat route) (plain " " refl)
            (plain u.address (
              Clean-Plain u.address (
                validate_upstream-Clean net u.address
                  (find_upstream-All (λ x. validate_upstream net x.address ≡ none) us i u h e))))
            newline-Tail)
  ]

  render_route-Whole :
      (us : List Upstream) (r : Route)
      → All (λ u. validate_upstream net u.address ≡ none) us
      → validate_caddy_value r.path ≡ none
      → Whole (render_route lib us r)
  unfolding render_route any_char
  render_route-Whole us r h hp =
      Whole-append _ _
        (pair_line_Whole "\t@path_" (lib.itoa r.id) " path " r.path "\n" refl (number-Flat r.id)
          (plain " path " refl) (value_Flat r.path hp) newline-Tail)
        (render_target-Whole us r.id r.upstream_id h)

  render_proxy_target-Whole :
      (host : Host) (us : List Upstream) (rs : List Route)
      → Safe net host
      → All (λ u. validate_upstream net u.address ≡ none) us
      → Whole (render_proxy_target lib host us rs)
  unfolding render_proxy_target render_routes
  render_proxy_target-Whole host us (r ∷ rs) safe h =
      concat_map-Whole (λ x. validate_caddy_value x.path ≡ none) _ _
        (λ x hx. render_route-Whole host.upstreams x safe.upstreams hx)
        (laws.sort_keeps _ (λ x. x.sort_order) host.routes safe.routes)
  render_proxy_target-Whole host [] [] safe h = Whole-nil
  render_proxy_target-Whole host (u ∷ us) [] safe h = render_reverse_proxy-Whole net (u ∷ us) h

  pub render_proxy_host-Whole : (host : Host) → Safe net host → Whole (render_proxy_host lib host)
  unfolding render_proxy_host
  render_proxy_host-Whole host safe =
      Whole-append _ _
        (render_proxy_target-Whole host (lib.sort_by (λ u. u.sort_order) host.upstreams) host.routes
          safe (laws.sort_keeps _ (λ u. u.sort_order) host.upstreams safe.upstreams))
        (render_response_headers-Whole host.custom_headers safe.headers)

  render_error_page-Whole :
      (path : String) (n : ℕ) → Flat path → Whole (render_error_page lib path n)
  unfolding render_error_page scan any_char
  render_error_page-Whole path n h =
      Whole-append _ _
        (pair_line_Whole "\t\t@" (lib.itoa n) " expression {err.status_code} == " (lib.itoa n) "\n"
          refl (number-Flat n)
          (Flat-text " expression {err.status_code} == " in_line in_line in_comment (λ d. refl)
            (λ d. refl) (λ d. refl))
          (number-Flat n) newline-Tail)
        (block_Whole _ _ "\t\t}\n"
          (Opens-Opening _ (
            Visible-Opens "\t\thandle @" _ (Clean-Visible "\t\thandle @" refl)
              (Visible-Opens _ " {\n" (Clean-Visible _ (number-Clean n)) brace-Opens)))
          (Whole-append _ _ (line_Whole "\t\t\troot * " path "\n" refl h newline-Tail) (
            Whole-append _ _
              (line_Whole "\t\t\trewrite * /" (lib.itoa n) ".html\n" refl (number-Flat n)
                (Tail-text ".html\n" (λ d. refl) (λ d. refl) (λ d. refl)))
              (Whole-text _ (λ d. refl))))
          (Closing-text _ (λ d. refl)))

  pub render_error_pages-Whole :
      (path : String) → validate_caddy_value path ≡ none → Whole (render_error_pages lib path)
  unfolding render_error_pages scan
  render_error_pages-Whole path h =
      tab_block_Whole "\thandle_errors {\n" _ (Opening-text _ (λ d. refl)) (
        concat_map-Whole (λ n. n ≡ n) _ (404 ∷ 502 ∷ 503 ∷ [])
          (λ n u. render_error_page-Whole path n (value_Flat path h)) (refl, (refl, (refl, tt))))
