-- ===== src/Hosts/Tests.antt =====
-- A panel with one host behind a reverse proxy, and the theorems at work on it.
use webcasa.Base.{
  map, ℕ, ℤ, pos, negsuc, String, Bool, true, false, not, ◌≡◌, ◌≢◌, refl, subst, Option, none, some,
  List, [], ◌∷◌, ◌=s◌, ◌==◌, ltb, if◌then◌else◌, All, arith, any_char, is_digit, Bool-cases, inl,
  inr, has_prefix, cut_prefix, split, trim_space, trim_left, trim_right, eq_iff,
}
use webcasa.Caddy.{Host, Upstream, DnsProvider}
use webcasa.Caddy.Validate.{
  NetLib, validate_domain, validate_upstream, validate_ip_range, validate_caddy_value,
  sanitize_custom_directives, lines_depth, line_depth, brace_step, depth_error,
}
use webcasa.Caddy.Braces.{Plain, Whole}
use webcasa.Caddy.Directives.{tabbed}
use webcasa.Caddy.Sanitized.{sanitize_custom_directives-Whole}
use webcasa.Caddy.Render.{RenderLib}
use webcasa.Caddy.Blocks.{RenderLaws}
use webcasa.Hosts.{
  HostCreateRequest, Store, Outcome, hash_failed, find_host, domain_taken, domain_taken_by_other,
}
use webcasa.Hosts.Checks.{
  first_error, validate_fields, validate_request, create_error, update_error,
}
use webcasa.Hosts.Config.{WriteRun, Run, write_caddyfile, rendered, reload_config, apply_config}
use webcasa.Hosts.Build.{copied_host, hash_auths, new_host}
use webcasa.Hosts.Rows.{PlainHashes}
use webcasa.Hosts.Sound.{Sound}
use webcasa.Hosts.Ops.{cleared, create, update, accepts_name}
use webcasa.Hosts.Commands.{
  Command, create_host, toggle_host, certify_host, step, run_commands, run_commands-Sound,
}
use webcasa.Hosts.Applied.{apply_config-rollback}
use webcasa.Hosts.InSync.{step-in_sync}
use webcasa.Hosts.Unique.{KeyedStore, run_commands-Keyed}
use webcasa.Hosts.Routes.{lead, original, copied_host-leads}
use webcasa.Hosts.Failures.{refused_update-unprotects}

abbrev before : ℤ → ℤ → Bool
before (pos m) (pos n) = ltb m n
before (pos m) (negsuc n) = false
before (negsuc m) (pos n) = true
before (negsuc m) (negsuc n) = ltb n m

insert_by : {A : Type 0} → (A → ℤ) → A → List A → List A
insert_by key x [] = x ∷ []
insert_by key x (y ∷ ys) =
    let rest = insert_by key x ys in if before (key y) (key x) then y ∷ rest else x ∷ y ∷ ys

sort_by : {A : Type 0} → (A → ℤ) → List A → List A
unfolding insert_by
sort_by key [] = []
sort_by key (x ∷ xs) = insert_by key x (sort_by key xs)

insert_by-All :
    {A : Type 0} (P : A → Type 0) (key : A → ℤ) (x : A) (xs : List A)
    → P x
    → All P xs
    → All P (insert_by key x xs)
unfolding insert_by
insert_by-All P key x [] p ps = (p, tt)
insert_by-All P key x (y ∷ ys) p (q, qs) = elim (Bool-cases (before (key y) (key x))) [
  | inl e ↦ rw e (q, insert_by-All P key x ys p qs)
  | inr e ↦ rw e (p, (q, qs))
]

sort_by-All :
    {A : Type 0} (P : A → Type 0) (key : A → ℤ) (xs : List A) → All P xs → All P (sort_by key xs)
unfolding sort_by
sort_by-All P key [] ps = tt
sort_by-All P key (x ∷ xs) (p, ps) =
    insert_by-All P key x (sort_by key xs) p (sort_by-All P key xs ps)

-- The numbers that the panel writes here.
abbrev itoa : ℕ → String
itoa n = if n == 404 then "404" else if n == 502 then "502" else if n == 503 then "503" else "1"

itoa_digits : (n : ℕ) → any_char (λ c. not (is_digit c)) (itoa n) ≡ false
unfolding any_char
itoa_digits n = elim (Bool-cases (n == 404)) [
  | inl e ↦ rw e refl
  | inr e ↦ elim (Bool-cases (n == 502)) [
    | inl e' ↦ rw (e, e') refl
    | inr e' ↦ elim (Bool-cases (n == 503)) [
      | inl e'' ↦ rw (e, e', e'') refl
      | inr e'' ↦ rw (e, e', e'') refl
    ]
  ]
]

abbrev lib : RenderLib
lib = record { itoa = itoa; sort_by = sort_by; unmarshal = λ s. some (λ k. "secret") }

laws : RenderLaws lib
laws = record { itoa_digits = itoa_digits; sort_keeps = sort_by-All }

abbrev net : NetLib
net = record {
  domain_regex = λ s. not (s =s "");
  split_host_port = λ s. some ("localhost", "3000");
  parse_cidr = λ s. true;
  parse_ip = λ s. true;
}

abbrev bcrypt : String → Option String
bcrypt password = some "$2a$10$N9qo8uLOickgx2ZMRZoMye"

plain_hashes : PlainHashes bcrypt
unfolding any_char
plain_hashes password hash e =
    let same : "$2a$10$N9qo8uLOickgx2ZMRZoMye" ≡ hash = ground (arith, e) in
    subst (λ h. Plain h) same refl

abbrev by_order : List Upstream → List Upstream
by_order us = us

abbrev writes : WriteRun
writes = record { temp_written = true; has_binary = true; validates = λ s. true; renamed = true }

abbrev works : Run
works = record {
  writes = writes;
  restores = writes;
  is_running = true;
  reloads = true;
  now = "2026-01-02T03:04:05Z";
}

abbrev fails : Run
fails = record {
  writes = writes;
  restores = writes;
  is_running = true;
  reloads = false;
  now = "2026-01-02T03:04:05Z";
}

abbrev request : HostCreateRequest
request = record {
  domain = "example.com";
  host_type = "";
  enabled = none;
  tls_enabled = none;
  http_redirect = none;
  web_socket = none;
  redirect_url = "";
  redirect_code = pos 0;
  compression = some true;
  cache_enabled = none;
  cache_ttl = pos 0;
  cors_enabled = none;
  cors_origins = "";
  cors_methods = "";
  cors_headers = "";
  security_headers = some true;
  error_page_path = "/srv/errors";
  root_path = "";
  directory_browse = none;
  php_fastcgi = "";
  index_files = "";
  tls_mode = "";
  dns_provider_id = none;
  custom_directives = "handle /x {\n\trespond ok\n}";
  upstreams = record { address = "localhost:3000"; weight = pos 0 } ∷ [];
  custom_headers = [];
  access_rules = [];
  basic_auths = record { username = "admin"; password = "secret" } ∷ [];
  group_id = none;
  tag_ids = [];
}

abbrev empty : Store
empty = record {
  hosts = [];
  next_host = 1;
  next_upstream = 1;
  next_route = 1;
  auto_reload = none;
  providers = λ i. none;
  certificates = λ i. none;
  caddyfile = none;
}

empty-Sound : Sound net empty
empty-Sound = (tt, ((λ n c e. absurd (ground (arith, e))), (λ t e. absurd (ground (arith, e)))))

abbrev commands : List (Run × Command)
commands =
    (works, create_host request)
    ∷ (fails, toggle_host 1)
    ∷ (works, certify_host 1 "/c.pem" "/k.pem")
    ∷ []

log_Plain : Plain "/var/log"
unfolding any_char
log_Plain = refl

now_Plain : Plain "2026-01-02T03:04:05Z"
unfolding any_char
now_Plain = refl

certificates_Plain : Plain "/c.pem" × Plain "/k.pem"
unfolding any_char
certificates_Plain = (refl, refl)

run_commands-Sound_example :
    Sound net (run_commands net lib "/var/log" bcrypt by_order commands empty)
run_commands-Sound_example =
    run_commands-Sound net lib "/var/log" bcrypt by_order laws log_Plain plain_hashes commands empty
      ((tt, now_Plain), ((tt, now_Plain), ((certificates_Plain, now_Plain), tt))) empty-Sound

run_commands-Keyed_example :
    KeyedStore (run_commands net lib "/var/log" bcrypt by_order commands empty)
run_commands-Keyed_example =
    run_commands-Keyed net lib "/var/log" bcrypt by_order commands empty (tt, tt)

abbrev directives : String
directives = "# a }\nhandle /x {\n\trespond ok\n}\n"

directives_accepted : sanitize_custom_directives directives ≡ none
unfolding sanitize_custom_directives lines_depth line_depth brace_step depth_error split trim_space
    trim_left trim_right has_prefix cut_prefix
directives_accepted = refl

sanitize_custom_directives-Whole_example : Whole (tabbed (split b'\n' (trim_space directives)))
sanitize_custom_directives-Whole_example =
    sanitize_custom_directives-Whole directives directives_accepted

abbrev site : Host
site = new_host 1 1 request []

abbrev no_provider : ℕ → Option DnsProvider
no_provider i = none

abbrev one : Store
one = record empty { hosts = site ∷ []; caddyfile = some "old" }

created : (step net lib "/var/log" bcrypt by_order works (create_host request) empty).1 ≡ none
unfolding step create create_error domain_taken validate_request validate_fields first_error
    validate_domain validate_upstream validate_ip_range validate_caddy_value
    sanitize_custom_directives lines_depth line_depth brace_step depth_error split trim_space
    trim_left trim_right has_prefix cut_prefix any_char hash_auths apply_config reload_config
    write_caddyfile
created = refl

step-in_sync_example :
    (step net lib "/var/log" bcrypt by_order works (create_host request) empty).0.caddyfile
    ≡ some (
        rendered lib "/var/log" works
          (step net lib "/var/log" bcrypt by_order works (create_host request) empty).0)
step-in_sync_example =
    step-in_sync net lib "/var/log" bcrypt by_order works (create_host request) empty refl created

abbrev routed : Host
routed = record site {
  upstreams =
      record { id = 7; address = "a:1"; weight = pos 1; sort_order = pos 0 }
      ∷ record { id = 3; address = "b:1"; weight = pos 1; sort_order = pos 1 }
      ∷ [];
  routes =
      record { id = 1; path = "/b"; upstream_id = some 3; sort_order = pos 0 }
      ∷ record { id = 2; path = ""; upstream_id = some 5; sort_order = pos 1 }
      ∷ [];
}

copied_host-leads_example :
    map (lead (copied_host 2 9 4 routed).upstreams) (copied_host 2 9 4 routed).routes
    ≡ map (original routed.upstreams) routed.routes
copied_host-leads_example = copied_host-leads 2 9 4 routed

applied_badly : (apply_config lib "/var/log" fails one).1 ≢ none
unfolding apply_config reload_config write_caddyfile
applied_badly e = ground (arith, e)

abbrev old : String
old = "old"

old_restored : (file : Option String) → write_caddyfile fails.restores old file ≡ (some old, true)
unfolding write_caddyfile
old_restored file = refl

apply_config-rollback_example : (apply_config lib "/var/log" fails one).0.caddyfile ≡ some old
apply_config-rollback_example =
    apply_config-rollback lib "/var/log" fails one old applied_badly refl
      (ground (arith, eq_iff old "")) old_restored

abbrev bad_request : HostCreateRequest
bad_request = record request { basic_auths = record { username = "a{b"; password = "x" } ∷ [] }

bad_request_checked : update_error net one 1 site bad_request ≡ none
unfolding update_error domain_taken_by_other validate_request validate_fields first_error
    validate_domain validate_upstream validate_ip_range validate_caddy_value
    sanitize_custom_directives lines_depth line_depth brace_step depth_error split trim_space
    trim_left trim_right has_prefix cut_prefix any_char new_host
bad_request_checked = refl

bad_name : accepts_name "a{b" ≡ false
unfolding validate_caddy_value any_char
bad_name = refl

site_found : find_host one.hosts 1 ≡ some site
unfolding find_host new_host
site_found = refl

abbrev refused : Outcome
refused = update net lib "/var/log" bcrypt by_order works 1 bad_request one

applied_later : (apply_config lib "/var/log" works refused.0).1 ≡ none
unfolding apply_config reload_config write_caddyfile update update_error find_host
    domain_taken_by_other validate_request validate_fields first_error validate_domain
    validate_upstream validate_ip_range validate_caddy_value sanitize_custom_directives lines_depth
    line_depth brace_step depth_error split trim_space trim_left trim_right has_prefix cut_prefix
    any_char new_host hash_auths
applied_later = refl

refused_update-unprotects_example :
    let s' = (apply_config lib "/var/log" works refused.0).0 in
    (refused.1 ≡ some hash_failed)
    × (find_host s'.hosts 1 ≡ some (cleared site))
    × (s'.caddyfile ≡ some (rendered lib "/var/log" works s'))
refused_update-unprotects_example =
    refused_update-unprotects net lib "/var/log" bcrypt by_order works works 1 bad_request one site
      site_found bad_request_checked (inl bad_name) applied_later
