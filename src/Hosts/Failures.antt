-- ===== src/Hosts/Failures.antt =====
-- What an update that fails late leaves behind (internal/service/host.go).
use webcasa.Base.{
  ℕ, String, true, ◌≡◌, refl, sym, ◌∙◌, ap, Option, none, some, List, [], ◌∷◌, ◌==◌, if◌then◌else◌,
  Bool-cases, Option-cases, Any, false, inl, inr, arith,
}
use webcasa.Caddy.{Host, Upstream}
use webcasa.Caddy.Validate.{NetLib}
use webcasa.Caddy.Render.{RenderLib}
use webcasa.Hosts.{HostCreateRequest, BasicAuthInput, Store, hash_failed, find_host, modify_host}
use webcasa.Hosts.Checks.{update_error}
use webcasa.Hosts.Config.{Run, rendered, apply_config}
use webcasa.Hosts.Build.{hash_auths}
use webcasa.Hosts.Ops.{accepts_name, cleared, update}
use webcasa.Hosts.Applied.{apply_config-kept}
use webcasa.Hosts.InSync.{apply_config-InStep}

modify_host-cons :
    (i : ℕ) (f : Host → Host) (x : Host) (hs : List Host)
    → modify_host i f (x ∷ hs) ≡ (if x.id == i then f x else x) ∷ modify_host i f hs
unfolding modify_host
modify_host-cons i f x hs = refl

find_host-here :
    (x : Host) (hs : List Host) (i : ℕ) → (x.id == i) ≡ true → find_host (x ∷ hs) i ≡ some x
unfolding find_host
find_host-here x hs i y = rw y refl

find_host-later :
    (x : Host) (hs : List Host) (i : ℕ)
    → (x.id == i) ≡ false
    → find_host (x ∷ hs) i ≡ find_host hs i
unfolding find_host
find_host-later x hs i n = rw n refl

find_host-modify :
    (i : ℕ) (hs : List Host) (h : Host)
    → find_host hs i ≡ some h
    → find_host (modify_host i cleared hs) i ≡ some (cleared h)
find_host-modify i [] h e = absurd (unfold find_host in ground (arith, e))
find_host-modify i (x ∷ hs) h e =
    ap (λ l. find_host l i) (modify_host-cons i cleared x hs) ∙ elim (Bool-cases (x.id == i)) [
      | inl y ↦
          let first : x ≡ h = cc (sym (find_host-here x hs i y) ∙ e) in
          ap (λ b. find_host ((if b then cleared x else x) ∷ modify_host i cleared hs) i) y
          ∙ find_host-here (cleared x) (modify_host i cleared hs) i y
          ∙ ap (λ z. some (cleared z)) first
      | inr n ↦
          ap (λ b. find_host ((if b then cleared x else x) ∷ modify_host i cleared hs) i) n
          ∙ find_host-later x (modify_host i cleared hs) i n
          ∙ find_host-modify i hs h (sym (find_host-later x hs i n) ∙ e)
    ]

module _ (net : NetLib) (lib : RenderLib) (log_dir : String) (bcrypt : String → Option String)
    (by_order : List Upstream → List Upstream) where
  hash_auths-refused :
      (auths : List BasicAuthInput)
      → Any (λ a. accepts_name a.username ≡ false) auths
      → hash_auths bcrypt accepts_name auths ≡ none
  unfolding hash_auths
  hash_auths-refused [] h = absurd h
  hash_auths-refused (a ∷ rest) (inl n) = rw n refl
  hash_auths-refused (a ∷ rest) (inr h) =
      let others = hash_auths-refused rest h in
      elim (Bool-cases (accepts_name a.username)) [
        | inr n ↦ rw n refl
        | inl y ↦ elim (Option-cases (bcrypt a.password)) [
          | inl e ↦ rw (y, others, e) refl
          | inr (hash, e) ↦ rw (y, others, e) refl
        ]
      ]

  update-refused :
      (run : Run) (i : ℕ) (req : HostCreateRequest) (s : Store) (host : Host)
      → find_host s.hosts i ≡ some host
      → update_error net s i host req ≡ none
      → hash_auths bcrypt accepts_name req.basic_auths ≡ none
      → update net lib log_dir bcrypt by_order run i req s
        ≡ (record s { hosts = modify_host i cleared s.hosts }, some hash_failed)
  unfolding update
  update-refused run i req s host e e1 e2 = rw (e, e1, e2, update) refl

  -- An update whose other checks pass, but of which one of the basic auths has a name that breaks the
  -- syntax, fails; and once the configuration is applied with success after it, the host is stored
  -- without upstreams, headers, access rules and basic auths, and the Caddyfile is what the hosts, with
  -- this one among them, render to.
  pub refused_update-unprotects :
      (run later : Run) (i : ℕ) (req : HostCreateRequest) (s : Store) (host : Host)
      → find_host s.hosts i ≡ some host
      → update_error net s i host req ≡ none
      → Any (λ a. accepts_name a.username ≡ false) req.basic_auths
      → (apply_config lib log_dir later (update net lib log_dir bcrypt by_order run i req s).0).1
        ≡ none
      → let o = update net lib log_dir bcrypt by_order run i req s in
        let s' = (apply_config lib log_dir later o.0).0 in
        (o.1 ≡ some hash_failed)
        × (find_host s'.hosts i ≡ some (cleared host))
        × (s'.caddyfile ≡ some (rendered lib log_dir later s'))
  refused_update-unprotects run later i req s host e e1 bad h =
      let o = update-refused run i req s host e e1 (hash_auths-refused req.basic_auths bad) in
      let s1 = (update net lib log_dir bcrypt by_order run i req s).0 in
      let hosts : s1.hosts ≡ modify_host i cleared s.hosts = ap (λ p. p.0.hosts) o in
      (
        ap (λ p. p.1) o,
        ap (λ hs. find_host hs i) ((apply_config-kept lib log_dir later s1).0 ∙ hosts)
            ∙ find_host-modify i s.hosts host e,
        apply_config-InStep lib log_dir later s1 h,
      )
