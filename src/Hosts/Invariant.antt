-- ===== src/Hosts/Invariant.antt =====
-- Every operation keeps the store sound, whatever it answers.
use webcasa.Base.{
  ℕ, String, not, ◌≡◌, sym, subst, Option, none, some, is_some, List, [], ◌∷◌, All, All-append,
  arith, Bool-cases, Option-cases, inl, inr,
}
use webcasa.Caddy.{Host, Upstream}
use webcasa.Caddy.Validate.{NetLib, validate_domain}
use webcasa.Caddy.Braces.{Plain, Whole}
use webcasa.Caddy.Render.{RenderLib, is_on}
use webcasa.Caddy.Blocks.{Safe, RenderLaws}
use webcasa.Hosts.{HostCreateRequest, Store, find_host, domain_taken, modify_host, remove_host}
use webcasa.Hosts.Checks.{each, validate_import, create_error, update_error}
use webcasa.Hosts.Config.{Run, apply_config, rendered}
use webcasa.Hosts.Build.{hash_auths, new_host, updated_host}
use webcasa.Hosts.Rows.{each-none, hash_auths-Plain, PlainHashes}
use webcasa.Hosts.Safety.{new_host-Safe, updated_host-Safe, validate_import-Safe}
use webcasa.Hosts.Revised.{
  remapped-Safe, copied_host-Safe, renamed-Safe, certified-Safe, cleared-Safe, enabled-Safe,
}
use webcasa.Hosts.Lookup.{
  find_host-All, modify_host-All, remove_host-All, create_error-none, update_error-none,
}
use webcasa.Hosts.Applied.{apply_config-kept, apply_config-file}
use webcasa.Hosts.Sound.{PlainImport, PlainCertificates, WholeFile, Sound, rendered-Whole}
use webcasa.Hosts.Ops.{
  accepts_name, cleared, remapped, insert_host, save_host, insert_copy, create, update, delete,
  toggle, update_cert_paths, clone_host, import_hosts, import_all,
}

written : (text : String) → Whole text → WholeFile (some text)
written text h other e = subst Whole (cc e) h

module _ (net : NetLib) (lib : RenderLib) (log_dir : String) (bcrypt : String → Option String)
    (by_order : List Upstream → List Upstream) (laws : RenderLaws lib)
    (log_Plain : Plain log_dir) where
  pub applied :
      (run : Run) (s : Store)
      → Plain run.now
      → PlainCertificates s.certificates × WholeFile s.caddyfile
      → All (Safe net) s.hosts
      → Sound net (apply_config lib log_dir run s).0
  applied run s now (hc, hf) h =
      let (same, certs, _) = apply_config-kept lib log_dir run s in
      let whole = rendered-Whole net lib laws log_dir log_Plain run s now h hc in
      (
        subst (λ hs. All (Safe net) hs) (sym same) h,
        (
          subst (λ cs. PlainCertificates cs) (sym certs) hc,
          elim (apply_config-file lib log_dir run s) [
            | inl e ↦ subst (λ f. WholeFile f) (sym e) hf
            | inr e ↦ subst (λ f. WholeFile f) (sym e) (written (rendered lib log_dir run s) whole)
          ],
        ),
      )

  pub create-Sound :
      (run : Run) (req : HostCreateRequest) (s : Store)
      → PlainHashes bcrypt
      → Plain run.now
      → Sound net s
      → Sound net (create net lib log_dir bcrypt by_order run req s).0
  unfolding create
  create-Sound run req s hp now (h, k) = elim (Option-cases (create_error net s req)) [
    | inr (x, e) ↦ rw (e, create) (h, k)
    | inl e ↦ elim (Option-cases (hash_auths bcrypt accepts_name req.basic_auths)) [
      | inl e' ↦ rw (e, e', create) (h, k)
      | inr (auths, e') ↦
          let plain = hash_auths-Plain bcrypt req.basic_auths auths hp e' in
          let host = new_host s.next_host s.next_upstream req auths in
          rw (e, e', create)
            (applied run (insert_host host s) now k (
              All-append (Safe net) s.hosts (host ∷ []) (
                h,
                (
                  new_host-Safe net s.next_host s.next_upstream req auths
                      (create_error-none net s req e) plain,
                  tt,
                ),
              )))
    ]
  ]

  pub update-Sound :
      (run : Run) (i : ℕ) (req : HostCreateRequest) (s : Store)
      → PlainHashes bcrypt
      → Plain run.now
      → Sound net s
      → Sound net (update net lib log_dir bcrypt by_order run i req s).0
  unfolding update
  update-Sound run i req s hp now (h, k) = elim (Option-cases (find_host s.hosts i)) [
    | inl e ↦ rw (e, update) (h, k)
    | inr (host, e) ↦ elim (Option-cases (update_error net s i host req)) [
      | inr (x, e1) ↦ rw (e, e1, update) (h, k)
      | inl e1 ↦ elim (Option-cases (hash_auths bcrypt accepts_name req.basic_auths)) [
        | inl e2 ↦
            rw (e, e1, e2, update)
              (modify_host-All (Safe net) i cleared s.hosts (cleared-Safe net) h, k)
        | inr (auths, e2) ↦
            let plain = hash_auths-Plain bcrypt req.basic_auths auths hp e2 in
            let safe = find_host-All (Safe net) s.hosts i host h e in
            let fresh = updated_host host s.next_upstream req auths in
            let saved = remapped (by_order host.upstreams) fresh in
            rw (e, e1, e2, update)
              (applied run (save_host i saved s) now k (
                modify_host-All (Safe net) i (λ x. saved) s.hosts
                  (λ x hx. remapped-Safe net (by_order host.upstreams) fresh (
                    updated_host-Safe net host s.next_upstream req auths safe
                      (update_error-none net s i host req e1) plain))
                  h))
      ]
    ]
  ]

  pub delete-Sound :
      (run : Run) (i : ℕ) (s : Store)
      → Plain run.now
      → Sound net s
      → Sound net (delete net lib log_dir bcrypt by_order run i s).0
  unfolding delete
  delete-Sound run i s now (h, k) = elim (Bool-cases (is_some (find_host s.hosts i))) [
    | inl e ↦
        rw (e, delete)
          (applied run (record s { hosts = remove_host i s.hosts }) now k
            (remove_host-All (Safe net) i s.hosts h))
    | inr e ↦ rw (e, delete) (h, k)
  ]

  pub toggle-Sound :
      (run : Run) (i : ℕ) (s : Store)
      → Plain run.now
      → Sound net s
      → Sound net (toggle net lib log_dir bcrypt by_order run i s).0
  unfolding toggle
  toggle-Sound run i s now (h, k) = elim (Option-cases (find_host s.hosts i)) [
    | inl e ↦ rw (e, toggle) (h, k)
    | inr (host, e) ↦
        let switched = record host { enabled = some (not (is_on host.enabled)) } in
        rw (e, toggle)
          (applied run (record s { hosts = modify_host i (λ x. switched) s.hosts }) now k
            (modify_host-All (Safe net) i (λ x. switched) s.hosts
              (λ x hx. enabled-Safe net host _ (find_host-All (Safe net) s.hosts i host h e)) h))
  ]

  pub update_cert_paths-Sound :
      (run : Run) (i : ℕ) (cert key : String) (s : Store)
      → Plain cert × Plain key
      → Plain run.now
      → Sound net s
      → Sound net (update_cert_paths net lib log_dir bcrypt by_order run i cert key s).0
  unfolding update_cert_paths
  update_cert_paths-Sound run i cert key s hp now (h, k) =
      elim (Option-cases (find_host s.hosts i)) [
        | inl e ↦ rw (e, update_cert_paths) (h, k)
        | inr (host, e) ↦
            let certified = record host { custom_cert_path = cert; custom_key_path = key } in
            rw (e, update_cert_paths)
              (applied run (record s { hosts = modify_host i (λ x. certified) s.hosts }) now k
                (modify_host-All (Safe net) i (λ x. certified) s.hosts
                  (λ x hx.
                    certified-Safe net host cert key (find_host-All (Safe net) s.hosts i host h e)
                      hp)
                  h))
      ]

  insert_copy-Safe :
      (host : Host) (s : Store)
      → Safe net host
      → All (Safe net) s.hosts
      → All (Safe net) (insert_copy net lib log_dir bcrypt by_order host s).hosts
  insert_copy-Safe host s safe h =
      All-append (Safe net) s.hosts _
        (h, (copied_host-Safe net s.next_host s.next_upstream s.next_route host safe, tt))

  pub clone_host-Sound :
      (run : Run) (i : ℕ) (domain : String) (s : Store)
      → Plain run.now
      → Sound net s
      → Sound net (clone_host net lib log_dir bcrypt by_order run i domain s).0
  unfolding clone_host
  clone_host-Sound run i domain s now (h, k) = elim (Option-cases (validate_domain net domain)) [
    | inr (x, e) ↦ rw (e, clone_host) (h, k)
    | inl e ↦ elim (Bool-cases (domain_taken s.hosts domain)) [
      | inl e1 ↦ rw (e, e1, clone_host) (h, k)
      | inr e1 ↦ elim (Option-cases (find_host s.hosts i)) [
        | inl e2 ↦ rw (e, e1, e2, clone_host) (h, k)
        | inr (host, e2) ↦
            let other = record host { domain = domain } in
            rw (e, e1, e2, clone_host)
              (applied run (insert_copy net lib log_dir bcrypt by_order other s) now k (
                insert_copy-Safe other s
                  (renamed-Safe net host domain (find_host-All (Safe net) s.hosts i host h e2) e)
                  h))
      ]
    ]
  ]

  import_hosts-Sound :
      (hosts : List Host) (s s' : Store)
      → All (Safe net) hosts
      → Sound net s
      → import_hosts net lib log_dir bcrypt by_order hosts s ≡ some s'
      → Sound net s'
  unfolding import_hosts
  import_hosts-Sound [] s s' hs h e =
      let same : s ≡ s' = ground (arith, e) in subst (λ t. Sound net t) same h
  import_hosts-Sound (host ∷ hosts) s s' (hh, hs) (h, k) e =
      elim (Bool-cases (domain_taken s.hosts host.domain)) [
        | inl y ↦
            let stop : none ≡ some s' = rw (y, import_hosts) at e in absurd (ground (arith, stop))
        | inr n ↦
            import_hosts-Sound hosts (insert_copy net lib log_dir bcrypt by_order host s) s' hs
              (insert_copy-Safe host s hh h, k) (rw (n, import_hosts) at e)
      ]

  imported-Safe :
      (hosts : List Host)
      → All (λ h. validate_import net h ≡ none) hosts
      → All PlainImport hosts
      → All (Safe net) hosts
  imported-Safe [] h p = tt
  imported-Safe (x ∷ hosts) (h, hs) ((pa, pc), ps) =
      (validate_import-Safe net x h pa pc, imported-Safe hosts hs ps)

  pub import_all-Sound :
      (run : Run) (hosts : List Host) (s : Store)
      → All PlainImport hosts
      → Plain run.now
      → Sound net s
      → Sound net (import_all net lib log_dir bcrypt by_order run hosts s).0
  unfolding import_all
  import_all-Sound run hosts s p now (h, k) =
      elim (Option-cases (each (validate_import net) hosts)) [
        | inr (x, e) ↦ rw (e, import_all) (h, k)
        | inl e ↦
            elim (Option-cases
              (import_hosts net lib log_dir bcrypt by_order hosts (record s { hosts = [] }))) [
                | inl e1 ↦ rw (e, e1, import_all) (h, k)
                | inr (s', e1) ↦
                    let (h', k') =
                      import_hosts-Sound hosts (record s { hosts = [] }) s'
                        (imported-Safe hosts (each-none (validate_import net) hosts e) p) (tt, k)
                        e1 in
                    rw (e, e1, import_all) (applied run s' now k' h')
              ]
      ]
