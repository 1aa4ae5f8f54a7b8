-- ===== src/Hosts/Unique.antt =====
-- No key and no domain stands twice in the store, whatever the operations answer.
use webcasa.Base.{
  ℕ, ◌<◌, String, false, not, ◌≡◌, refl, sym, subst, Option, none, some, is_some, List, [], ◌∷◌,
  All, arith, Bool-cases, Option-cases, inl, inr,
}
use webcasa.Caddy.{Host, Upstream}
use webcasa.Caddy.Validate.{NetLib, validate_domain}
use webcasa.Caddy.Render.{RenderLib, is_on}
use webcasa.Hosts.{HostCreateRequest, Store, find_host, domain_taken, modify_host, remove_host}
use webcasa.Hosts.Checks.{each, validate_import, create_error, update_error}
use webcasa.Hosts.Config.{Run, apply_config}
use webcasa.Hosts.Build.{hash_auths, new_host, updated_host, copied_host}
use webcasa.Hosts.Lookup.{modify_host-All, remove_host-All}
use webcasa.Hosts.Distinct.{
  Free, Distinct-remove, domain_taken_by_other-false, find_host-id, find_host-Free,
}
use webcasa.Hosts.Applied.{apply_config-kept}
use webcasa.Hosts.Ops.{
  accepts_name, cleared, remapped, insert_host, save_host, insert_copy, create, update, delete,
  toggle, update_cert_paths, clone_host, import_hosts, import_all,
}
use webcasa.Hosts.Commands.{
  Command, create_host, update_host, delete_host, toggle_host, certify_host, copy_host, import_data,
  apply, step, run_commands,
}
use webcasa.Hosts.Keys.{
  Keyed, insert-Keyed, replace-Keyed, cleared-Distinct, create_error-domain, update_error-domain,
}

abbrev pub KeyedStore : Store → Type 0
KeyedStore s = Keyed s.hosts s.next_host

module _ (net : NetLib) (lib : RenderLib) (log_dir : String) (bcrypt : String → Option String)
    (by_order : List Upstream → List Upstream) where
  applied : (run : Run) (s : Store) → KeyedStore s → KeyedStore (apply_config lib log_dir run s).0
  applied run s h =
      let (same, _, next) = apply_config-kept lib log_dir run s in
      subst (λ n. Keyed (apply_config lib log_dir run s).0.hosts n) (sym next)
        (subst (λ hs. Keyed hs s.next_host) (sym same) h)

  create-Keyed :
      (run : Run) (req : HostCreateRequest) (s : Store)
      → KeyedStore s
      → KeyedStore (create net lib log_dir bcrypt by_order run req s).0
  unfolding create
  create-Keyed run req s h = elim (Option-cases (create_error net s req)) [
    | inr (x, e) ↦ rw (e, create) h
    | inl e ↦ elim (Option-cases (hash_auths bcrypt accepts_name req.basic_auths)) [
      | inl e' ↦ rw (e, e', create) h
      | inr (auths, e') ↦
          let host = new_host s.next_host s.next_upstream req auths in
          rw (e, e', create)
            (applied run (insert_host host s) (
              unfold new_host in
              insert-Keyed s.hosts host s.next_host refl (create_error-domain net s req e) h))
    ]
  ]

  saved-Keyed :
      (run : Run) (i : ℕ) (old h : Host) (s s' : Store)
      → find_host s.hosts i ≡ some old
      → h.id ≡ i
      → All (Free i h.domain) s.hosts
      → s'.hosts ≡ modify_host i (λ x. h) s.hosts
      → s'.next_host ≡ s.next_host
      → KeyedStore s
      → KeyedStore (apply_config lib log_dir run s').0
  saved-Keyed run i old h s s' e k f eh en ks = applied run s' (
      subst (λ n. Keyed s'.hosts n) (sym en)
        (subst (λ hs. Keyed hs s.next_host) (sym eh)
          (replace-Keyed s.hosts i old h s.next_host e k f ks)))

  update-Keyed :
      (run : Run) (i : ℕ) (req : HostCreateRequest) (s : Store)
      → KeyedStore s
      → KeyedStore (update net lib log_dir bcrypt by_order run i req s).0
  unfolding update
  update-Keyed run i req s (d, b) = elim (Option-cases (find_host s.hosts i)) [
    | inl e ↦ rw (e, update) (d, b)
    | inr (host, e) ↦ elim (Option-cases (update_error net s i host req)) [
      | inr (x, e1) ↦ rw (e, e1, update) (d, b)
      | inl e1 ↦ elim (Option-cases (hash_auths bcrypt accepts_name req.basic_auths)) [
        | inl e2 ↦
            rw (e, e1, e2, update)
              (
                cleared-Distinct i s.hosts d,
                modify_host-All (λ x. x.id < s.next_host) i cleared s.hosts (λ x c. c) b,
              )
        | inr (auths, e2) ↦
            let saved =
              remapped (by_order host.upstreams) (updated_host host s.next_upstream req auths) in
            rw (e, e1, e2, update)
              (saved-Keyed run i host saved s (save_host i saved s) e
                (unfold updated_host in find_host-id s.hosts i host e)
                (unfold updated_host in
                  domain_taken_by_other-false s.hosts req.domain i
                    (update_error-domain net s i host req e1))
                refl refl (d, b))
      ]
    ]
  ]

  delete-Keyed :
      (run : Run) (i : ℕ) (s : Store)
      → KeyedStore s
      → KeyedStore (delete net lib log_dir bcrypt by_order run i s).0
  unfolding delete
  delete-Keyed run i s (d, b) = elim (Bool-cases (is_some (find_host s.hosts i))) [
    | inl e ↦
        rw (e, delete)
          (applied run (record s { hosts = remove_host i s.hosts })
            (Distinct-remove i s.hosts d, remove_host-All (λ x. x.id < s.next_host) i s.hosts b))
    | inr e ↦ rw (e, delete) (d, b)
  ]

  toggle-Keyed :
      (run : Run) (i : ℕ) (s : Store)
      → KeyedStore s
      → KeyedStore (toggle net lib log_dir bcrypt by_order run i s).0
  unfolding toggle
  toggle-Keyed run i s (d, b) = elim (Option-cases (find_host s.hosts i)) [
    | inl e ↦ rw (e, toggle) (d, b)
    | inr (host, e) ↦
        let switched = record host { enabled = some (not (is_on host.enabled)) } in
        rw (e, toggle)
          (saved-Keyed run i host switched s
            (record s { hosts = modify_host i (λ x. switched) s.hosts }) e
            (find_host-id s.hosts i host e) (find_host-Free s.hosts i host d e) refl refl (d, b))
  ]

  update_cert_paths-Keyed :
      (run : Run) (i : ℕ) (cert key : String) (s : Store)
      → KeyedStore s
      → KeyedStore (update_cert_paths net lib log_dir bcrypt by_order run i cert key s).0
  unfolding update_cert_paths
  update_cert_paths-Keyed run i cert key s (d, b) = elim (Option-cases (find_host s.hosts i)) [
    | inl e ↦ rw (e, update_cert_paths) (d, b)
    | inr (host, e) ↦
        let certified = record host { custom_cert_path = cert; custom_key_path = key } in
        rw (e, update_cert_paths)
          (saved-Keyed run i host certified s
            (record s { hosts = modify_host i (λ x. certified) s.hosts }) e
            (find_host-id s.hosts i host e) (find_host-Free s.hosts i host d e) refl refl (d, b))
  ]

  insert_copy-Keyed :
      (host : Host) (s : Store)
      → domain_taken s.hosts host.domain ≡ false
      → KeyedStore s
      → KeyedStore (insert_copy net lib log_dir bcrypt by_order host s)
  insert_copy-Keyed host s t h =
      unfold copied_host in
      insert-Keyed s.hosts (copied_host s.next_host s.next_upstream s.next_route host) s.next_host
        refl t h

  clone_host-Keyed :
      (run : Run) (i : ℕ) (domain : String) (s : Store)
      → KeyedStore s
      → KeyedStore (clone_host net lib log_dir bcrypt by_order run i domain s).0
  unfolding clone_host
  clone_host-Keyed run i domain s h = elim (Option-cases (validate_domain net domain)) [
    | inr (x, e) ↦ rw (e, clone_host) h
    | inl e ↦ elim (Bool-cases (domain_taken s.hosts domain)) [
      | inl e1 ↦ rw (e, e1, clone_host) h
      | inr e1 ↦ elim (Option-cases (find_host s.hosts i)) [
        | inl e2 ↦ rw (e, e1, e2, clone_host) h
        | inr (host, e2) ↦
            let other = record host { domain = domain } in
            rw (e, e1, e2, clone_host)
              (applied run (insert_copy net lib log_dir bcrypt by_order other s)
                (insert_copy-Keyed other s e1 h))
      ]
    ]
  ]

  import_hosts-Keyed :
      (hosts : List Host) (s s' : Store)
      → KeyedStore s
      → import_hosts net lib log_dir bcrypt by_order hosts s ≡ some s'
      → KeyedStore s'
  unfolding import_hosts
  import_hosts-Keyed [] s s' h e =
      let same : s ≡ s' = ground (arith, e) in subst (λ t. KeyedStore t) same h
  import_hosts-Keyed (host ∷ hosts) s s' h e =
      elim (Bool-cases (domain_taken s.hosts host.domain)) [
        | inl y ↦
            let stop : none ≡ some s' = rw (y, import_hosts) at e in absurd (ground (arith, stop))
        | inr n ↦
            import_hosts-Keyed hosts (insert_copy net lib log_dir bcrypt by_order host s) s'
              (insert_copy-Keyed host s n h) (rw (n, import_hosts) at e)
      ]

  import_all-Keyed :
      (run : Run) (hosts : List Host) (s : Store)
      → KeyedStore s
      → KeyedStore (import_all net lib log_dir bcrypt by_order run hosts s).0
  unfolding import_all
  import_all-Keyed run hosts s h = elim (Option-cases (each (validate_import net) hosts)) [
    | inr (x, e) ↦ rw (e, import_all) h
    | inl e ↦
        elim (Option-cases
          (import_hosts net lib log_dir bcrypt by_order hosts (record s { hosts = [] }))) [
            | inl e1 ↦ rw (e, e1, import_all) h
            | inr (s', e1) ↦
                rw (e, e1, import_all)
                  (applied run s'
                    (import_hosts-Keyed hosts (record s { hosts = [] }) s' (tt, tt) e1))
          ]
  ]

  step-Keyed :
      (run : Run) (c : Command) (s : Store)
      → KeyedStore s
      → KeyedStore (step net lib log_dir bcrypt by_order run c s).0
  unfolding step
  step-Keyed run (create_host req) s h = create-Keyed run req s h
  step-Keyed run (update_host i req) s h = update-Keyed run i req s h
  step-Keyed run (delete_host i) s h = delete-Keyed run i s h
  step-Keyed run (toggle_host i) s h = toggle-Keyed run i s h
  step-Keyed run (certify_host i cert key) s h = update_cert_paths-Keyed run i cert key s h
  step-Keyed run (copy_host i domain) s h = clone_host-Keyed run i domain s h
  step-Keyed run (import_data hosts) s h = import_all-Keyed run hosts s h
  step-Keyed run apply s h = applied run s h

  -- Whatever commands are given to the panel, in whatever order and whichever of them fail, no two hosts
  -- have one key or one domain and the next key is above all keys, if it was so before.
  pub run_commands-Keyed :
      (commands : List (Run × Command)) (s : Store)
      → KeyedStore s
      → KeyedStore (run_commands net lib log_dir bcrypt by_order commands s)
  unfolding run_commands
  run_commands-Keyed [] s h = h
  run_commands-Keyed ((run, c) ∷ rest) s h =
      run_commands-Keyed rest (step net lib log_dir bcrypt by_order run c s).0
        (step-Keyed run c s h)
