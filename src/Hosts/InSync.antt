-- ===== src/Hosts/InSync.antt =====
-- The Caddyfile after the operations of internal/service/host.go that succeed.
use webcasa.Base.{
  ℕ, String, Bool, true, false, not, is_some, ◌≡◌, sym, ap, ◌∙◌, Option, none, some, List, [],
  arith, Bool-cases, Option-cases, inl, inr,
}
use webcasa.Caddy.{Host, Upstream}
use webcasa.Caddy.Validate.{NetLib}
use webcasa.Caddy.Render.{RenderLib, is_on}
use webcasa.Hosts.{
  HostCreateRequest, Store, Outcome, HostError, invalid, hash_failed, host_not_found, import_failed,
  find_host, modify_host, remove_host,
}
use webcasa.Hosts.Checks.{each, validate_import, create_error, update_error}
use webcasa.Hosts.Config.{Run, rendered, apply_config}
use webcasa.Hosts.Build.{hash_auths, new_host, updated_host}
use webcasa.Hosts.Ops.{
  accepts_name, insert_host, save_host, remapped, create, update, delete, toggle, update_cert_paths,
  import_hosts, import_all,
}
use webcasa.Hosts.Applied.{apply_config-none}
use webcasa.Hosts.Commands.{
  Command, create_host, update_host, delete_host, toggle_host, certify_host, copy_host, import_data,
  apply, step,
}

-- `CloneHost` only logs the error of applying the configuration; the other commands return it.
abbrev pub reports_failure : Command → Bool
reports_failure (copy_host i domain) = false
reports_failure c = true

-- An outcome is in step: if it is a success, the file is what the hosts now render to.
abbrev pub InStep : RenderLib → String → Run → Outcome → Type 0
InStep lib log_dir run o = o.1 ≡ none → o.0.caddyfile ≡ some (rendered lib log_dir run o.0)

failed : {A : Type 0} (e : HostError) → some e ≡ none → A
failed e h = absurd (ground (arith, h))

module _ (lib : RenderLib) (log_dir : String) where
  pub apply_config-InStep :
      (run : Run) (s : Store) → InStep lib log_dir run (apply_config lib log_dir run s)
  unfolding rendered
  apply_config-InStep run s h =
      let e = apply_config-none lib log_dir run s h in
      ap (λ t. t.caddyfile) e ∙ ap (λ t. some (rendered lib log_dir run t)) (sym e)

module _ (net : NetLib) (lib : RenderLib) (log_dir : String) (bcrypt : String → Option String)
    (by_order : List Upstream → List Upstream) where
  create-InStep :
      (run : Run) (req : HostCreateRequest) (s : Store)
      → InStep lib log_dir run (create net lib log_dir bcrypt by_order run req s)
  unfolding create
  create-InStep run req s h = elim (Option-cases (create_error net s req)) [
    | inr (x, e) ↦ failed x (rw (e, create) at h)
    | inl e ↦ elim (Option-cases (hash_auths bcrypt accepts_name req.basic_auths)) [
      | inl e' ↦ failed hash_failed (rw (e, e', create) at h)
      | inr (auths, e') ↦
          rw (e, e', create)
            (apply_config-InStep lib log_dir run
              (insert_host (new_host s.next_host s.next_upstream req auths) s)
              (rw (e, e', create) at h))
    ]
  ]

  update-InStep :
      (run : Run) (i : ℕ) (req : HostCreateRequest) (s : Store)
      → InStep lib log_dir run (update net lib log_dir bcrypt by_order run i req s)
  unfolding update
  update-InStep run i req s h = elim (Option-cases (find_host s.hosts i)) [
    | inl e ↦ failed host_not_found (rw (e, update) at h)
    | inr (host, e) ↦ elim (Option-cases (update_error net s i host req)) [
      | inr (x, e') ↦ failed x (rw (e, e', update) at h)
      | inl e' ↦ elim (Option-cases (hash_auths bcrypt accepts_name req.basic_auths)) [
        | inl e'' ↦ failed hash_failed (rw (e, e', e'', update) at h)
        | inr (auths, e'') ↦
            rw (e, e', e'', update)
              (apply_config-InStep lib log_dir run
                (save_host i
                  (remapped (by_order host.upstreams) (updated_host host s.next_upstream req auths))
                  s)
                (rw (e, e', e'', update) at h))
      ]
    ]
  ]

  delete-InStep :
      (run : Run) (i : ℕ) (s : Store)
      → InStep lib log_dir run (delete net lib log_dir bcrypt by_order run i s)
  unfolding delete
  delete-InStep run i s h = elim (Bool-cases (is_some (find_host s.hosts i))) [
    | inr e ↦ failed host_not_found (rw (e, delete) at h)
    | inl e ↦
        rw (e, delete)
          (apply_config-InStep lib log_dir run (record s { hosts = remove_host i s.hosts })
            (rw (e, delete) at h))
  ]

  toggle-InStep :
      (run : Run) (i : ℕ) (s : Store)
      → InStep lib log_dir run (toggle net lib log_dir bcrypt by_order run i s)
  unfolding toggle
  toggle-InStep run i s h = elim (Option-cases (find_host s.hosts i)) [
    | inl e ↦ failed host_not_found (rw (e, toggle) at h)
    | inr (host, e) ↦
        rw (e, toggle)
          (apply_config-InStep lib log_dir run
            (record s {
              hosts =
                  modify_host i (λ h. record host { enabled = some (not (is_on host.enabled)) })
                    s.hosts;
            })
            (rw (e, toggle) at h))
  ]

  update_cert_paths-InStep :
      (run : Run) (i : ℕ) (cert key : String) (s : Store)
      → InStep lib log_dir run (update_cert_paths net lib log_dir bcrypt by_order run i cert key s)
  unfolding update_cert_paths
  update_cert_paths-InStep run i cert key s h = elim (Option-cases (find_host s.hosts i)) [
    | inl e ↦ failed host_not_found (rw (e, update_cert_paths) at h)
    | inr (host, e) ↦
        rw (e, update_cert_paths)
          (apply_config-InStep lib log_dir run
            (record s {
              hosts =
                  modify_host i
                    (λ h. record host { custom_cert_path = cert; custom_key_path = key }) s.hosts;
            })
            (rw (e, update_cert_paths) at h))
  ]

  import_all-InStep :
      (run : Run) (hosts : List Host) (s : Store)
      → InStep lib log_dir run (import_all net lib log_dir bcrypt by_order run hosts s)
  unfolding import_all
  import_all-InStep run hosts s h = elim (Option-cases (each (validate_import net) hosts)) [
    | inr (x, e) ↦ failed (invalid x) (rw (e, import_all) at h)
    | inl e ↦
        elim (Option-cases
          (import_hosts net lib log_dir bcrypt by_order hosts (record s { hosts = [] }))) [
            | inl e' ↦ failed import_failed (rw (e, e', import_all) at h)
            | inr (s', e') ↦
                rw (e, e', import_all)
                  (apply_config-InStep lib log_dir run s' (rw (e, e', import_all) at h))
          ]
  ]

  -- A command other than copying a host that answers with success leaves a Caddyfile that is what the
  -- hosts, with their certificates and providers, then render to.
  pub step-in_sync :
      (run : Run) (c : Command) (s : Store)
      → reports_failure c ≡ true
      → (step net lib log_dir bcrypt by_order run c s).1 ≡ none
      → (step net lib log_dir bcrypt by_order run c s).0.caddyfile
        ≡ some (rendered lib log_dir run (step net lib log_dir bcrypt by_order run c s).0)
  unfolding step
  step-in_sync run (create_host req) s t h = create-InStep run req s h
  step-in_sync run (update_host i req) s t h = update-InStep run i req s h
  step-in_sync run (delete_host i) s t h = delete-InStep run i s h
  step-in_sync run (toggle_host i) s t h = toggle-InStep run i s h
  step-in_sync run (certify_host i cert key) s t h = update_cert_paths-InStep run i cert key s h
  step-in_sync run (copy_host i domain) s t h = absurd (ground (arith, t))
  step-in_sync run (import_data hosts) s t h = import_all-InStep run hosts s h
  step-in_sync run apply s t h = apply_config-InStep lib log_dir run s h
