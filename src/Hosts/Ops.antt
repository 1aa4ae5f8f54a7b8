-- ===== src/Hosts/Ops.antt =====
-- internal/service/host.go: the operations of `HostService`. The database does what it is asked, but for
-- the unique index on domains, which `ImportAll` can meet; a failed transaction leaves nothing.
use webcasa.Base.{
  ℕ, ◌+◌, String, Bool, not, Option, none, some, is_some, List, [], ◌∷◌, ◌++◌, map, if◌then◌else◌,
  length,
}
use webcasa.Caddy.{Upstream, Route, Host}
use webcasa.Caddy.Validate.{NetLib, validate_domain, validate_caddy_value}
use webcasa.Caddy.Render.{RenderLib, is_on}
use webcasa.Hosts.{
  HostCreateRequest, Store, Outcome, invalid, domain_exists, hash_failed, host_not_found,
  import_failed, find_host, domain_taken, modify_host, remove_host,
}
use webcasa.Hosts.Checks.{each, first_error, validate_import, create_error, update_error}
use webcasa.Hosts.Config.{Run, apply_config}
use webcasa.Hosts.Build.{hash_auths, new_host, updated_host, remap_route, copied_host}

abbrev pub accepts_name : String → Bool
accepts_name name = not (is_some (validate_caddy_value name))

-- `Update` has deleted these rows when it hashes the passwords.
abbrev pub cleared : Host → Host
cleared host = record host {
  upstreams = [];
  custom_headers = [];
  access_rules = [];
  basic_auths = [];
}

-- The routes are remapped if there were upstreams and there are some.
abbrev pub remap_routes : List Upstream → List Upstream → List Route → List Route
remap_routes [] new routes = routes
remap_routes (u ∷ us) [] routes = routes
remap_routes (u ∷ us) (v ∷ vs) routes = map (remap_route (u ∷ us) (v ∷ vs)) routes

abbrev pub remapped : List Upstream → Host → Host
remapped old host = record host { routes = remap_routes old host.upstreams host.routes }

abbrev pub insert_host : Host → Store → Store
insert_host host s = record s {
  hosts = s.hosts ++ host ∷ [];
  next_host = s.next_host + 1;
  next_upstream = s.next_upstream + length host.upstreams;
  next_route = s.next_route + length host.routes;
}

abbrev pub save_host : ℕ → Host → Store → Store
save_host i host s = record s {
  hosts = modify_host i (λ h. host) s.hosts;
  next_upstream = s.next_upstream + length host.upstreams;
}

module _ (net : NetLib) (lib : RenderLib) (log_dir : String) (bcrypt : String → Option String)
    (by_order : List Upstream → List Upstream) where
  unfoldable pub create : Run → HostCreateRequest → Store → Outcome
  unfolding apply_config create_error hash_auths new_host
  create run req s = elim (create_error net s req) [
    | some e ↦ (s, some e)
    | none ↦ (elim (hash_auths bcrypt accepts_name req.basic_auths) [
      | none ↦ (s, some hash_failed)
      | some auths ↦
          apply_config lib log_dir run
            (insert_host (new_host s.next_host s.next_upstream req auths) s)
    ])
  ]

  unfoldable pub update : Run → ℕ → HostCreateRequest → Store → Outcome
  unfolding apply_config update_error hash_auths updated_host
  update run i req s = elim (find_host s.hosts i) [
    | none ↦ (s, some host_not_found)
    | some host ↦ (elim (update_error net s i host req) [
      | some e ↦ (s, some e)
      | none ↦ (elim (hash_auths bcrypt accepts_name req.basic_auths) [
        | none ↦ (record s { hosts = modify_host i cleared s.hosts }, some hash_failed)
        | some auths ↦ apply_config lib log_dir run (
            save_host i
              (remapped (by_order host.upstreams) (updated_host host s.next_upstream req auths)) s)
      ])
    ])
  ]

  unfoldable pub delete : Run → ℕ → Store → Outcome
  unfolding apply_config
  delete run i s =
      if is_some (find_host s.hosts i)
      then apply_config lib log_dir run (record s { hosts = remove_host i s.hosts })
      else (s, some host_not_found)

  unfoldable pub toggle : Run → ℕ → Store → Outcome
  unfolding apply_config
  toggle run i s = elim (find_host s.hosts i) [
    | none ↦ (s, some host_not_found)
    | some host ↦ apply_config lib log_dir run (record s {
      hosts =
          modify_host i (λ h. record host { enabled = some (not (is_on host.enabled)) }) s.hosts;
    })
  ]

  unfoldable pub update_cert_paths : Run → ℕ → String → String → Store → Outcome
  unfolding apply_config
  update_cert_paths run i cert key s = elim (find_host s.hosts i) [
    | none ↦ (s, some host_not_found)
    | some host ↦ apply_config lib log_dir run (record s {
      hosts =
          modify_host i (λ h. record host { custom_cert_path = cert; custom_key_path = key })
            s.hosts;
    })
  ]

  abbrev pub insert_copy : Host → Store → Store
  insert_copy host s = insert_host (copied_host s.next_host s.next_upstream s.next_route host) s

  -- The error of the configuration is logged, not returned.
  unfoldable pub clone_host : Run → ℕ → String → Store → Outcome
  unfolding apply_config copied_host
  clone_host run i domain s = elim (validate_domain net domain) [
    | some e ↦ (s, some (invalid e))
    | none ↦
        if domain_taken s.hosts domain
        then (s, some domain_exists)
        else (elim (find_host s.hosts i) [
          | none ↦ (s, some host_not_found)
          | some host ↦ (
            (apply_config lib log_dir run (insert_copy (record host { domain = domain }) s)).0,
            none,
          )
        ])
  ]

  -- The loop of the transaction: `none` if the index on domains refuses a host.
  unfoldable pub import_hosts : List Host → Store → Option Store
  unfolding copied_host
  import_hosts [] s = some s
  import_hosts (host ∷ hosts) s =
      let rest = import_hosts hosts (insert_copy host s) in
      if domain_taken s.hosts host.domain then none else rest

  unfoldable pub import_all : Run → List Host → Store → Outcome
  unfolding apply_config import_hosts validate_import first_error
  import_all run hosts s = elim (each (validate_import net) hosts) [
    | some e ↦ (s, some (invalid e))
    | none ↦ (elim (import_hosts hosts (record s { hosts = [] })) [
      | none ↦ (s, some import_failed)
      | some s' ↦ apply_config lib log_dir run s'
    ])
  ]
