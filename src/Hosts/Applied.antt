-- ===== src/Hosts/Applied.antt =====
-- What applying the configuration leaves: the hosts, and which Caddyfile.
use webcasa.Base.{
  String, Bool, true, false, not, ◌&&◌, ◌≡◌, ◌≢◌, refl, ◌∙◌, subst, ◌⊎◌, Option, none, some, ◌=s◌,
  arith, Bool-cases, inl, inr, eq_iff,
}
use webcasa.Caddy.Render.{RenderLib}
use webcasa.Hosts.{Store, write_failed, reload_failed}
use webcasa.Hosts.Config.{
  WriteRun, Run, write_caddyfile, content_of, reloads_by_itself, rendered, reload_config,
  after_write, apply_config,
}

module _ (lib : RenderLib) (log_dir : String) where
  reload_config-kept :
      (run : Run) (old : String) (s : Store)
      → ((reload_config lib log_dir run old s).0.hosts ≡ s.hosts)
        × ((reload_config lib log_dir run old s).0.certificates ≡ s.certificates)
        × ((reload_config lib log_dir run old s).0.next_host ≡ s.next_host)
  unfolding reload_config
  reload_config-kept run old s =
      elim (Bool-cases (reloads_by_itself s.auto_reload && run.is_running && not run.reloads)) [
        | inl e ↦ rw e (refl, refl, refl)
        | inr e ↦ rw e (refl, refl, refl)
      ]

  after_write-kept :
      (run : Run) (s : Store) (w : Option String × Bool)
      → ((after_write lib log_dir run s w).0.hosts ≡ s.hosts)
        × ((after_write lib log_dir run s w).0.certificates ≡ s.certificates)
        × ((after_write lib log_dir run s w).0.next_host ≡ s.next_host)
  after_write-kept run s (file, true) =
      reload_config-kept run (content_of s.caddyfile) (record s { caddyfile = file })
  after_write-kept run s (file, false) = (refl, refl, refl)

  -- Applying the configuration changes no host, no certificate and no key.
  pub apply_config-kept :
      (run : Run) (s : Store)
      → ((apply_config lib log_dir run s).0.hosts ≡ s.hosts)
        × ((apply_config lib log_dir run s).0.certificates ≡ s.certificates)
        × ((apply_config lib log_dir run s).0.next_host ≡ s.next_host)
  unfolding apply_config
  apply_config-kept run s =
      after_write-kept run s (write_caddyfile run.writes (rendered lib log_dir run s) s.caddyfile)

  -- A write leaves the content, or fails and leaves the file.
  write_caddyfile_lem :
      (run : WriteRun) (content : String) (file : Option String)
      → (write_caddyfile run content file ≡ (some content, true))
        ⊎ (write_caddyfile run content file ≡ (file, false))
  unfolding write_caddyfile
  write_caddyfile_lem run content file = elim (Bool-cases run.temp_written) [
    | inr e ↦ inr (rw e refl)
    | inl e ↦ elim (Bool-cases (run.has_binary && not (run.validates content))) [
      | inl e' ↦ inr (rw (e, e') refl)
      | inr e' ↦ elim (Bool-cases run.renamed) [
        | inl e'' ↦ inl (rw (e, e', e'') refl)
        | inr e'' ↦ inr (rw (e, e', e'') refl)
      ]
    ]
  ]

  reload_config-rollback :
      (run : Run) (old : String) (s : Store)
      → (reload_config lib log_dir run old s).1 ≢ none
      → (old =s "") ≡ false
      → write_caddyfile run.restores old s.caddyfile ≡ (some old, true)
      → (reload_config lib log_dir run old s).0.caddyfile ≡ some old
  unfolding reload_config
  reload_config-rollback run old s h n w =
      elim (Bool-cases (reloads_by_itself s.auto_reload && run.is_running && not run.reloads)) [
        | inl e ↦ rw (e, reload_config, n, w) refl
        | inr e ↦ absurd (h (rw (e, reload_config) refl))
      ]

  reload_config-none :
      (run : Run) (old : String) (s : Store)
      → (reload_config lib log_dir run old s).1 ≡ none
      → (reload_config lib log_dir run old s).0 ≡ s
  unfolding reload_config
  reload_config-none run old s h =
      elim (Bool-cases (reloads_by_itself s.auto_reload && run.is_running && not run.reloads)) [
        | inl e ↦
            let stop : some reload_failed ≡ none = rw (e, reload_config) at h in
            absurd (ground (arith, stop))
        | inr e ↦ rw (e, reload_config) refl
      ]

  -- If applying the configuration succeeds, the store is as before but for the file.
  pub apply_config-none :
      (run : Run) (s : Store)
      → (apply_config lib log_dir run s).1 ≡ none
      → (apply_config lib log_dir run s).0
        ≡ record s { caddyfile = some (rendered lib log_dir run s) }
  unfolding apply_config
  apply_config-none run s h =
      let t : Store = record s { caddyfile = some (rendered lib log_dir run s) } in
      elim (write_caddyfile_lem run.writes (rendered lib log_dir run s) s.caddyfile) [
        | inl e ↦
            let wrote : (reload_config lib log_dir run (content_of s.caddyfile) t).1 ≡ none =
              rw (e, apply_config) at h in
            rw (e, apply_config) (reload_config-none run (content_of s.caddyfile) t wrote)
        | inr e ↦
            let stop : some write_failed ≡ none = rw (e, apply_config) at h in
            absurd (ground (arith, stop))
      ]

  nonempty : (t : String) → t ≢ "" → (t =s "") ≡ false
  nonempty t n = elim (Bool-cases (t =s "")) [
    | inl y ↦ absurd (n (ground (arith, y, eq_iff t "")))
    | inr m ↦ m
  ]

  -- If applying the configuration fails, the file is what it was, where there was one and writing the
  -- old text succeeds.
  pub apply_config-rollback :
      (run : Run) (s : Store) (old : String)
      → (apply_config lib log_dir run s).1 ≢ none
      → s.caddyfile ≡ some old
      → old ≢ ""
      → ((file : Option String) → write_caddyfile run.restores old file ≡ (some old, true))
      → (apply_config lib log_dir run s).0.caddyfile ≡ some old
  unfolding apply_config
  apply_config-rollback run s old h e n w =
      elim (write_caddyfile_lem run.writes (rendered lib log_dir run s) s.caddyfile) [
        | inl o ↦
            let t : Store = record s { caddyfile = some (rendered lib log_dir run s) } in
            let failed : (reload_config lib log_dir run (content_of s.caddyfile) t).1 ≢ none =
              rw (o, apply_config) at h in
            let same : content_of s.caddyfile ≡ old = rw e refl in
            let failed' : (reload_config lib log_dir run old t).1 ≢ none =
              subst (λ c. (reload_config lib log_dir run c t).1 ≢ none) same failed in
            rw (o, apply_config, e)
              (reload_config-rollback run old t failed' (nonempty old n) (w t.caddyfile))
        | inr o ↦ rw (o, apply_config) e
      ]

  content-some :
      (file : Option String) → (content_of file =s "") ≡ false → some (content_of file) ≡ file
  content-some none e = absurd (ground (arith, e))
  content-some (some t) e = refl

  reload_config-file :
      (run : Run) (old : String) (s : Store)
      → ((reload_config lib log_dir run old s).0.caddyfile ≡ s.caddyfile)
        ⊎ (((reload_config lib log_dir run old s).0.caddyfile ≡ some old) × ((old =s "") ≡ false))
  unfolding reload_config
  reload_config-file run old s =
      elim (Bool-cases (reloads_by_itself s.auto_reload && run.is_running && not run.reloads)) [
        | inr e ↦ inl (rw (e, reload_config) refl)
        | inl e ↦ elim (Bool-cases (old =s "")) [
          | inl y ↦ inl (rw (e, reload_config, y) refl)
          | inr n ↦ elim (write_caddyfile_lem run.restores old s.caddyfile) [
            | inl w ↦ inr (rw (e, reload_config, n, w) (refl, refl))
            | inr w ↦ inl (rw (e, reload_config, n, w) refl)
          ]
        ]
      ]

  -- The file is what it was, or what the hosts render to.
  pub apply_config-file :
      (run : Run) (s : Store)
      → ((apply_config lib log_dir run s).0.caddyfile ≡ s.caddyfile)
        ⊎ ((apply_config lib log_dir run s).0.caddyfile ≡ some (rendered lib log_dir run s))
  unfolding apply_config
  apply_config-file run s =
      elim (write_caddyfile_lem run.writes (rendered lib log_dir run s) s.caddyfile) [
        | inr o ↦ inl (rw (o, apply_config) refl)
        | inl o ↦
            let t : Store = record s { caddyfile = some (rendered lib log_dir run s) } in
            elim (reload_config-file run (content_of s.caddyfile) t) [
              | inl e ↦ inr (rw (o, apply_config) e)
              | inr (e, n) ↦ inl (rw (o, apply_config) (e ∙ content-some s.caddyfile n))
            ]
      ]
