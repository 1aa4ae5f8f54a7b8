-- ===== src/Hosts/Config.antt =====
-- internal/service/host.go (`ApplyConfig`) and internal/caddy/manager.go (`WriteCaddyfile`). What the file
-- system and the `caddy` process do in one call is a `Run`; the backups of the file are left out.
use webcasa.Base.{
  ℕ, zero, suc, String, Bool, true, false, not, ◌&&◌, Option, none, some, map, ◌=s◌, if◌then◌else◌,
}
use webcasa.Caddy.{Host}
use webcasa.Caddy.Render.{RenderLib}
use webcasa.Caddy.Render.Site.{render_caddyfile}
use webcasa.Hosts.{Store, Certificate, write_failed, reload_failed, Outcome}

-- One call of `WriteCaddyfile`: whether the temporary file is written, the binary is found, it accepts
-- the file, and the file is renamed.
pub record WriteRun : Type 0 where
  pub temp_written : Bool
  pub has_binary : Bool
  pub validates : String → Bool
  pub renamed : Bool

-- The writing of the new file and of the old one, and what `caddy` does.
pub record Run : Type 0 where
  pub writes : WriteRun
  pub restores : WriteRun
  pub is_running : Bool
  pub reloads : Bool
  pub now : String

-- The file afterwards, and whether the call succeeds.
unfoldable pub write_caddyfile : WriteRun → String → Option String → Option String × Bool
write_caddyfile run content file =
    if not run.temp_written
    then (file, false)
    else if run.has_binary && not (run.validates content)
    then (file, false)
    else if not run.renamed
    then (file, false)
    else (some content, true)

-- `GetCaddyfileContent`, whose error is not read.
abbrev pub content_of : Option String → String
content_of none = ""
content_of (some text) = text

-- A certificate of the store takes the place of the host's own paths.
abbrev pub with_certificate : Host → Option Certificate → Host
with_certificate host none = host
with_certificate host (some c) = record host {
  custom_cert_path = c.cert_path;
  custom_key_path = c.key_path;
}

unfoldable pub resolve_certificate : (ℕ → Option Certificate) → Host → Host
resolve_certificate certificates host = elim host.certificate_id [
  | none ↦ host
  | some zero ↦ host
  | some (suc n) ↦ with_certificate host (certificates (suc n))
]

-- Without the setting, or if it is "true".
abbrev pub reloads_by_itself : Option String → Bool
reloads_by_itself none = true
reloads_by_itself (some value) = value =s "true"

module _ (lib : RenderLib) (log_dir : String) where
  unfoldable pub rendered : Run → Store → String
  unfolding resolve_certificate
  rendered run s =
      render_caddyfile lib log_dir s.providers run.now
        (map (resolve_certificate s.certificates) s.hosts)

  -- After a write: the reload, and the old file again if it fails. Starting `caddy` cannot fail the call.
  unfoldable pub reload_config : Run → String → Store → Outcome
  unfolding write_caddyfile
  reload_config run old s =
      if reloads_by_itself s.auto_reload && run.is_running && not run.reloads
      then (
        record s {
          caddyfile =
              if old =s "" then s.caddyfile else (write_caddyfile run.restores old s.caddyfile).0;
        },
        some reload_failed,
      )
      else (s, none)

  abbrev pub after_write : Run → Store → Option String × Bool → Outcome
  after_write run s (file, true) =
      reload_config run (content_of s.caddyfile) (record s { caddyfile = file })
  after_write run s (file, false) = (record s { caddyfile = file }, some write_failed)

  unfoldable pub apply_config : Run → Store → Outcome
  unfolding rendered reload_config write_caddyfile
  apply_config run s = after_write run s (write_caddyfile run.writes (rendered run s) s.caddyfile)
