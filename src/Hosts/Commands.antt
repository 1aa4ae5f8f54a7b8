-- ===== src/Hosts/Commands.antt =====
-- Sequences of the operations of internal/service/host.go, in any order and whatever each of them answers.
use webcasa.Base.{ℕ, String, Option, List, [], ◌∷◌, All}
use webcasa.Caddy.{Host, Upstream}
use webcasa.Caddy.Validate.{NetLib}
use webcasa.Caddy.Braces.{Plain}
use webcasa.Caddy.Render.{RenderLib}
use webcasa.Caddy.Blocks.{RenderLaws}
use webcasa.Hosts.{HostCreateRequest, Store, Outcome}
use webcasa.Hosts.Config.{Run, apply_config}
use webcasa.Hosts.Rows.{PlainHashes}
use webcasa.Hosts.Sound.{Sound, PlainImport}
use webcasa.Hosts.Ops.{create, update, delete, toggle, update_cert_paths, clone_host, import_all}
use webcasa.Hosts.Invariant.{
  applied, create-Sound, update-Sound, delete-Sound, toggle-Sound, update_cert_paths-Sound,
  clone_host-Sound, import_all-Sound,
}

pub data Command : Type 0 where
  create_host : HostCreateRequest → Command
  update_host : ℕ → HostCreateRequest → Command
  delete_host toggle_host : ℕ → Command
  certify_host : ℕ → String → String → Command
  copy_host : ℕ → String → Command
  import_data : List Host → Command
  apply : Command

module _ (net : NetLib) (lib : RenderLib) (log_dir : String) (bcrypt : String → Option String)
    (by_order : List Upstream → List Upstream) where
  unfoldable pub step : Run → Command → Store → Outcome
  unfolding create update delete toggle update_cert_paths clone_host import_all apply_config
  step run (create_host req) s = create net lib log_dir bcrypt by_order run req s
  step run (update_host i req) s = update net lib log_dir bcrypt by_order run i req s
  step run (delete_host i) s = delete net lib log_dir bcrypt by_order run i s
  step run (toggle_host i) s = toggle net lib log_dir bcrypt by_order run i s
  step run (certify_host i cert key) s =
      update_cert_paths net lib log_dir bcrypt by_order run i cert key s
  step run (copy_host i domain) s = clone_host net lib log_dir bcrypt by_order run i domain s
  step run (import_data hosts) s = import_all net lib log_dir bcrypt by_order run hosts s
  step run apply s = apply_config lib log_dir run s

  -- Each command meets what its run does.
  unfoldable pub run_commands : List (Run × Command) → Store → Store
  unfolding step
  run_commands [] s = s
  run_commands ((run, c) ∷ rest) s = run_commands rest (step run c s).0

-- The values that the panel writes into the Caddyfile unchecked are plain: the paths of a certificate, and
-- the basic auths and paths of an import.
abbrev pub Trusted : Command → Type 0
Trusted (create_host req) = Unit
Trusted (update_host i req) = Unit
Trusted (delete_host i) = Unit
Trusted (toggle_host i) = Unit
Trusted (certify_host i cert key) = Plain cert × Plain key
Trusted (copy_host i domain) = Unit
Trusted (import_data hosts) = All PlainImport hosts
Trusted apply = Unit

module _ (net : NetLib) (lib : RenderLib) (log_dir : String) (bcrypt : String → Option String)
    (by_order : List Upstream → List Upstream) (laws : RenderLaws lib) (log_Plain : Plain log_dir)
    (hashes : PlainHashes bcrypt) where
  step-Sound :
      (run : Run) (c : Command) (s : Store)
      → Trusted c
      → Plain run.now
      → Sound net s
      → Sound net (step net lib log_dir bcrypt by_order run c s).0
  unfolding step
  step-Sound run (create_host req) s t now h =
      create-Sound net lib log_dir bcrypt by_order laws log_Plain run req s hashes now h
  step-Sound run (update_host i req) s t now h =
      update-Sound net lib log_dir bcrypt by_order laws log_Plain run i req s hashes now h
  step-Sound run (delete_host i) s t now h =
      delete-Sound net lib log_dir bcrypt by_order laws log_Plain run i s now h
  step-Sound run (toggle_host i) s t now h =
      toggle-Sound net lib log_dir bcrypt by_order laws log_Plain run i s now h
  step-Sound run (certify_host i cert key) s t now h =
      update_cert_paths-Sound net lib log_dir bcrypt by_order laws log_Plain run i cert key s t now
        h
  step-Sound run (copy_host i domain) s t now h =
      clone_host-Sound net lib log_dir bcrypt by_order laws log_Plain run i domain s now h
  step-Sound run (import_data hosts) s t now h =
      import_all-Sound net lib log_dir bcrypt by_order laws log_Plain run hosts s t now h
  step-Sound run apply s t now (h, k) =
      applied net lib log_dir bcrypt by_order laws log_Plain run s now k h

  -- Whatever commands are given to the panel, in whatever order and whichever of them fail, the store
  -- stays sound: its hosts are safe, the paths of its certificates are plain, and the Caddyfile on the
  -- disk closes exactly the blocks that it opens. It is taken that the hashes, the log directory and the
  -- times are plain, that the library keeps its laws, and that each command is trusted: the paths of
  -- certificates, and the basic auths and paths of an import, hold no line feed and no brace.
  pub run_commands-Sound :
      (commands : List (Run × Command)) (s : Store)
      → All (λ p. Trusted p.1 × Plain p.0.now) commands
      → Sound net s
      → Sound net (run_commands net lib log_dir bcrypt by_order commands s)
  unfolding run_commands
  run_commands-Sound [] s t h = h
  run_commands-Sound ((run, c) ∷ rest) s ((t, now), ts) h =
      run_commands-Sound rest (step net lib log_dir bcrypt by_order run c s).0 ts
        (step-Sound run c s t now h)
