-- ===== src/Lib.antt =====
-- Verification of WebCasa, a web panel for servers.
--
-- The parts that decide who gets in, what runs and what the web server is told are modelled:
--   * Auth: the rate limiter (Auth/RateLimit, internal/auth/ratelimit.go), the role gates (Auth/Rbac,
--     internal/auth/rbac.go), the middleware for sessions and API tokens (Auth/Token,
--     internal/auth/auth.go), the second factor (Auth/Totp, internal/service/totp.go), the proof of work
--     that is redeemed once (Auth/Altcha, internal/auth/altcha.go), and the login handler that uses
--     them (Auth/Login, internal/handler/auth.go), from a request that is bound on.
--   * Plugin: the load order (Plugin/Topo, `topoSort`) and the life cycle with its guard
--     (Plugin/Manager), both of internal/plugin/manager.go, and the configuration of plugins
--     (Plugin/ConfigStore, internal/plugin/configstore.go).
--   * Firewall: the rules of plugins/firewall/service.go.
--   * Cronjob: the table and the scheduler of plugins/cronjob/service.go, and Cronjob/Execute, the
--     guard and the attempts of one execution.
--   * Monitoring: the evaluation of alert rules, plugins/monitoring/alerter.go.
--   * Php: the size of a PHP-FPM pool, plugins/php/tuning.go.
--   * Caddy: the rows of a host (internal/model/model.go), the checks of internal/caddy/validate.go
--     (Caddy/Validate) and the renderer, internal/caddy/renderer.go (Caddy/Render, with Render/Dns and
--     Render/Site). Caddy/Braces reads a Caddyfile character by character and keeps the depth of its
--     blocks; Caddy/Directives, Lines, Sanitized, Fragments and Blocks compare the two.
--   * Hosts: the service of internal/service/host.go: its checks (Hosts/Checks), the rows it builds
--     (Hosts/Build), `ApplyConfig` with `WriteCaddyfile` of internal/caddy/manager.go (Hosts/Config), its
--     operations (Hosts/Ops) and their sequences (Hosts/Commands). The other files hold their proofs.
--   * Notify: the targets of webhooks, internal/notify/ssrf.go.
-- Base holds Boolean tests, lists over native numbers, Go's signed integers and functions on text.
-- The login handler calls `Check`, `RecordFail` and `RecordSuccess` of the limiter, `ValidateLogin` of
-- the second factor and `VerifyAltchaSolution` by the functions that model them; `InitAll` calls `topoSort`;
-- the operations on hosts call the validators and, by `ApplyConfig`, the renderer.
--
-- Each operation is a function from the state before to the state after and its error or reply, named
-- as in the source in this language's spelling. A table of the database is a function from keys, that of the hosts a list;
-- whether a write succeeds is an argument, as are the clock and whatever a third-party library
-- answers (JWT, bcrypt, AES-GCM, JSON, `firewall-cmd`, the parser of cron expressions, `sort.Slice`),
-- and the arithmetic of floats.
-- Ranges over Go maps visit the keys in an order that is an argument too. The clock is read once in
-- each critical section. Loops are recursion on what they range over; only the search of `topoSort`
-- runs on fuel, which is the number of plugins, and `topo_sort_complete` shows that it is enough. The
-- delay of the limiter wraps at 64 bits as `time.Duration` does; other counters stay far below.
--
-- A host holds the rows of its associations, and the keys of its tags stand for the tags; the texts of
-- the renderer are strings, and the functions that write to a builder return what they write. In the
-- reading of a Caddyfile only a whole line is a comment, and quotes are not read. The backups of the
-- Caddyfile and the debouncing of reloads are left out. The rows of a copy or an import that have the zero
-- value get the default of their column. The table of plugin states can be read throughout.
--
-- Not modelled: routing and JSON replies, logging, locks (each operation is one step), the plugins
-- that drive containers, databases, backups, deployments and language models, and the front end.
pub mod Base
pub mod Auth
pub mod Plugin
pub mod Firewall
pub mod Cronjob
pub mod Php
pub mod Monitoring
pub mod Caddy
pub mod Hosts
pub mod Notify
