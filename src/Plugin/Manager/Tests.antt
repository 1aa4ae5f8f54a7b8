-- ===== src/Plugin/Manager/Tests.antt =====
-- The manager with the two plugins of the sample.

use webcasa.Base.{
  String, true, false, not, ◌&&◌, ◌≡◌, refl, none, some, [], ◌∷◌, arith, count, ◌=s◌, if◌then◌else◌,
  inl, inr, contains, eq_iff,
}
use webcasa.Plugin.Topo.{
  find_plugin, ids, topo_sort, build_graph, build_deps, ready, relax, search_order, known,
  check_order,
}
use webcasa.Plugin.Topo.Sample.{app, base, plugins, keys, plugins_distinct, keys_visited}
use webcasa.Plugin.Topo.Edges.{deps_of}
use webcasa.Plugin.Topo.Invariant.{DepsBefore}
use webcasa.Plugin.Manager.{
  Manager, PluginState, write_failed, is_enabled, enabled_state, set_sidebar_visible, enable,
  disable, dependent, init_all, init_plugins, seed_default_states, start_all, extract_plugin_id,
  guard_blocks,
}
use webcasa.Plugin.Manager.Closure.{IsClosed, enable-IsClosed, disable-IsClosed}
use webcasa.Plugin.Manager.Guard.{InStep, guard_exact, disable_stuck, set_sidebar_visible-Open}
use webcasa.Plugin.Manager.Boot.{start_all_before, init_all-InStep}

abbrev on : PluginState
on = record { enabled = some true; show_in_sidebar = some true }

-- `base` is on and `app` is off.
abbrev manager : Manager
manager = record {
  plugins = plugins;
  order = "base" ∷ "app" ∷ [];
  disabled = λ j. not ("base" =s j);
  states = λ j. if "base" =s j then some on else none;
  calls = [];
}

closed : IsClosed manager
unfolding is_enabled enabled_state
closed = (λ h. absurd (ground arith), (λ h. tt, tt))

enable-IsClosed_example : IsClosed (enable manager "app" true true).0
unfolding find_plugin
enable-IsClosed_example = enable-IsClosed manager "app" true true (refl, (refl, tt)) closed

disable-IsClosed_example : IsClosed (disable manager plugins "base" true true).0
disable-IsClosed_example =
    disable-IsClosed manager plugins "base" true true (inl refl, (inr (inl refl), tt)) closed

abbrev path : String
path = "/api/plugins/app/items"

guard_exact_example :
    let on = (enable manager "app" true true).0 in
    let off = (disable manager plugins "app" true true).0 in
    let j = extract_plugin_id path in
    (guard_blocks on path ≡ (not (j =s "") && not (is_enabled on j)))
    × (guard_blocks off path ≡ (not (j =s "") && not (is_enabled off j)))
unfolding is_enabled enabled_state extract_plugin_id
guard_exact_example = guard_exact manager plugins "app" path true refl

disable_stuck_example :
    let m' = (disable manager plugins "base" false true).0 in
    ((disable manager plugins "base" false true).1 ≡ some write_failed)
    × (is_enabled m' "base" ≡ true)
    × (enable m' "base" true true ≡ (m', none))
    × (m'.disabled "base" ≡ true)
unfolding is_enabled enabled_state find_plugin dependent contains
disable_stuck_example = disable_stuck manager plugins "base" base true true refl refl refl

abbrev bare : Manager
bare = record {
  plugins = plugins;
  order = [];
  disabled = λ j. false;
  states = λ j. none;
  calls = [];
}

set_sidebar_visible-Open_example : ¬ (IsClosed (set_sidebar_visible bare "app" false true).0)
unfolding find_plugin is_enabled enabled_state
set_sidebar_visible-Open_example =
    set_sidebar_visible-Open bare "app" "base" app false refl refl (inl refl)
      (ground (arith, eq_iff "app" "base")) refl

start_all_before_example : DepsBefore (deps_of plugins) [] (start_all manager (λ id. true)).0
unfolding deps_of count
start_all_before_example =
    start_all_before manager (λ id. true) closed (tt, ((omega arith, tt), tt))

abbrev fresh_manager : Manager
fresh_manager = record {
  plugins = plugins;
  order = [];
  disabled = λ j. false;
  states = λ j. none;
  calls = [];
}

init_all-InStep_example :
    InStep (init_all (λ key l. l) fresh_manager keys true (λ id. true) (λ id. true)).0 "app"
unfolding init_all ids count init_plugins seed_default_states find_plugin is_enabled enabled_state
    topo_sort build_graph build_deps ready relax search_order known check_order
init_all-InStep_example =
    init_all-InStep (λ key l. l) fresh_manager keys true (λ id. true) (λ id. true) (λ key l x. refl)
      plugins_distinct keys_visited (λ x. refl) refl "app" (omega arith)
