-- ===== src/Plugin/Manager.antt =====
-- internal/plugin/manager.go: registration, the enabled state and its guard, starting and stopping.
-- The `plugin_states` table is a function from ids; `disabled` is the in-memory map that the guard
-- reads; `calls` records which plugins were started and stopped. Whether a write of the database or
-- a plugin's own `Init`, `Start` or `Stop` succeeds is an argument. The table can be read throughout;
-- the source takes a read that fails for a missing row.
pub mod Closure
pub mod Guard
pub mod Boot
mod Tests
use webcasa.Base.{
  ℕ, suc, String, Bool, true, false, not, ◌&&◌, Option, none, some, List, [], ◌∷◌, ◌++◌, ◌=s◌, ◌==◌,
  if◌then◌else◌, is_some, split, cut_prefix, contains,
}
use webcasa.Plugin.Topo.{Meta, TopoError, find_plugin, topo_sort, Result}
use webcasa.Plugin.Topo

pub record PluginState : Type 0 where
  pub enabled : Option Bool
  pub show_in_sidebar : Option Bool

pub data Call : Type 0 where
  started stopped : String → Call

pub record Manager : Type 0 where
  pub plugins : List Meta
  pub order : List String
  pub disabled : String → Bool
  pub states : String → Option PluginState
  pub calls : List Call

pub data ManagerError : Type 0 where
  empty_id write_failed : ManagerError
  already_registered not_found start_failed init_failed : String → ManagerError
  dependency_not_enabled : String → ManagerError
  depended_on_by : String → ManagerError
  dependency_resolution : TopoError → ManagerError

-- `nil` is `none`.
abbrev pub Error : Type 0
Error = Option ManagerError

-- `NewManager`, over a table.
pub new_manager : (String → Option PluginState) → Manager
new_manager states = record {
  plugins = [];
  order = [];
  disabled = λ j. false;
  states = states;
  calls = [];
}

-- `Register`.
unfoldable pub register : Manager → Meta → Manager × Error
register m p =
    if p.id =s ""
    then (m, some empty_id)
    else if is_some (find_plugin m.plugins p.id)
    then (m, some (already_registered p.id))
    else (record m { plugins = m.plugins ++ p ∷ [] }, none)

enabled_state : String → Option PluginState → Bool
enabled_state id none = id =s "ai"
enabled_state id (some s) = elim s.enabled [ none ↦ id =s "ai" | some b ↦ b ]

-- `isEnabled`: with no record, or none of the flag, only the AI plugin is on.
pub is_enabled : Manager → String → Bool
unfolding enabled_state
is_enabled m id = enabled_state id (m.states id)

visible_state : Option PluginState → Bool
visible_state none = true
visible_state (some s) = elim s.show_in_sidebar [ none ↦ true | some b ↦ b ]

-- `isSidebarVisible`.
pub is_sidebar_visible : Manager → String → Bool
unfolding visible_state
is_sidebar_visible m id = visible_state (m.states id)

abbrev pub put_state : Manager → String → PluginState → Manager
put_state m id s = record m { states = λ j. if id =s j then some s else m.states j }

with_enabled : Bool → Option PluginState → PluginState
with_enabled b none = record { enabled = some b; show_in_sidebar = some true }
with_enabled b (some s) = record s { enabled = some b }

-- `setState`: the row is updated, or created with the column defaults.
pub set_state : Manager → String → Bool → Manager
unfolding with_enabled
set_state m id b = put_state m id (with_enabled b (m.states id))

with_visible : Bool → Option PluginState → PluginState
with_visible b none = record { enabled = some true; show_in_sidebar = some b }
with_visible b (some s) = record s { show_in_sidebar = some b }

-- `SetSidebarVisible`: a row that it creates has the column defaults, and so is enabled.
unfoldable pub set_sidebar_visible : Manager → String → Bool → Bool → Manager × Error
unfolding with_visible
set_sidebar_visible m id visible db_ok =
    if is_some (find_plugin m.plugins id)
    then (if db_ok
        then (put_state m id (with_visible visible (m.states id)), none)
        else (m, some write_failed))
    else (m, some (not_found id))

abbrev pub set_disabled : Manager → String → Bool → Manager
set_disabled m id b = record m { disabled = λ j. if id =s j then b else m.disabled j }

-- The first dependency that is not enabled.
pub missing_dep : Manager → List String → Option String
missing_dep m [] = none
missing_dep m (dep ∷ deps) = if is_enabled m dep then missing_dep m deps else some dep

log_start : Manager → String → Bool → Manager
log_start m id start_ok = if start_ok then record m { calls = m.calls ++ started id ∷ [] } else m

enable_checked : Manager → String → Bool → Bool → Option String → Manager × Error
unfolding log_start
enable_checked m id db_ok start_ok (some dep) = (m, some (dependency_not_enabled dep))
enable_checked m id db_ok start_ok none =
    if db_ok
    then (log_start (set_disabled (set_state m id true) id false) id start_ok, none)
    else (m, some write_failed)

enable_plugin : Manager → String → Bool → Bool → Option Meta → Manager × Error
unfolding enable_checked
enable_plugin m id db_ok start_ok none = (m, some (not_found id))
enable_plugin m id db_ok start_ok (some p) =
    if is_enabled m id
    then (m, none)
    else enable_checked m id db_ok start_ok (missing_dep m p.dependencies)

-- `Enable`.
unfoldable pub enable : Manager → String → Bool → Bool → Manager × Error
unfolding enable_plugin
enable m id db_ok start_ok = enable_plugin m id db_ok start_ok (find_plugin m.plugins id)

-- An enabled plugin other than `id` that depends on it, the first in the order of the range.
pub dependent : Manager → String → List Meta → Option String
dependent m id [] = none
dependent m id (p ∷ ps) =
    let later = dependent m id ps in
    if not (p.id =s id) && is_enabled m p.id && contains p.dependencies id then some p.id else later

log_stop : Manager → String → Bool → Manager
log_stop m id stop_ok = if stop_ok then record m { calls = m.calls ++ stopped id ∷ [] } else m

disable_checked : Manager → String → Bool → Bool → Option String → Manager × Error
unfolding log_stop
disable_checked m id db_ok stop_ok (some other) = (m, some (depended_on_by other))
disable_checked m id db_ok stop_ok none =
    let m' = set_disabled (log_stop m id stop_ok) id true in
    if db_ok then (set_state m' id false, none) else (m', some write_failed)

-- `Disable`; `range_order` is the order in which the range visits the plugins.
unfoldable pub disable : Manager → List Meta → String → Bool → Bool → Manager × Error
unfolding disable_checked
disable m range_order id db_ok stop_ok =
    if is_some (find_plugin m.plugins id)
    then (if is_enabled m id
        then disable_checked m id db_ok stop_ok (dependent m id range_order)
        else (m, none))
    else (m, some (not_found id))

seed_rows :
    (String → Bool) → (String → Option PluginState) → List Meta → String → Option PluginState
seed_rows created states [] j = states j
seed_rows created states (p ∷ ps) j =
    let rest = seed_rows created states ps j in
    if p.id =s j && created j
    then some (record { enabled = some (j =s "ai"); show_in_sidebar = some true })
    else rest

-- `seedDefaultStates`; `fresh`: the count of rows is 0. Whether each row is created is not looked at.
pub seed_default_states : Manager → Bool → (String → Bool) → Manager
unfolding seed_rows
seed_default_states m fresh created =
    if fresh then record m { states = seed_rows created m.states m.plugins } else m

-- The loop of `InitAll` over the load order. A disabled plugin may fail to initialise.
pub init_plugins : Manager → (String → Bool) → List String → Manager × Error
init_plugins m init_ok [] = (m, none)
init_plugins m init_ok (id ∷ ids) =
    let on = is_enabled m id in
    let m' = if on then m else set_disabled m id true in
    let rest = init_plugins m' init_ok ids in
    if on && not (init_ok id) then (m', some (init_failed id)) else rest

init_order :
    Manager → Bool → (String → Bool) → (String → Bool) → Result (List String) → Manager × Error
init_order m fresh created init_ok (Topo.err e) = (m, some (dependency_resolution e))
init_order m fresh created init_ok (Topo.ok order) =
    init_plugins (seed_default_states (record m { order = order }) fresh created) init_ok order

-- `InitAll`, without the migration of the table and the making of directories.
unfoldable pub init_all :
    ((String → ℕ) → List String → List String)
    → Manager
    → List String
    → Bool
    → (String → Bool)
    → (String → Bool)
    → Manager × Error
unfolding init_order
init_all sort m keys fresh created init_ok =
    init_order m fresh created init_ok (topo_sort sort m.plugins keys)

-- The loop of `StartAll`: the ids started, and the one that failed.
pub start_loop : Manager → (String → Bool) → List String → List String × Error
start_loop m start_ok [] = ([], none)
start_loop m start_ok (id ∷ ids) =
    let (rest, e) = start_loop m start_ok ids in
    if not (is_enabled m id)
    then (rest, e)
    else if start_ok id
    then (id ∷ rest, e)
    else ([], some (start_failed id))

-- `StartAll`.
pub start_all : Manager → (String → Bool) → List String × Error
unfolding start_loop
start_all m start_ok = start_loop m start_ok m.order

-- The loop of `StopAll`, over indices from the last to the first: the ids whose `Stop` is called.
pub stop_loop : Manager → List String → List String
stop_loop m [] = []
stop_loop m (id ∷ ids) =
    let rest = stop_loop m ids in if is_enabled m id then rest ++ id ∷ [] else rest

-- `StopAll`.
pub stop_all : Manager → List String
unfolding stop_loop
stop_all m = stop_loop m m.order

-- `extractPluginID`, on the segments of the path.
pub plugin_segment : List String → String
plugin_segment [] = ""
plugin_segment (p ∷ []) = ""
plugin_segment (p ∷ q ∷ rest) = if p =s "plugins" then q else plugin_segment (q ∷ rest)

trim_slash : String → Option String → String
trim_slash path none = path
trim_slash path (some rest) = rest

unfoldable pub extract_plugin_id : String → String
unfolding plugin_segment trim_slash split cut_prefix
extract_plugin_id path = plugin_segment (split b'/' (trim_slash path (cut_prefix "/" path)))

-- `PluginGuardMiddleware`: whether the request is answered 404 instead of being passed on.
unfoldable pub guard_blocks : Manager → String → Bool
guard_blocks m path = let id = extract_plugin_id path in not (id =s "") && m.disabled id
