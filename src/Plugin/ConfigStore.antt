-- ===== src/Plugin/ConfigStore.antt =====
-- internal/plugin/configstore.go: the configuration of a plugin, in the settings table that all of them
-- share. The table is read by key. `Set` is gorm's `Assign(...).FirstOrCreate`, of which `assign` is the
-- value that a row has after it, from the value before and the new one.
pub mod Refinement
mod Tests
use Prim.Native.String.{◌++◌ as ◌<>◌}
use webcasa.Base.{String, Bool, true, false, Option, none, some, ◌=s◌, if◌then◌else◌}

abbrev pub Settings : Type 0
Settings = String → Option String

-- The prefix of a store, and the key of its row.
unfoldable pub new_config_store : String → String
new_config_store id = "plugin." <> (id <> ".")

unfoldable pub full_key : String → String → String
unfolding new_config_store
full_key id key = new_config_store id <> key

-- The empty text stands for a missing row.
abbrev pub value_of : Option String → String
value_of none = ""
value_of (some value) = value

unfoldable pub get : String → String → Settings → String
unfolding full_key
get id key s = value_of (s (full_key id key))

module _ (assign : String → String → String) where
  abbrev pub upserted : Option String → String → String
  upserted none value = value
  upserted (some old) value = assign old value

  -- The table afterwards, and whether the write succeeds.
  unfoldable pub set : Bool → String → String → String → Settings → Settings × Bool
  unfolding full_key
  set db_ok id key value s = (
    (λ k.
        if db_ok then (if k =s full_key id key then some (upserted (s k) value) else s k) else s k),
    db_ok,
  )

unfoldable pub delete : Bool → String → String → Settings → Settings × Bool
unfolding full_key
delete db_ok id key s =
    ((λ k. if db_ok then (if k =s full_key id key then none else s k) else s k), db_ok)
