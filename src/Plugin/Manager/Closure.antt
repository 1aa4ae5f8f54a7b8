-- ===== src/Plugin/Manager/Closure.antt =====
-- An enabled plugin has all its dependencies enabled, and the guard agrees with the table.
use webcasa.Base.{
  String, Bool, true, false, not, ◌&&◌, ◌≡◌, none, some, List, [], ◌∷◌, arith, eq_iff, ◌=s◌,
  if◌then◌else◌, contains, All, Bool-cases, Option-cases, inl, inr, ◌⊎◌, is_some, ◌∙◌, sym, All-map,
  All-map2, Any,
}
use webcasa.Plugin.Topo.{Meta, find_plugin}
use webcasa.Plugin.Manager.{Manager, is_enabled, missing_dep, set_state, enable, disable, dependent}

-- The states of two managers agree: the same plugins are enabled.
is_enabled-set_state :
    (m : Manager) (id j : String) (b : Bool)
    → is_enabled (set_state m id b) j ≡ (if id =s j then b else is_enabled m j)
unfolding is_enabled set_state
is_enabled-set_state m id j b = ground (arith, eq_iff id j)

-- What one plugin needs: if it is enabled, so are its dependencies.
abbrev pub Supported : Manager → Meta → Type 0
Supported m p = is_enabled m p.id ≡ true → All (λ d. is_enabled m d ≡ true) p.dependencies

abbrev pub IsClosed : Manager → Type 0
IsClosed m = All (Supported m) m.plugins

missing_dep-none :
    (m : Manager) (deps : List String)
    → missing_dep m deps ≡ none
    → All (λ d. is_enabled m d ≡ true) deps
unfolding missing_dep
missing_dep-none m [] h = tt
missing_dep-none m (d ∷ ds) h = (ground arith, missing_dep-none m ds (ground arith))

All-on :
    (m m' : Manager) (deps : List String)
    → ((j : String) → is_enabled m j ≡ true → is_enabled m' j ≡ true)
    → All (λ d. is_enabled m d ≡ true) deps
    → All (λ d. is_enabled m' d ≡ true) deps
All-on m m' [] f h = tt
All-on m m' (d ∷ ds) f h = (f d h.0, All-on m m' ds f h.1)

-- `find_plugin` finds each plugin under its id: no two have the same.
abbrev pub IsKeyed : Manager → Type 0
IsKeyed m = All (λ p. find_plugin m.plugins p.id ≡ some p) m.plugins

enable_effect :
    (m : Manager) (id : String) (db_ok start_ok : Bool)
    → ((enable m id db_ok start_ok).0.plugins ≡ m.plugins)
      × (((enable m id db_ok start_ok).0.states ≡ m.states)
          ⊎ ((p : Meta) × (find_plugin m.plugins id ≡ some p)
              × (missing_dep m p.dependencies ≡ none)
              × ((enable m id db_ok start_ok).0.states ≡ (set_state m id true).states)))
unfolding enable set_state
enable_effect m id db_ok start_ok = elim (Option-cases (find_plugin m.plugins id)) [
  | inl e ↦ (ground arith, inl (ground arith))
  | inr (p, e) ↦ elim (Option-cases (missing_dep m p.dependencies)) [
    | inr (dep, k) ↦ (ground arith, inl (ground arith))
    | inl k ↦ elim (Bool-cases (db_ok && not (is_enabled m id))) [
      | inl y ↦ (ground arith, inr (p, e, k, ground arith))
      | inr n ↦ (ground arith, inl (ground arith))
    ]
  ]
]

-- `isEnabled` reads the table only.
is_enabled_states :
    (m m' : Manager) (j : String) → m.states ≡ m'.states → is_enabled m j ≡ is_enabled m' j
unfolding is_enabled
is_enabled_states m m' j h = rw h

All-missing :
    (m m' : Manager) (id : String) (q : Meta)
    → m'.states ≡ (set_state m id true).states
    → (id ≡ q.id → All (λ d. is_enabled m d ≡ true) q.dependencies)
    → Supported m q
    → Supported m' q
All-missing m m' id q e own sup on =
    let now = λ (j : String).
      is_enabled_states m' (set_state m id true) j e ∙ is_enabled-set_state m id j true in
    All-on m m' q.dependencies (λ j h. ground (arith, now j))
      (elim (Bool-cases (id =s q.id)) [
        | inl y ↦ own ((eq_iff id q.id).0 y)
        | inr n ↦ sup (ground (arith, now q.id))
      ])

Supported-states :
    (m m' : Manager) (q : Meta) → m'.states ≡ m.states → Supported m q → Supported m' q
Supported-states m m' q e sup on =
    All-on m m' q.dependencies (λ j h. is_enabled_states m' m j e ∙ h)
      (sup (is_enabled_states m m' q.id (sym e) ∙ on))

-- Where each plugin is found by its id, `Enable` keeps every enabled plugin supported, that is,
-- with all its dependencies enabled, whether it succeeds, refuses or fails.
pub enable-IsClosed :
    (m : Manager) (id : String) (db_ok start_ok : Bool)
    → IsKeyed m
    → IsClosed m
    → IsClosed (enable m id db_ok start_ok).0
enable-IsClosed m id db_ok start_ok keyed closed =
    let (same, effect) = enable_effect m id db_ok start_ok in
    let m' = (enable m id db_ok start_ok).0 in
    rw same (elim effect [
      | inl e ↦
          All-map (Supported m) (Supported m') m.plugins (λ q. Supported-states m m' q e) closed
      | inr (p, found, none_missing, e) ↦
          All-map2 (λ q. find_plugin m.plugins q.id ≡ some q) (Supported m) (Supported m') m.plugins
            (λ q key sup.
              All-missing m m' id q e
                (λ same_id.
                  let e' : p ≡ q = ground (arith, found, key, same_id) in
                  rw (← e') (missing_dep-none m p.dependencies none_missing))
                sup)
            keyed closed
    ])

disable_effect :
    (m : Manager) (range_order : List Meta) (id : String) (db_ok stop_ok : Bool)
    → ((disable m range_order id db_ok stop_ok).0.plugins ≡ m.plugins)
      × (((disable m range_order id db_ok stop_ok).0.states ≡ m.states)
          ⊎ ((dependent m id range_order ≡ none)
              × ((disable m range_order id db_ok stop_ok).0.states
                  ≡ (set_state m id false).states)))
unfolding disable set_state
disable_effect m range_order id db_ok stop_ok = elim (Option-cases (dependent m id range_order)) [
  | inr (other, k) ↦ (ground arith, inl (ground arith))
  | inl k ↦ elim (Bool-cases (db_ok && is_some (find_plugin m.plugins id) && is_enabled m id)) [
    | inl y ↦ (ground arith, inr (k, ground arith))
    | inr n ↦ (ground arith, inl (ground arith))
  ]
]

-- The range visits every plugin.
abbrev pub Visits : List Meta → Manager → Type 0
Visits range_order m = All (λ q. Any (λ r. r ≡ q) range_order) m.plugins

needs_none :
    (m : Manager) (id : String) (range_order : List Meta) (q : Meta)
    → dependent m id range_order ≡ none
    → Any (λ r. r ≡ q) range_order
    → (not (q.id =s id) && is_enabled m q.id && contains q.dependencies id) ≡ false
unfolding dependent
needs_none m id [] q h v = absurd v
needs_none m id (r ∷ rs) q h (inl e) = rw (← e) (ground arith)
needs_none m id (r ∷ rs) q h (inr v) = needs_none m id rs q (ground arith) v

All-off :
    (m m' : Manager) (id : String) (deps : List String)
    → ((j : String) → is_enabled m' j ≡ (if id =s j then false else is_enabled m j))
    → contains deps id ≡ false
    → All (λ d. is_enabled m d ≡ true) deps
    → All (λ d. is_enabled m' d ≡ true) deps
unfolding contains
All-off m m' id [] f c h = tt
All-off m m' id (d ∷ ds) f c h =
    (ground (arith, f d, h.0, eq_iff id d, eq_iff d id), All-off m m' id ds f (ground arith) h.1)

-- `Disable` keeps every enabled plugin supported: nothing that an enabled plugin needs is turned
-- off, in whatever order the range visits all the plugins.
pub disable-IsClosed :
    (m : Manager) (range_order : List Meta) (id : String) (db_ok stop_ok : Bool)
    → Visits range_order m
    → IsClosed m
    → IsClosed (disable m range_order id db_ok stop_ok).0
disable-IsClosed m range_order id db_ok stop_ok visits closed =
    let (same, effect) = disable_effect m range_order id db_ok stop_ok in
    let m' = (disable m range_order id db_ok stop_ok).0 in
    rw same (elim effect [
      | inl e ↦
          All-map (Supported m) (Supported m') m.plugins (λ q. Supported-states m m' q e) closed
      | inr (nobody, e) ↦
          let now = λ (j : String).
            is_enabled_states m' (set_state m id false) j e ∙ is_enabled-set_state m id j false in
          All-map2 (λ q. Any (λ r. r ≡ q) range_order) (Supported m) (Supported m') m.plugins
            (λ q v sup on.
              let free = needs_none m id range_order q nobody v in
              All-off m m' id q.dependencies now
                (ground (arith, free, now q.id, on, eq_iff id q.id, eq_iff q.id id))
                (sup (ground (arith, now q.id, on))))
            visits closed
    ])
