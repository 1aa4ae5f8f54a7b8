-- ===== src/Plugin/Manager/Guard.antt =====
-- The guard blocks the plugins that the table has off.
use webcasa.Base.{
  String, Bool, true, false, not, ◌&&◌, ◌≡◌, ◌≢◌, none, some, List, [], ◌∷◌, arith, eq_iff, eq_refl,
  ◌=s◌, Any, All, subst, Bool-cases, inl, inr, if◌then◌else◌,
}
use webcasa.Plugin.Manager.Closure.{Supported, IsClosed}
use webcasa.Plugin.Topo.{Meta, find_plugin}
use webcasa.Plugin.Manager.{
  Manager, write_failed, is_enabled, set_state, set_sidebar_visible, enable, disable, dependent,
  guard_blocks, extract_plugin_id,
}

-- The in-memory map and the table say the same of a plugin.
abbrev pub InStep : Manager → String → Type 0
InStep m j = m.disabled j ≡ not (is_enabled m j)

-- `Enable` and `Disable`, with writes that succeed, keep the two in step for every plugin, on every
-- branch.
guard-InStep :
    (m : Manager) (range_order : List Meta) (id j : String) (call_ok : Bool)
    → InStep m j
    → InStep (enable m id true call_ok).0 j × InStep (disable m range_order id true call_ok).0 j
unfolding enable disable is_enabled set_state
guard-InStep m range_order id j call_ok h =
    (ground (arith, eq_iff id j), ground (arith, eq_iff id j))

guard_at :
    (m : Manager) (path : String)
    → InStep m (extract_plugin_id path)
    → guard_blocks m path
      ≡ (not (extract_plugin_id path =s "") && not (is_enabled m (extract_plugin_id path)))
unfolding guard_blocks
guard_at m path h = rw h

-- Where the map and the table are in step for the plugin that a request's path names, they still
-- are after any `Enable` or `Disable` whose write succeeds: the guard then blocks the request
-- exactly when the path names a plugin and the table has that plugin off.
pub guard_exact :
    (m : Manager) (range_order : List Meta) (id path : String) (call_ok : Bool)
    → InStep m (extract_plugin_id path)
    → let on = (enable m id true call_ok).0 in
      let off = (disable m range_order id true call_ok).0 in
      let j = extract_plugin_id path in
      (guard_blocks on path ≡ (not (j =s "") && not (is_enabled on j)))
      × (guard_blocks off path ≡ (not (j =s "") && not (is_enabled off j)))
guard_exact m range_order id path call_ok h =
    let (on, off) = guard-InStep m range_order id (extract_plugin_id path) call_ok h in
    (
      guard_at (enable m id true call_ok).0 path on,
      guard_at (disable m range_order id true call_ok).0 path off,
    )

-- When the write of a `Disable` of an enabled plugin, on which no enabled plugin depends, fails,
-- the plugin is left blocked while the table has it on, and `Enable` then reports success and
-- changes nothing.
pub disable_stuck :
    (m : Manager) (range_order : List Meta) (id : String) (p : Meta) (stop_ok start_ok : Bool)
    → find_plugin m.plugins id ≡ some p
    → is_enabled m id ≡ true
    → dependent m id range_order ≡ none
    → let m' = (disable m range_order id false stop_ok).0 in
      ((disable m range_order id false stop_ok).1 ≡ some write_failed)
      × (is_enabled m' id ≡ true)
      × (enable m' id true start_ok ≡ (m', none))
      × (m'.disabled id ≡ true)
unfolding enable disable is_enabled
disable_stuck m range_order id p stop_ok start_ok f on nobody =
    (ground arith, ground arith, ground arith, ground (arith, eq_refl id))

is_enabled-set_sidebar_visible :
    (m : Manager) (id j : String) (p : Meta) (visible : Bool)
    → find_plugin m.plugins id ≡ some p
    → m.states id ≡ none
    → is_enabled (set_sidebar_visible m id visible true).0 j
      ≡ (if id =s j then true else is_enabled m j)
unfolding is_enabled set_sidebar_visible
is_enabled-set_sidebar_visible m id j p visible f e = ground (arith, eq_iff id j)

at-Any :
    (P : String → Type 0) (x : String) (xs : List String) → All P xs → Any (λ y. y ≡ x) xs → P x
at-Any P x [] h a = absurd a
at-Any P x (y ∷ ys) (h, hs) (inl e) = subst P e h
at-Any P x (y ∷ ys) (h, hs) (inr a) = at-Any P x ys hs a

found-Supported :
    (m : Manager) (ps : List Meta) (id : String) (p : Meta)
    → find_plugin ps id ≡ some p
    → All (Supported m) ps
    → Supported m p × (p.id ≡ id)
unfolding find_plugin
found-Supported m [] id p f h = absurd (ground (arith, f))
found-Supported m (q ∷ qs) id p f (h, hs) = elim (Bool-cases (q.id =s id)) [
  | inl y ↦
      let same : q ≡ p = ground (arith, y) in
      (subst (Supported m) same h, rw (← same) ((eq_iff q.id id).0 y))
  | inr n ↦ found-Supported m qs id p (rw n at f) hs
]

-- Hiding or showing a plugin that has no row, and that depends on another plugin that is not enabled,
-- with a write that succeeds, leaves the plugins not closed: some enabled plugin has a dependency that
-- is not enabled.
pub set_sidebar_visible-Open :
    (m : Manager) (id dep : String) (p : Meta) (visible : Bool)
    → find_plugin m.plugins id ≡ some p
    → m.states id ≡ none
    → Any (λ d. d ≡ dep) p.dependencies
    → id ≢ dep
    → is_enabled m dep ≡ false
    → ¬ (IsClosed (set_sidebar_visible m id visible true).0)
set_sidebar_visible-Open m id dep p visible f e uses other off closed =
    let m' = (set_sidebar_visible m id visible true).0 in
    let kept : m'.plugins ≡ m.plugins = unfold set_sidebar_visible in ground arith in
    let found : find_plugin m'.plugins id ≡ some p = rw kept f in
    let (needs, same) = found-Supported m' m'.plugins id p found closed in
    let on : is_enabled m' p.id ≡ true =
      ground (arith, is_enabled-set_sidebar_visible m id p.id p visible f e, eq_iff id p.id) in
    let dep_on : is_enabled m' dep ≡ true =
      at-Any (λ d. is_enabled m' d ≡ true) dep p.dependencies (needs on) uses in
    absurd
      (ground (arith, is_enabled-set_sidebar_visible m id dep p visible f e, eq_iff id dep, dep_on))
