-- ===== src/Plugin/Manager/Boot.antt =====
-- Starting up and shutting down: `InitAll`, `StartAll` and `StopAll` in the load order.
use mathlib.Core.List.{reverse, reverse-cons}
use webcasa.Base.{
  ℕ, ◌<◌, String, Bool, true, false, not, ◌&&◌, ◌||◌, ◌≡◌, refl, sym, none, List, [], ◌∷◌, arith,
  eq_iff, ◌=s◌, Bool-cases, inl, inr, count, ltb, All, All-append, ap, ◌≤◌,
}
use webcasa.Plugin.Topo.{Meta, ids, topo_sort}
use webcasa.Plugin.Topo.Edges.{deps_of, Result-cases}
use webcasa.Plugin.Topo.Invariant.{DepsBefore}
use webcasa.Plugin.Topo.Order.{topo_sort_sound, All-intro, All-count}
use webcasa.Plugin.Manager.{
  Manager, is_enabled, init_plugins, init_all, seed_default_states, start_loop, start_all,
  stop_loop, stop_all, set_disabled,
}
use webcasa.Plugin.Manager.Closure.{Supported, IsClosed}
use webcasa.Plugin.Manager.Guard.{InStep}

Supported-deps :
    (m : Manager) (ps : List Meta) (x : String)
    → All (Supported m) ps
    → is_enabled m x ≡ true
    → All (λ d. is_enabled m d ≡ true) (deps_of ps x)
unfolding deps_of
Supported-deps m [] x h on = tt
Supported-deps m (p ∷ ps) x h on = elim (Bool-cases (p.id =s x)) [
  | inl y ↦
      let e = (eq_iff p.id x).0 y in
      rw y (
        All-append (λ d. is_enabled m d ≡ true) p.dependencies (deps_of ps x)
          (h.0 (rw e on), Supported-deps m ps x h.1 on))
  | inr n ↦ rw n (Supported-deps m ps x h.1 on)
]

start_loop_before :
    (m : Manager) (start_ok : String → Bool) (order seen seen' : List String)
    → IsClosed m
    → ((d : String) → 0 < count d seen → is_enabled m d ≡ true → 0 < count d seen')
    → DepsBefore (deps_of m.plugins) seen order
    → DepsBefore (deps_of m.plugins) seen' (start_loop m start_ok order).0
unfolding start_loop count
start_loop_before m start_ok [] seen seen' closed sub b = tt
start_loop_before m start_ok (id ∷ rest) seen seen' closed sub b =
    elim (Bool-cases (is_enabled m id)) [
      | inr off ↦ rw off (
          start_loop_before m start_ok rest (id ∷ seen) seen' closed
            (λ d h on. elim (Bool-cases (id =s d)) [
              | inl same ↦ absurd (ground (arith, ap (is_enabled m) ((eq_iff id d).0 same)))
              | inr other ↦ sub d (ground arith) on
            ])
            b.1)
      | inl on ↦ elim (Bool-cases (start_ok id)) [
        | inr failed ↦ rw (on, failed) tt
        | inl done ↦
            rw (on, done)
              (
                All-intro (λ d. 0 < count d seen') (deps_of m.plugins id)
                    (λ d h.
                      sub d (All-count (λ t. 0 < count t seen) (deps_of m.plugins id) d b.0 h) (
                        All-count (λ t. is_enabled m t ≡ true) (deps_of m.plugins id) d
                          (Supported-deps m m.plugins id closed on) h)),
                start_loop_before m start_ok rest (id ∷ seen) (id ∷ seen') closed
                    (λ d h e. elim (Bool-cases (id =s d)) [
                      | inl same ↦ ground arith
                      | inr other ↦ ground (arith, sub d)
                    ])
                    b.1,
              )
      ]
    ]

-- With a load order that respects the dependencies, and every enabled plugin supported, `StartAll`
-- starts each plugin after all those that it depends on, also when a start fails on the way.
pub start_all_before :
    (m : Manager) (start_ok : String → Bool)
    → IsClosed m
    → DepsBefore (deps_of m.plugins) [] m.order
    → DepsBefore (deps_of m.plugins) [] (start_all m start_ok).0
unfolding start_all
start_all_before m start_ok closed b =
    start_loop_before m start_ok m.order [] [] closed (λ d h on. h) b

start_loop-stop_loop :
    (m : Manager) (order : List String)
    → stop_loop m order ≡ reverse (start_loop m (λ id. true) order).0
unfolding start_loop stop_loop
start_loop-stop_loop m [] = refl
start_loop-stop_loop m (id ∷ rest) = elim (Bool-cases (is_enabled m id)) [
  | inl on ↦
      rw (on, start_loop-stop_loop m rest) (sym (reverse-cons id (start_loop m (λ j. true) rest).0))
  | inr off ↦ rw (off, start_loop-stop_loop m rest)
]

-- `StopAll` calls `Stop` on the plugins that a `StartAll` without failures starts, in the opposite
-- order.
pub stop_all_reverses : (m : Manager) → stop_all m ≡ reverse (start_all m (λ id. true)).0
unfolding stop_all start_all
stop_all_reverses m = start_loop-stop_loop m m.order

same_enabled :
    (m m' : Manager) (j : String) → m.states ≡ m'.states → is_enabled m j ≡ is_enabled m' j
unfolding is_enabled
same_enabled m m' j h = rw h

seed_disabled :
    (m : Manager) (fresh : Bool) (created : String → Bool)
    → (seed_default_states m fresh created).disabled ≡ m.disabled
unfolding seed_default_states
seed_disabled m true created = refl
seed_disabled m false created = refl

init_plugins-on :
    (m : Manager) (init_ok : String → Bool) (id : String) (rest : List String)
    → is_enabled m id ≡ true
    → (init_plugins m init_ok (id ∷ rest)).1 ≡ none
    → init_plugins m init_ok (id ∷ rest) ≡ init_plugins m init_ok rest
unfolding init_plugins
init_plugins-on m init_ok id rest on h = ground arith

init_plugins-off :
    (m : Manager) (init_ok : String → Bool) (id : String) (rest : List String)
    → is_enabled m id ≡ false
    → init_plugins m init_ok (id ∷ rest) ≡ init_plugins (set_disabled m id true) init_ok rest
unfolding init_plugins
init_plugins-off m init_ok id rest off = ground arith

init_plugins_effect :
    (m : Manager) (init_ok : String → Bool) (order : List String) (j : String)
    → (init_plugins m init_ok order).1 ≡ none
    → ((init_plugins m init_ok order).0.states ≡ m.states)
      × ((init_plugins m init_ok order).0.disabled j
          ≡ (m.disabled j || (ltb 0 (count j order) && not (is_enabled m j))))
unfolding count
init_plugins_effect m init_ok [] j h = unfold init_plugins in (refl, ground arith)
init_plugins_effect m init_ok (id ∷ rest) j h = elim (Bool-cases (is_enabled m id)) [
  | inl on ↦
      let e = init_plugins-on m init_ok id rest on h in
      let ih = init_plugins_effect m init_ok rest j (rw e at h) in
      rw e (ih.0, ground (arith, ih.1, eq_iff id j, on))
  | inr off ↦
      let e = init_plugins-off m init_ok id rest off in
      let ih = init_plugins_effect (set_disabled m id true) init_ok rest j (rw e at h) in
      rw e (
        ih.0,
        ground (arith, ih.1, eq_iff id j, off, same_enabled m (set_disabled m id true) j refl),
      )
]

-- After an `InitAll` that succeeds, from an empty map, with distinct ids, ranges that visit each
-- of them once and a sort that permutes, the guard and the table are in step for every registered
-- plugin, whichever of the default rows could be created.
pub init_all-InStep :
    (sort : (String → ℕ) → List String → List String) (m : Manager) (keys : List String)
    (fresh : Bool) (created init_ok : String → Bool)
    → ((key : String → ℕ) (l : List String) (x : String) → count x (sort key l) ≡ count x l)
    → ((x : String) → count x (ids m.plugins) ≤ 1)
    → ((x : String) → count x keys ≡ count x (ids m.plugins))
    → ((x : String) → m.disabled x ≡ false)
    → (init_all sort m keys fresh created init_ok).1 ≡ none
    → (j : String) → 0 < count j (ids m.plugins)
    → InStep (init_all sort m keys fresh created init_ok).0 j
unfolding init_all
init_all-InStep sort m keys fresh created init_ok keeps distinct visited empty h j registered =
    elim (Result-cases (topo_sort sort m.plugins keys)) [
      | inr (bad, e) ↦ absurd (ground arith)
      | inl (order, e) ↦
          let counts = (topo_sort_sound m.plugins keys sort keeps distinct visited order e).1 j in
          let m1 = seed_default_states (record m { order = order }) fresh created in
          let run : init_all sort m keys fresh created init_ok ≡ init_plugins m1 init_ok order =
            rw e in
          let done = init_plugins_effect m1 init_ok order j (rw run at h) in
          rw run (
            let now = same_enabled (init_plugins m1 init_ok order).0 m1 j done.0 in
            ground (
              arith,
              done.1,
              counts,
              empty j,
              seed_disabled (record m { order = order }) fresh created,
              now,
            ))
    ]
