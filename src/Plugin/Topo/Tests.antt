-- ===== src/Plugin/Topo/Tests.antt =====
-- The load order of two plugins.
use webcasa.Base.{
  ℕ, ◌<◌, String, ◌≡◌, refl, List, [], ◌∷◌, arith, count, ◌=s◌, if◌then◌else◌, Bool-cases, inl, inr,
  eq_iff, subst,
}
use webcasa.Plugin.Topo.{
  ok, ids, topo_sort, build_graph, build_deps, ready, relax, search_order, known, find_plugin,
  check_order,
}
use webcasa.Plugin.Topo.Sample.{plugins, keys, plugins_distinct, keys_visited}
use webcasa.Plugin.Topo.Edges.{deps_of}
use webcasa.Plugin.Topo.Invariant.{DepsBefore}
use webcasa.Plugin.Topo.Order.{topo_sort_sound, topo_sort_complete}

abbrev order : List String
order = "base" ∷ "app" ∷ []

topo_sort_sound_example :
    DepsBefore (deps_of plugins) [] order × ((x : String) → count x order ≡ count x (ids plugins))
unfolding topo_sort build_graph build_deps ready relax search_order known find_plugin check_order
topo_sort_sound_example =
    topo_sort_sound plugins keys (λ key l. l) (λ key l x. refl) plugins_distinct keys_visited order
      refl

rank : String → ℕ
rank x = if "app" =s x then 1 else 0

ranked : (x d : String) → 0 < count d (deps_of plugins x) → rank d < rank x
unfolding rank deps_of count
ranked x d h = elim (Bool-cases ("app" =s x)) [
  | inr other ↦ absurd (ground arith)
  | inl own ↦ elim (Bool-cases ("base" =s d)) [
    | inr other ↦ absurd (ground arith)
    | inl dep ↦ subst (λ z. rank z < rank x) ((eq_iff "base" d).0 dep) (ground arith)
  ]
]

topo_sort_complete_example :
    (order : List String) × (topo_sort (λ key l. l) plugins keys ≡ ok order)
unfolding known find_plugin
topo_sort_complete_example =
    topo_sort_complete plugins keys (λ key l. l) (λ key l x. refl) plugins_distinct keys_visited
      rank ((refl, tt), (tt, tt)) ranked
