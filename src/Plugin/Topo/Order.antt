-- ===== src/Plugin/Topo/Order.antt =====
-- `topoSort` is right when it returns an order, and returns one whenever there is one.
use webcasa.Base.{
  ℕ, zero, suc, ◌≤◌, ◌<◌, String, true, ◌≡◌, refl, List, [], ◌∷◌, ◌++◌, arith, eq_iff, eq_refl,
  ◌=s◌, ◌==◌, if◌then◌else◌, count, ltb, Bool-cases, inl, inr, length, All, some, subst, ◌∙◌,
  length-append,
}
use webcasa.Plugin.Topo.{
  Meta, Graph, ok, err, circular, ready, relax, ids, known, search_order, priority, topo_sort,
  build_graph, empty_graph,
}
use webcasa.Plugin.Topo.Edges.{
  deps_of, graph_edges, AllKnown, build_graph_ok, known-ids, Result-cases, count-append,
}
use webcasa.Plugin.Topo.Invariant.{
  pending, pending-nil, pending_done, done_pending, DepsBefore, Inv, step_Inv, head_ready,
}

count-ready :
    (in_deg : String → ℕ) (keys : List String) (x : String)
    → count x (ready in_deg keys) ≡ (if in_deg x == 0 then count x keys else 0)
unfolding ready count
count-ready in_deg [] x = ground arith
count-ready in_deg (k ∷ keys) x =
    let ih = count-ready in_deg keys x in
    elim (Bool-cases (k =s x)) [
      | inl same ↦ rw ((eq_iff k x).0 same) (ground (arith, ih))
      | inr other ↦ ground (arith, ih)
    ]

length-ids : (ps : List Meta) → length (ids ps) ≡ length ps
unfolding ids
length-ids [] = refl
length-ids (p ∷ ps) = omega (arith, length-ids ps)

pub All-count :
    (P : String → Type 0) (ds : List String) (x : String) → All P ds → 0 < count x ds → P x
unfolding count
All-count P [] x h lt = absurd (omega arith)
All-count P (d ∷ ds) x h lt = elim (Bool-cases (d =s x)) [
  | inl same ↦ subst P ((eq_iff d x).0 same) h.0
  | inr other ↦ All-count P ds x h.1 (ground arith)
]

pub All-intro :
    (P : String → Type 0) (ds : List String) → ((x : String) → 0 < count x ds → P x) → All P ds
unfolding count
All-intro P [] f = tt
All-intro P (d ∷ ds) f =
    (f d (ground (arith, eq_refl d)), All-intro P ds (λ x h. f x (omega arith)))

deps_known :
    (all ps : List Meta) (x d : String)
    → AllKnown all ps
    → 0 < count d (deps_of ps x)
    → 0 < count d (ids all)
unfolding deps_of
deps_known all [] x d h lt = unfold count in absurd (omega arith)
deps_known all (p ∷ ps) x d h lt = elim (Bool-cases (p.id =s x)) [
  | inl y ↦
      let both = count-append d p.dependencies (deps_of ps x) in
      elim (Bool-cases (ltb 0 (count d p.dependencies))) [
        | inl here ↦
            let k = All-count (λ d. known all d ≡ true) p.dependencies d h.0 (ground arith) in
            ground (arith, known-ids all d, k)
        | inr there ↦
            let total : 0 < count d (p.dependencies ++ deps_of ps x) = rw y at lt in
            deps_known all ps x d h.1 (ground (arith, both))
      ]
  | inr n ↦ deps_known all ps x d h.1 (rw n at lt)
]

module _ (ps : List Meta) (keys : List String) (sort : (String → ℕ) → List String → List String)
    (keeps : (key : String → ℕ) (l : List String) (x : String) → count x (sort key l) ≡ count x l)
    (distinct : (x : String) → count x (ids ps) ≤ 1)
    (visited : (x : String) → count x keys ≡ count x (ids ps)) where
  search_total :
      (adj : String → List String)
      (edges : (x d : String) → count x (adj d) ≡ count d (deps_of ps x)) (fuel : ℕ)
      (queue : List String) (in_deg : String → ℕ) (order : List String)
      → Inv ps queue in_deg order
      → pending order (ids ps) ≤ fuel
      → (in_deg' : String → ℕ) × (order' : List String) × (search_order sort ps adj fuel queue
            in_deg order
          ≡ some order')
        × Inv ps [] in_deg' order'
  unfolding search_order
  search_total adj edges fuel [] in_deg order i m = (in_deg, order, refl, i)
  search_total adj edges zero (cur ∷ queue) in_deg order i m =
      let head = head_ready ps adj edges distinct sort keeps cur queue in_deg order i in
      let done =
        All-count (λ d. 0 < count d order) (ids ps) cur (pending_done order (ids ps) (omega arith))
          (omega (arith, head.2)) in
      absurd (omega (arith, done, head.1))
  search_total adj edges (suc fuel) (cur ∷ queue) in_deg order i m =
      let i' = step_Inv ps adj edges distinct sort keeps cur queue in_deg order i in
      search_total adj edges fuel (sort (priority ps) (relax (adj cur) in_deg queue).1)
        (relax (adj cur) in_deg queue).0 (order ++ cur ∷ []) i'
        (omega (arith, i.measure, i'.measure, length-append order (cur ∷ [])))

  start_Inv :
      (g : Graph)
      → build_graph ps ps empty_graph ≡ ok g
      → Inv ps (sort (priority ps) (ready g.in_deg keys)) g.in_deg []
  start_Inv g h = record {
    degrees = λ x. omega (arith, (graph_edges ps g x x h).0, pending-nil (deps_of ps x));
    placed = λ x.
        unfold count in
        ground (
          arith,
          keeps (priority ps) (ready g.in_deg keys) x,
          count-ready g.in_deg keys x,
          visited x,
        );
    before = tt;
    measure = omega (arith, pending-nil (ids ps), length-ids ps);
  }

  -- The whole run, for the graph of the plugins.
  search_run :
      (g : Graph)
      → build_graph ps ps empty_graph ≡ ok g
      → (in_deg' : String → ℕ) × (order' : List String) × (search_order sort ps g.adj
            (length ps)
            (sort (priority ps) (ready g.in_deg keys))
            g.in_deg
            []
          ≡ some order')
        × Inv ps [] in_deg' order'
  search_run g h =
      search_total g.adj (λ x d. (graph_edges ps g x d h).1) (length ps)
        (sort (priority ps) (ready g.in_deg keys)) g.in_deg [] (start_Inv g h)
        (omega (arith, pending-nil (ids ps), length-ids ps))

  topo_sort-eq :
      (g : Graph) (order : List String)
      → build_graph ps ps empty_graph ≡ ok g
      → search_order sort ps g.adj
          (length ps)
          (sort (priority ps) (ready g.in_deg keys))
          g.in_deg
          []
        ≡ some order
      → topo_sort sort ps keys ≡ (if length order == length ps then ok order else err circular)
  unfolding topo_sort
  topo_sort-eq g order e run = rw e (rw run refl)

  -- At the end of the search, what no longer waits is in the order.
  all_placed :
      (in_deg : String → ℕ) (order : List String)
      → Inv ps [] in_deg order
      → (x : String) → pending order (deps_of ps x) ≡ 0
      → count x order ≡ count x (ids ps)
  all_placed in_deg order i x p = unfold count in ground (arith, i.placed x, i.degrees x)

  complete_order :
      (in_deg : String → ℕ) (order : List String)
      → Inv ps [] in_deg order
      → length order ≡ length ps
      → (x : String) → count x order ≡ count x (ids ps)
  complete_order in_deg order i full x =
      let all = pending_done order (ids ps) (omega (arith, i.measure)) in
      elim (Bool-cases (ltb 0 (count x (ids ps)))) [
        | inl y ↦
            let here = All-count (λ d. 0 < count d order) (ids ps) x all (ground arith) in
            unfold count in ground (arith, i.placed x, here)
        | inr n ↦ unfold count in ground (arith, i.placed x)
      ]

  ranked :
      (rank : String → ℕ)
      → AllKnown ps ps
      → ((x d : String) → 0 < count d (deps_of ps x) → rank d < rank x)
      → (in_deg : String → ℕ) (order : List String) → Inv ps [] in_deg order
      → (n : ℕ) (x : String) → rank x < n
      → 0 < count x (ids ps)
      → 0 < count x order
  ranked rank all_known acyclic in_deg order i zero x lt h = absurd (omega arith)
  ranked rank all_known acyclic in_deg order i (suc n) x lt h =
      let deps =
        All-intro (λ d. 0 < count d order) (deps_of ps x)
          (λ d k.
            ranked rank all_known acyclic in_deg order i n d (omega (arith, acyclic x d k))
              (deps_known ps ps x d all_known k)) in
      omega (arith, all_placed in_deg order i x (done_pending order (deps_of ps x) deps))

  -- Where the ids of the plugins are distinct, the ranges visit each of them once, and the sort
  -- permutes, an order that `topoSort` returns holds every plugin exactly once, each behind all
  -- the plugins that it depends on.
  pub topo_sort_sound :
      (order : List String)
      → topo_sort sort ps keys ≡ ok order
      → DepsBefore (deps_of ps) [] order × ((x : String) → count x order ≡ count x (ids ps))
  topo_sort_sound order h = elim (Result-cases (build_graph ps ps empty_graph)) [
    | inr (bad, e) ↦ absurd (unfold topo_sort in ground arith)
    | inl (g, e) ↦
        let (in_deg', order', run, i) = search_run g e in
        let eq = topo_sort-eq g order' e run in
        let full : length order' ≡ length ps = ground (arith, eq) in
        let same : order' ≡ order = ground (arith, eq) in
        (
          subst (DepsBefore (deps_of ps) []) same i.before,
          λ x. rw (← same) (complete_order in_deg' order' i full x),
        )
  ]

  -- Under the same conditions on ids, ranges and the sort, where every dependency is registered
  -- and there is no cycle, that is, where some ranking puts each plugin above those that it
  -- depends on, `topoSort` returns an order.
  pub topo_sort_complete :
      (rank : String → ℕ)
      → AllKnown ps ps
      → ((x d : String) → 0 < count d (deps_of ps x) → rank d < rank x)
      → (order : List String) × (topo_sort sort ps keys ≡ ok order)
  topo_sort_complete rank all_known acyclic =
      let (g, e) = build_graph_ok ps ps empty_graph all_known in
      let (in_deg', order', run, i) = search_run g e in
      let everyone =
        All-intro (λ x. 0 < count x order') (ids ps)
          (λ x h.
            ranked rank all_known acyclic in_deg' order' i (suc (rank x)) x (omega arith) h) in
      let full : length order' ≡ length ps =
        omega (arith, i.measure, done_pending order' (ids ps) everyone) in
      (order', topo_sort-eq g order' e run ∙ ground arith)
