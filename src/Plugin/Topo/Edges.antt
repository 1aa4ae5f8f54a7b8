-- ===== src/Plugin/Topo/Edges.antt =====
-- The graph that `topoSort` builds holds each dependency once as an edge, as often as it is listed.

use webcasa.Base.{
  ◌+◌, String, true, ◌≡◌, refl, List, [], ◌∷◌, ◌++◌, arith, ◌=s◌, if◌then◌else◌, length,
  length-append, count, ltb, Bool-cases, inl, inr, All, ◌⊎◌,
}
use webcasa.Plugin.Topo.{
  Meta, TopoError, Result, ok, err, Graph, bump, append_at, known, build_deps, build_graph, ids,
  empty_graph,
}

pub count-append : (k : String) (xs ys : List String) → count k (xs ++ ys) ≡ count k xs + count k ys
unfolding count
count-append k [] ys = omega arith
count-append k (x ∷ xs) ys = omega (arith, count-append k xs ys)

-- What the plugins with an id list as their dependencies.
unfoldable pub deps_of : List Meta → String → List String
deps_of [] x = []
deps_of (p ∷ ps) x = (if p.id =s x then p.dependencies else []) ++ deps_of ps x

pub known-ids : (ps : List Meta) (x : String) → known ps x ≡ ltb 0 (count x (ids ps))
unfolding known ids count
known-ids [] x = refl
known-ids (p ∷ ps) x = elim (Bool-cases (p.id =s x)) [
  | inl y ↦ rw y (ground arith)
  | inr n ↦ rw (n, known-ids ps x) (ground arith)
]

-- The graph has, beyond the graph `g`, an edge for each of the dependencies `deps` of `id`.
build_deps_adds :
    (all : List Meta) (id : String) (deps : List String) (g g' : Graph) (x d : String)
    → build_deps all id deps g ≡ ok g'
    → (g'.in_deg x ≡ g.in_deg x + (if id =s x then length deps else 0))
      × (count x (g'.adj d) ≡ count x (g.adj d) + (if id =s x then count d deps else 0))
unfolding build_deps count
build_deps_adds all id [] g g' x d h = (ground arith, ground arith)
build_deps_adds all id (dep ∷ deps) g g' x d h =
    let g1 : Graph = record { in_deg = bump g.in_deg id; adj = append_at g.adj dep id } in
    let ih = build_deps_adds all id deps g1 g' x d (ground arith) in
    (ground (arith, ih.0), ground (arith, ih.1, count-append x (g.adj d) (id ∷ [])))

deps_of_cons :
    (p : Meta) (ps : List Meta) (x d : String)
    → (length (deps_of (p ∷ ps) x)
        ≡ (if p.id =s x then length p.dependencies else 0) + length (deps_of ps x))
      × (count d (deps_of (p ∷ ps) x)
          ≡ (if p.id =s x then count d p.dependencies else 0) + count d (deps_of ps x))
unfolding deps_of
deps_of_cons p ps x d = elim (Bool-cases (p.id =s x)) [
  | inl y ↦
      rw y
        (length-append p.dependencies (deps_of ps x), count-append d p.dependencies (deps_of ps x))
  | inr n ↦ rw n (unfold count in (omega arith, omega arith))
]

pub Result-cases {ℓ} :
    {A : Type ℓ} (r : Result A) → ((a : A) × (r ≡ ok a)) ⊎ ((e : TopoError) × (r ≡ err e))
Result-cases (ok a) = inl (a, refl)
Result-cases (err e) = inr (e, refl)

build_graph_adds :
    (all ps : List Meta) (g g' : Graph) (x d : String)
    → build_graph all ps g ≡ ok g'
    → (g'.in_deg x ≡ g.in_deg x + length (deps_of ps x))
      × (count x (g'.adj d) ≡ count x (g.adj d) + count d (deps_of ps x))
unfolding build_graph
build_graph_adds all [] g g' x d h = unfold deps_of count in (ground arith, ground arith)
build_graph_adds all (p ∷ ps) g g' x d h =
    elim (Result-cases (build_deps all p.id p.dependencies g)) [
      | inl (g1, e) ↦
          let one = build_deps_adds all p.id p.dependencies g g1 x d e in
          let ih = build_graph_adds all ps g1 g' x d (rw e at h) in
          (
            omega (arith, one.0, ih.0, (deps_of_cons p ps x d).0),
            omega (arith, one.1, ih.1, (deps_of_cons p ps x d).1),
          )
      | inr (bad, e) ↦ absurd (ground arith)
    ]

-- In the graph of all plugins, the in-degree of a plugin is the number of its dependencies, and it
-- stands in the list of each of them as often as it names it.
pub graph_edges :
    (ps : List Meta) (g : Graph) (x d : String)
    → build_graph ps ps empty_graph ≡ ok g
    → (g.in_deg x ≡ length (deps_of ps x)) × (count x (g.adj d) ≡ count d (deps_of ps x))
graph_edges ps g x d h =
    let adds = build_graph_adds ps ps empty_graph g x d h in
    (omega (arith, adds.0), unfold count in omega (arith, adds.1))

pub deps_of_unknown :
    (ps : List Meta) (d x : String) → count x (ids ps) ≡ 0 → count d (deps_of ps x) ≡ 0
unfolding deps_of ids count
deps_of_unknown [] d x h = refl
deps_of_unknown (p ∷ ps) d x h = elim (Bool-cases (p.id =s x)) [
  | inl y ↦ absurd (ground arith)
  | inr n ↦ rw n (deps_of_unknown ps d x (ground arith))
]

-- Every plugin's dependencies are registered.
abbrev pub AllKnown : List Meta → List Meta → Type 0
AllKnown all = All (λ p. All (λ d. known all d ≡ true) p.dependencies)

build_deps_ok :
    (all : List Meta) (id : String) (deps : List String) (g : Graph)
    → All (λ d. known all d ≡ true) deps
    → (g' : Graph) × (build_deps all id deps g ≡ ok g')
unfolding build_deps
build_deps_ok all id [] g h = (g, refl)
build_deps_ok all id (dep ∷ deps) g h =
    let r =
      build_deps_ok all id deps (record { in_deg = bump g.in_deg id; adj = append_at g.adj dep id })
        h.1 in
    (r.0, rw h.0 r.1)

pub build_graph_ok :
    (all ps : List Meta) (g : Graph)
    → AllKnown all ps
    → (g' : Graph) × (build_graph all ps g ≡ ok g')
unfolding build_graph
build_graph_ok all [] g h = (g, refl)
build_graph_ok all (p ∷ ps) g h =
    let one = build_deps_ok all p.id p.dependencies g h.0 in
    let rest = build_graph_ok all ps one.0 h.1 in (rest.0, rw one.1 rest.1)
