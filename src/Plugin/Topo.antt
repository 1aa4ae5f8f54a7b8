-- ===== src/Plugin/Topo.antt =====
-- internal/plugin/manager.go, `topoSort`: Kahn's algorithm over the registered plugins. A range over
-- a Go map visits its keys in any order: `ps` is the order of the first range and `keys` that of the
-- second. `sort.Slice` is the argument `sort`.
pub mod Edges
pub mod Relax
pub mod Invariant
pub mod Order
pub mod Sample
mod Tests
use webcasa.Base.{
  ℕ, zero, suc, ◌+◌, ◌-◌, String, Bool, true, false, not, Option, none, some, List, [], ◌∷◌, ◌++◌,
  ◌==◌, ◌=s◌, if◌then◌else◌, is_some, length,
}

pub record Meta : Type 0 where
  pub id : String
  pub priority : ℕ
  pub dependencies : List String

pub data TopoError : Type 0 where
  unknown : String → String → TopoError
  circular : TopoError

pub data Result {ℓ} (A : Type ℓ) : Type ℓ where
  ok : A → Result A
  err : TopoError → Result A

-- `inDeg` and `adj`. A key that the maps lack reads as 0 and as no list.
pub record Graph : Type 0 where
  pub in_deg : String → ℕ
  pub adj : String → List String

abbrev pub bump : (String → ℕ) → String → String → ℕ
bump f k = λ j. if k =s j then f j + 1 else f j

abbrev pub drop_one : (String → ℕ) → String → String → ℕ
drop_one f k = λ j. if k =s j then f j - 1 else f j

abbrev pub append_at : (String → List String) → String → String → String → List String
append_at f k x = λ j. if k =s j then f j ++ x ∷ [] else f j

-- `m.plugins[id]`.
unfoldable pub find_plugin : List Meta → String → Option Meta
find_plugin [] id = none
find_plugin (p ∷ ps) id = if p.id =s id then some p else find_plugin ps id

unfoldable pub known : List Meta → String → Bool
unfolding find_plugin
known ps id = is_some (find_plugin ps id)

priority_of : Option Meta → ℕ
priority_of none = 0
priority_of (some p) = p.priority

pub priority : List Meta → String → ℕ
unfolding priority_of
priority ps id = priority_of (find_plugin ps id)

-- The inner loop that builds the graph.
unfoldable pub build_deps : List Meta → String → List String → Graph → Result Graph
build_deps all id [] g = ok g
build_deps all id (dep ∷ deps) g =
    let rest =
      build_deps all id deps (record { in_deg = bump g.in_deg id; adj = append_at g.adj dep id }) in
    if known all dep then rest else err (unknown id dep)

infixl 5 ◌>>=◌
abbrev pub ◌>>=◌ {ℓ κ} : {A : Type ℓ} {B : Type κ} → Result A → (A → Result B) → Result B
ok a >>= f = f a
err e >>= f = err e

unfoldable pub build_graph : List Meta → List Meta → Graph → Result Graph
build_graph all [] g = ok g
build_graph all (p ∷ ps) g = do g' ← build_deps all p.id p.dependencies g; build_graph all ps g'

abbrev pub empty_graph : Graph
empty_graph = record { in_deg = λ j. 0; adj = λ j. [] }

unfoldable pub ids : List Meta → List String
ids [] = []
ids (p ∷ ps) = p.id ∷ ids ps

-- The entries of `inDeg` that are 0.
unfoldable pub ready : (String → ℕ) → List String → List String
ready in_deg [] = []
ready in_deg (id ∷ keys) =
    let rest = ready in_deg keys in if in_deg id == 0 then id ∷ rest else rest

-- The inner loop of the search: each edge out of the current node is taken off.
unfoldable pub relax : List String → (String → ℕ) → List String → (String → ℕ) × List String
relax [] in_deg queue = (in_deg, queue)
relax (next ∷ rest) in_deg queue =
    let in_deg' = drop_one in_deg next in
    relax rest in_deg' (if in_deg' next == 0 then queue ++ next ∷ [] else queue)

module _ (sort : (String → ℕ) → List String → List String) where
  -- The loop while the queue is not empty. `none`: the fuel ran out.
  unfoldable pub search_order :
      List Meta
      → (String → List String)
      → ℕ
      → List String
      → (String → ℕ)
      → List String
      → Option (List String)
  search_order ps adj fuel [] in_deg order = some order
  search_order ps adj zero (cur ∷ queue) in_deg order = none
  search_order ps adj (suc fuel) (cur ∷ queue) in_deg order =
      let (in_deg', queue') = relax (adj cur) in_deg queue in
      search_order ps adj fuel (sort (priority ps) queue') in_deg' (order ++ cur ∷ [])

  unfoldable pub check_order : List Meta → Option (List String) → Result (List String)
  check_order ps none = err circular
  check_order ps (some order) = if length order == length ps then ok order else err circular

  -- `topoSort`, with as much fuel as there are plugins.
  unfoldable pub topo_sort : List Meta → List String → Result (List String)
  unfolding check_order
  topo_sort ps keys = do
    g ← build_graph ps ps empty_graph
    check_order ps
        (search_order ps g.adj (length ps) (sort (priority ps) (ready g.in_deg keys)) g.in_deg [])
