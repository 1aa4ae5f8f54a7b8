-- ===== src/Plugin/Topo/Relax.antt =====
-- Taking the edges out of one node off: the in-degrees fall by the number of edges, and what falls
-- to 0 joins the queue, once.
use webcasa.Base.{
  ℕ, ◌+◌, ◌-◌, ◌≤◌, String, Bool, true, false, ◌&&◌, ◌≡◌, List, [], ◌∷◌, ◌++◌, arith, eq_iff,
  eq_refl, ◌=s◌, ◌==◌, if◌then◌else◌, count, hit, ltb, Bool-cases, inl, inr, ap,
}
use webcasa.Plugin.Topo.{relax, drop_one}
use webcasa.Plugin.Topo.Edges.{count-append}

-- What is added to the queue: a node whose edges were all taken off just now.
abbrev pub joins : ℕ → ℕ → ℕ
joins edges in_deg = if ltb 0 edges && in_deg == edges then 1 else 0

enqueue :
    (x next : String) (queue : List String) (b : Bool)
    → count x (if b then queue ++ next ∷ [] else queue)
      ≡ count x queue + (if b then hit next x else 0)
enqueue x next queue true = rw (count-append x queue (next ∷ [])) (unfold count in omega arith)
enqueue x next queue false = omega arith

pub relax_effect :
    (edges : List String) (in_deg : String → ℕ) (queue : List String) (x : String)
    → count x edges ≤ in_deg x
    → ((relax edges in_deg queue).0 x ≡ in_deg x - count x edges)
      × (count x (relax edges in_deg queue).1 ≡ count x queue + joins (count x edges) (in_deg x))
unfolding relax count
relax_effect [] in_deg queue x h = (omega arith, ground arith)
relax_effect (next ∷ rest) in_deg queue x h =
    let in_deg' : String → ℕ = drop_one in_deg next in
    let queue' : List String = if in_deg' next == 0 then queue ++ next ∷ [] else queue in
    let added = enqueue x next queue (in_deg' next == 0) in
    elim (Bool-cases (next =s x)) [
      | inl same ↦
          let e : next ≡ x = (eq_iff next x).0 same in
          let ih = relax_effect rest in_deg' queue' x (ground arith) in
          (ground (arith, ih.0), ground (arith, ih.1, added, eq_refl x, ap in_deg e))
      | inr other ↦
          let ih = relax_effect rest in_deg' queue' x (ground arith) in
          (ground (arith, ih.0), ground (arith, ih.1, added))
    ]
