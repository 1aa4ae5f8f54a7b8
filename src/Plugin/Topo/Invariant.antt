-- ===== src/Plugin/Topo/Invariant.antt =====
-- What the loop of `topoSort` keeps, and that its fuel suffices.
use webcasa.Base.{
  ℕ, ◌+◌, ◌≤◌, ◌<◌, String, ◌≡◌, refl, List, [], ◌∷◌, ◌++◌, arith, eq_iff, eq_refl, ◌=s◌, ◌==◌,
  if◌then◌else◌, count, Bool-cases, inl, inr, ap, length, length-append, All,
}
use webcasa.Plugin.Topo.{Meta, relax, ids, priority}
use webcasa.Plugin.Topo.Edges.{count-append, deps_of, deps_of_unknown}
use webcasa.Plugin.Topo.Relax.{relax_effect}

-- How many of the listed texts are not yet in the order.
pub pending : List String → List String → ℕ
pending order [] = 0
pending order (d ∷ ds) = (if count d order == 0 then 1 else 0) + pending order ds

pub pending-nil : (ds : List String) → pending [] ds ≡ length ds
unfolding pending count
pending-nil [] = refl
pending-nil (d ∷ ds) = omega (arith, pending-nil ds)

pending-append :
    (order : List String) (cur : String) (ds : List String)
    → count cur order ≡ 0
    → pending (order ++ cur ∷ []) ds + count cur ds ≡ pending order ds
unfolding pending count
pending-append order cur [] h = omega arith
pending-append order cur (d ∷ ds) h =
    let more = count-append d order (cur ∷ []) in
    let ih = pending-append order cur ds h in
    elim (Bool-cases (cur =s d)) [
      | inl same ↦
          let e : cur ≡ d = (eq_iff cur d).0 same in
          ground (arith, more, ih, eq_refl cur, ap (λ t. count t order) e, eq_iff d cur)
      | inr other ↦ ground (arith, more, ih, eq_iff d cur, eq_iff cur d)
    ]

pub pending_done : (order ds : List String) → pending order ds ≡ 0 → All (λ d. 0 < count d order) ds
unfolding pending
pending_done order [] h = tt
pending_done order (d ∷ ds) h = (ground arith, pending_done order ds (ground arith))

pub done_pending : (order ds : List String) → All (λ d. 0 < count d order) ds → pending order ds ≡ 0
unfolding pending
done_pending order [] h = refl
done_pending order (d ∷ ds) h = ground (arith, done_pending order ds h.1)

-- Each plugin of the order stands behind those that it depends on, or behind the texts `seen`.
abbrev pub DepsBefore : (String → List String) → List String → List String → Type 0
DepsBefore deps seen [] = Unit
DepsBefore deps seen (x ∷ xs) = All (λ d. 0 < count d seen) (deps x) × DepsBefore deps (x ∷ seen) xs

All-count-swap :
    (seen rest : List String) (x : String) (ds : List String)
    → All (λ d. 0 < count d seen + count d (x ∷ rest)) ds
    → All (λ d. 0 < count d (x ∷ seen) + count d rest) ds
All-count-swap seen rest x [] h = tt
All-count-swap seen rest x (d ∷ ds) h =
    (unfold count in omega (arith, h.0), All-count-swap seen rest x ds h.1)

All-count-nil :
    (seen ds : List String)
    → All (λ d. 0 < count d seen + count d []) ds
    → All (λ d. 0 < count d seen) ds
All-count-nil seen [] h = tt
All-count-nil seen (d ∷ ds) h = (unfold count in omega (arith, h.0), All-count-nil seen ds h.1)

All-count-start :
    (order ds : List String)
    → All (λ d. 0 < count d order) ds
    → All (λ d. 0 < count d [] + count d order) ds
All-count-start order [] h = tt
All-count-start order (d ∷ ds) h =
    (unfold count in omega (arith, h.0), All-count-start order ds h.1)

DepsBefore-append :
    (deps : String → List String) (seen order : List String) (cur : String)
    → DepsBefore deps seen order
    → All (λ d. 0 < count d seen + count d order) (deps cur)
    → DepsBefore deps seen (order ++ cur ∷ [])
DepsBefore-append deps seen [] cur b h = (All-count-nil seen (deps cur) h, tt)
DepsBefore-append deps seen (x ∷ xs) cur b h =
    (b.0, DepsBefore-append deps (x ∷ seen) xs cur b.1 (All-count-swap seen xs x (deps cur) h))

pub record Inv (ps : List Meta) (queue : List String) (in_deg : String → ℕ) (order : List String)
    : Type 0 where
  pub degrees : (x : String) → in_deg x ≡ pending order (deps_of ps x)
  pub placed :
      (x : String) → count x order + count x queue ≡ (if in_deg x == 0 then count x (ids ps) else 0)
  pub before : DepsBefore (deps_of ps) [] order
  pub measure : length order + pending order (ids ps) ≡ length ps

module _ (ps : List Meta) (adj : String → List String)
    (edges : (x d : String) → count x (adj d) ≡ count d (deps_of ps x))
    (distinct : (x : String) → count x (ids ps) ≤ 1)
    (sort : (String → ℕ) → List String → List String)
    (keeps : (key : String → ℕ) (l : List String) (x : String)
      → count x (sort key l) ≡ count x l) where
  -- The head of the queue is a plugin that waits for nothing and stands nowhere else.
  pub head_ready :
      (cur : String) (queue : List String) (in_deg : String → ℕ) (order : List String)
      → Inv ps (cur ∷ queue) in_deg order
      → (in_deg cur ≡ 0) × (count cur order ≡ 0) × (count cur (ids ps) ≡ 1)
  head_ready cur queue in_deg order i =
      let p = i.placed cur in
      let one = distinct cur in
      unfold count in
      (
        ground (arith, p, one, eq_refl cur),
        ground (arith, p, one, eq_refl cur),
        ground (arith, p, one, eq_refl cur),
      )

  -- The edges out of the head number no more than the in-degrees hold.
  taken :
      (cur : String) (queue : List String) (in_deg : String → ℕ) (order : List String)
      → Inv ps (cur ∷ queue) in_deg order
      → (x : String) → pending (order ++ cur ∷ []) (deps_of ps x) + count x (adj cur) ≡ in_deg x
  taken cur queue in_deg order i x = omega (
    arith,
    pending-append order cur (deps_of ps x) (head_ready cur queue in_deg order i).1,
    edges x cur,
    i.degrees x,
  )

  step_degrees :
      (cur : String) (queue : List String) (in_deg : String → ℕ) (order : List String)
      → Inv ps (cur ∷ queue) in_deg order
      → (x : String)
      → (relax (adj cur) in_deg queue).0 x ≡ pending (order ++ cur ∷ []) (deps_of ps x)
  step_degrees cur queue in_deg order i x =
      let t = taken cur queue in_deg order i x in
      omega (arith, t, (relax_effect (adj cur) in_deg queue x (omega (arith, t))).0)

  step_placed :
      (cur : String) (queue : List String) (in_deg : String → ℕ) (order : List String)
      → Inv ps (cur ∷ queue) in_deg order
      → (x : String)
      → count x (order ++ cur ∷ []) + count x (sort (priority ps) (relax (adj cur) in_deg queue).1)
        ≡ (if (relax (adj cur) in_deg queue).0 x == 0 then count x (ids ps) else 0)
  unfolding count
  step_placed cur queue in_deg order i x =
      let t = taken cur queue in_deg order i x in
      let r = relax_effect (adj cur) in_deg queue x (omega (arith, t)) in
      ground (
        arith,
        r.0,
        r.1,
        t,
        i.placed x,
        distinct x,
        edges x cur,
        deps_of_unknown ps cur x,
        keeps (priority ps) (relax (adj cur) in_deg queue).1 x,
        count-append x order (cur ∷ []),
      )

  pub step_Inv :
      (cur : String) (queue : List String) (in_deg : String → ℕ) (order : List String)
      → Inv ps (cur ∷ queue) in_deg order
      → let (in_deg', queue') = relax (adj cur) in_deg queue in
        Inv ps (sort (priority ps) queue') in_deg' (order ++ cur ∷ [])
  step_Inv cur queue in_deg order i =
      let fresh = (head_ready cur queue in_deg order i).1 in
      record {
        degrees = λ x. step_degrees cur queue in_deg order i x;
        placed = λ x. step_placed cur queue in_deg order i x;
        before = DepsBefore-append (deps_of ps) [] order cur i.before (
            All-count-start order (deps_of ps cur) (
              pending_done order (deps_of ps cur)
                (omega (arith, i.degrees cur, (head_ready cur queue in_deg order i).0))));
        measure = omega (
          arith,
          i.measure,
          pending-append order cur (ids ps) fresh,
          (head_ready cur queue in_deg order i).2,
          length-append order (cur ∷ []),
        );
      }
