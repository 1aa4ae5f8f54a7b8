-- ===== src/Plugin/Topo/Sample.antt =====
-- Two plugins, of which the first depends on the second.
use webcasa.Base.{
  ◌≤◌, String, ◌≡◌, refl, List, [], ◌∷◌, arith, eq_iff, ◌=s◌, count, Bool-cases, inl, inr,
}
use webcasa.Plugin.Topo.{Meta, ids}

abbrev pub app : Meta
app = record { id = "app"; priority = 1; dependencies = "base" ∷ [] }

abbrev pub base : Meta
base = record { id = "base"; priority = 2; dependencies = [] }

abbrev pub plugins : List Meta
plugins = app ∷ base ∷ []

abbrev pub keys : List String
keys = "app" ∷ "base" ∷ []

pub plugins_distinct : (x : String) → count x (ids plugins) ≤ 1
unfolding count ids
plugins_distinct x = elim (Bool-cases ("app" =s x)) [
  | inl e ↦ rw (← (eq_iff "app" x).0 e) (omega arith)
  | inr e ↦ rw e (ground arith)
]

pub keys_visited : (x : String) → count x keys ≡ count x (ids plugins)
unfolding ids
keys_visited x = refl
