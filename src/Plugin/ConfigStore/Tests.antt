-- ===== src/Plugin/ConfigStore/Tests.antt =====
-- Two plugins that use the shared table.
use webcasa.Base.{
  String, true, false, ◌≡◌, ◌≢◌, refl, none, some, List, [], ◌∷◌, ◌=s◌, if◌then◌else◌, any_char,
  arith, eq_iff, Bool-cases, inl, inr,
}
use webcasa.Plugin.ConfigStore.{Settings, full_key, value_of, get, set, new_config_store}
use webcasa.Plugin.ConfigStore.Refinement.{
  DotFree, Request, set_key, delete_key, replay, run_requests, run_requests_refine, set-empty,
}

-- An update with a struct, which leaves the empty fields out.
abbrev assign : String → String → String
assign old value = if value =s "" then old else value

overwrites : (old value : String) → value ≢ "" → assign old value ≡ value
overwrites old value n = elim (Bool-cases (value =s "")) [
  | inl y ↦ absurd (n (ground (arith, y, eq_iff value "")))
  | inr m ↦ rw m refl
]

abbrev settings : Settings
settings k = if k =s "plugin.docker.host" then some "unix" else none

abbrev requests : List Request
requests =
    set_key true "docker" "host" "tcp"
    ∷ set_key true "ai" "host" "local"
    ∷ delete_key false "docker" "host"
    ∷ []

docker_DotFree : DotFree "docker"
unfolding any_char
docker_DotFree = refl

ai_DotFree : DotFree "ai"
unfolding any_char
ai_DotFree = refl

run_requests_refine_example :
    get "docker" "host" (run_requests assign requests settings)
    ≡ value_of (replay requests (λ i k. settings (full_key i k)) "docker" "host")
run_requests_refine_example =
    run_requests_refine assign overwrites requests settings "docker" "host"
      (
        (docker_DotFree, ground (arith, eq_iff "tcp" "")),
        ((ai_DotFree, ground (arith, eq_iff "local" "")), (docker_DotFree, tt)),
      )
      docker_DotFree

abbrev unix : String
unix = "unix"

docker_set : settings (full_key "docker" "host") ≡ some unix
unfolding full_key new_config_store
docker_set = refl

set-empty_example : get "docker" "host" (set assign true "docker" "host" "" settings).0 ≡ unix
set-empty_example = set-empty assign true "docker" "host" unix settings (λ before. refl) docker_set
