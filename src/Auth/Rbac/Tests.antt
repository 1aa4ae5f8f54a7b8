-- ===== src/Auth/Rbac/Tests.antt =====
-- The role gates on a concrete user.
use webcasa.Base.{ℕ, String, ◌≡◌, ◌↔◌, ◌⊎◌, Option, none, some, ◌==◌, if◌then◌else◌, refl}
use webcasa.Auth.Rbac.{next, require_admin, require_operator, require_owner, gates_admit}

abbrev roles : ℕ → Option String
roles = λ j. if 7 == j then some "admin" else none

abbrev admin : String
admin = "admin"

gates_admit_example :
    ((require_owner roles (some 7) ≡ next admin) ↔ (admin ≡ "owner"))
    × ((require_admin roles (some 7) ≡ next admin) ↔ (admin ≡ admin) ⊎ (admin ≡ "owner"))
    × ((require_operator roles (some 7) ≡ next admin)
        ↔ (admin ≡ "operator") ⊎ (admin ≡ admin) ⊎ (admin ≡ "owner"))
gates_admit_example = gates_admit roles 7 admin refl
