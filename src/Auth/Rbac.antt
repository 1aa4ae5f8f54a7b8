-- ===== src/Auth/Rbac.antt =====
-- internal/auth/rbac.go: the roles and the middleware that asks for one.
mod Tests
use webcasa.Base.{
  ℕ, ◌≤◌, ◌<◌, String, Bool, true, false, ◌≡◌, ◌↔◌, ◌⊎◌, inl, inr, Option, none, some, arith,
  eq_iff, refl, ltb, ◌=s◌, if◌then◌else◌, Option-cases,
}

-- `roleLevel`.
pub role_level : String → ℕ
role_level role =
    if role =s "owner"
    then 4
    else if role =s "admin"
    then 3
    else if role =s "operator"
    then 2
    else if role =s "viewer"
    then 1
    else 0

-- What a middleware does with a request: abort it with a status, or pass it on.
pub data Gate : Type 0 where
  abort : ℕ → Gate
  next : String → Gate

check_role : String → Option String → Gate
check_role min_role none = abort 401
check_role min_role (some role) =
    if ltb (role_level role) (role_level min_role) then abort 403 else next role

-- `requireRole`: the user id of the context, and the role column of that user's row.
pub require_role : String → (ℕ → Option String) → Option ℕ → Gate
unfolding check_role
require_role min_role role_of none = abort 401
require_role min_role role_of (some uid) = check_role min_role (role_of uid)

unfoldable pub require_admin : (ℕ → Option String) → Option ℕ → Gate
unfolding require_role
require_admin = require_role "admin"

unfoldable pub require_operator : (ℕ → Option String) → Option ℕ → Gate
unfolding require_role
require_operator = require_role "operator"

unfoldable pub require_owner : (ℕ → Option String) → Option ℕ → Gate
unfolding require_role
require_owner = require_role "owner"

-- The three gates admit exactly the roles that they name, of users whose row is there: an owner
-- passes all of them, an admin all but the owner's, an operator only its own, and a viewer or an
-- unknown role none.
pub gates_admit :
    (role_of : ℕ → Option String) (uid : ℕ) (role : String)
    → role_of uid ≡ some role
    → ((require_owner role_of (some uid) ≡ next role) ↔ (role ≡ "owner"))
      × ((require_admin role_of (some uid) ≡ next role) ↔ (role ≡ "admin") ⊎ (role ≡ "owner"))
      × ((require_operator role_of (some uid) ≡ next role)
          ↔ (role ≡ "operator") ⊎ (role ≡ "admin") ⊎ (role ≡ "owner"))
unfolding require_owner require_admin require_operator role_level
gates_admit role_of uid role e = (
  (
    λ h. ground (arith, eq_iff role "owner", eq_iff role "admin", eq_iff role "operator"),
    λ h. rw (e, h),
  ),
  (
    λ h. ground (arith, eq_iff role "owner", eq_iff role "admin", eq_iff role "operator"),
    elim [ inl h ↦ rw (e, h) | inr h ↦ rw (e, h) ],
  ),
  (
    λ h. ground (arith, eq_iff role "owner", eq_iff role "admin", eq_iff role "operator"),
    elim [ inl h ↦ rw (e, h) | inr (inl h) ↦ rw (e, h) | inr (inr h) ↦ rw (e, h) ],
  ),
)
