-- ===== src/Auth/Roles.antt =====
-- The roles of src/security.py and their hierarchy. A user's row has a role of the enum UserRole
-- of src/models/user.py, which has JUDGE where Role has MEMBER; both are enums of texts, so a
-- lookup in ROLE_HIERARCHY compares the texts.
use ai_detention.Models.Account.{UserRole, User}
use ai_detention.Prelude.{
  List, String, Bool, ◌≡◌, ℕ, leb, ◌⊎◌, if◌then◌else◌, false, ◌∷◌, true, str_eq, [], refl, ◌≢◌,
  arith, inl, inr,
}
use ai_detention.Errors.{Result, ok, err, app, forbidden, requires_role}

pub data Role : Type 0 where
  admin member viewer : Role

abbrev pub role_value : Role → String
role_value Role.admin = "admin"
role_value Role.member = "member"
role_value Role.viewer = "viewer"

abbrev pub user_role_value : UserRole → String
user_role_value UserRole.admin = "admin"
user_role_value UserRole.judge = "judge"
user_role_value UserRole.viewer = "viewer"

abbrev pub role_hierarchy : List (String × ℕ)
role_hierarchy = ("viewer", 1) ∷ ("member", 2) ∷ ("admin", 3) ∷ []

-- ROLE_HIERARCHY.get(role, 0)
abbrev pub rank : List (String × ℕ) → String → ℕ
rank [] role = 0
rank ((key, level) ∷ rest) role = if str_eq key role then level else rank rest role

unfoldable pub has_permission : UserRole → Role → Bool
has_permission user_role required_role =
    leb (rank role_hierarchy (role_value required_role))
      (rank role_hierarchy (user_role_value user_role))

-- require_role: the dependency of a route.
unfoldable pub check_role : Role → User → Result User
check_role required_role user =
    if has_permission user.role required_role
    then ok user
    else err (app (forbidden (requires_role (role_value required_role))))

admin_permission : (r : Role) → has_permission UserRole.admin r ≡ true
unfolding has_permission
admin_permission Role.admin = refl
admin_permission Role.member = refl
admin_permission Role.viewer = refl

judge_permission : (r : Role) → has_permission UserRole.judge r ≡ false
unfolding has_permission
judge_permission Role.admin = refl
judge_permission Role.member = refl
judge_permission Role.viewer = refl

viewer_permission :
    (has_permission UserRole.viewer Role.admin ≡ false)
    × (has_permission UserRole.viewer Role.member ≡ false)
    × (has_permission UserRole.viewer Role.viewer ≡ true)
unfolding has_permission
viewer_permission = (refl, refl, refl)

viewer_refused : (r : Role) → r ≢ Role.viewer → has_permission UserRole.viewer r ≡ false
unfolding has_permission
viewer_refused Role.admin h = refl
viewer_refused Role.member h = refl
viewer_refused Role.viewer h = absurd (h refl)

-- An admin passes every check of a role, a viewer passes only that for VIEWER, and a judge passes
-- none, not even that for VIEWER; whoever fails gets a forbidden error that names the role.
pub check_role_exact :
    (required : Role) (user : User)
    → ((user.role ≡ UserRole.admin) ⊎ ((user.role ≡ UserRole.viewer) × (required ≡ Role.viewer))
        → check_role required user ≡ ok user)
      × ((user.role ≡ UserRole.judge) ⊎ ((user.role ≡ UserRole.viewer) × (required ≢ Role.viewer))
          → check_role required user ≡ err (app (forbidden (requires_role (role_value required)))))
unfolding check_role
check_role_exact required user = (
  ground (arith, admin_permission required, viewer_permission),
  λ h. elim h [
    | inl is_judge ↦ rw (is_judge, judge_permission required) refl
    | inr (is_viewer, other) ↦ rw (is_viewer, viewer_refused required other) refl
  ],
)
