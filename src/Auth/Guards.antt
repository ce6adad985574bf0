-- ===== src/Auth/Guards.antt =====
-- The guards on roles and permissions: src/modules/auth/roles.guard.ts and permissions.guard.ts.
-- What the decorators require, and the actor of the request, are arguments; so is the lookup of the
-- memberships in the database, which may fail.
pub mod Access
use mealdirectbackend.Common.{
  ℕ, suc, ◌+◌, ◌-◌, ◌*◌, ◌/◌, ◌≤◌, ◌<◌, ◌≡◌, ◌≢◌, refl, ◌⊎◌, inl, inr, ◌↔◌, List, [], ◌∷◌, ◌++◌,
  Bool, true, false, Option, none, some, Num, nat, neg, fractional, ok, err, arith, or_else, map,
  map_result, sum, ltb, leb, Result, throw_if, ◌>>=◌, ◌>>◌, if◌then◌else◌, min, max, String,
  Bool-cases, Option-cases, ◌==◌, ◌&&◌, ◌||◌, not, is_some, any, ap, >>=-eq-ok, str_eq, eq_iff,
  length, value_or,
}
use mealdirectbackend.Domain.Authorization.{
  ActorRole, customer, vendor, rider, campus_admin, super_admin,
}
use mealdirectbackend.Domain.AdminPermissions.{
  AdminMembershipRole, AdminPermission, JwtRole, has, resolve_admin_permissions,
}

pub record Actor : Type 0 where
  pub user_id : String
  pub role : ActorRole

-- The `ForbiddenException`s, by their messages.
pub data Forbidden : Type 0 where
  insufficient_permissions authentication_required admin_required : Forbidden
  missing_permission : AdminPermission → Forbidden

abbrev pub role_index : ActorRole → ℕ
role_index customer = 0
role_index vendor = 1
role_index rider = 2
role_index campus_admin = 3
role_index super_admin = 4

abbrev pub includes : List ActorRole → Option Actor → Bool
includes roles none = false
includes roles (some actor) = any (λ r. role_index r == role_index actor.role) roles

-- `RolesGuard.canActivate`. An absent decorator requires no roles.
unfoldable pub roles_guard : Option (List ActorRole) → Option Actor → Result Forbidden Bool
roles_guard required actor = elim (or_else required []) [
  | [] ↦ ok true
  | r ∷ rs ↦ if includes (r ∷ rs) actor then ok true else err insufficient_permissions
]

module _ {E : Type 0} (list_active_roles : String → Result E (List AdminMembershipRole)) where
  -- The part of `PermissionsGuard.canActivate` behind the test for super administrators: a failed
  -- lookup counts as no memberships.
  unfoldable pub check_memberships : AdminPermission → String → Result Forbidden Bool
  check_memberships required user_id =
      if has required
        (resolve_admin_permissions (value_or (list_active_roles user_id) []) JwtRole.campus_admin)
      then ok true
      else err (missing_permission required)

  unfoldable pub check_actor : AdminPermission → Option Actor → Result Forbidden Bool
  unfolding check_memberships
  check_actor required none = err authentication_required
  check_actor required (some actor) = elim actor.role [
    | super_admin ↦ ok true
    | campus_admin ↦ check_memberships required actor.user_id
    | _ ↦ err admin_required
  ]

  -- `PermissionsGuard.canActivate`
  unfoldable pub permissions_guard : Option AdminPermission → Option Actor → Result Forbidden Bool
  unfolding check_actor
  permissions_guard none actor = ok true
  permissions_guard (some required) actor = check_actor required actor
