-- ===== src/Auth/Guards/Access.antt =====
-- Whom the guards let through: src/modules/auth.
use mealdirectbackend.Common.{
  ◌≡◌, ◌≢◌, refl, ◌⊎◌, inl, inr, ◌↔◌, List, [], ◌∷◌, true, false, Option, some, ok, err, arith,
  or_else, Result, String, Bool-cases, any, value_or, Result-cases,
}
use mealdirectbackend.Domain.Authorization.{ActorRole, campus_admin, super_admin}
use mealdirectbackend.Domain.AdminPermissions.{
  AdminMembershipRole, AdminPermission, JwtRole, has, resolve_admin_permissions,
  admin_role_permissions, is_super, readonly_admin, read, admin_manage,
}
use mealdirectbackend.Domain.AdminPermissions.Grants.{admin_manage_super}
use mealdirectbackend.Auth.Guards.{Actor, includes, roles_guard, permissions_guard}

-- A request passes the guard on roles exactly when no role is required, or when it has an actor
-- whose role is among those required.
pub roles_guard_iff :
    (required : Option (List ActorRole)) (actor : Option Actor)
    → (roles_guard required actor ≡ ok true)
      ↔ ((or_else required [] ≡ []) ⊎ (includes (or_else required []) actor ≡ true))
unfolding roles_guard
roles_guard_iff required actor = ground arith

has_coarse :
    (p : AdminPermission)
    → (has p (resolve_admin_permissions [] JwtRole.campus_admin) ≡ true) ↔ (p ≢ admin_manage)
unfolding has resolve_admin_permissions admin_role_permissions
has_coarse p = ground arith

has_readonly :
    (p : AdminPermission)
    → (has p (resolve_admin_permissions (readonly_admin ∷ []) JwtRole.campus_admin) ≡ true)
      ↔ (p ≡ read)
unfolding has resolve_admin_permissions admin_role_permissions
has_readonly p = ground arith

not-has-coarse : has admin_manage (resolve_admin_permissions [] JwtRole.campus_admin) ≡ false
unfolding has resolve_admin_permissions admin_role_permissions
not-has-coarse = refl

module _ {E : Type 0} (list_active_roles : String → Result E (List AdminMembershipRole)) where
  role_of :
      (actor : Actor)
      → permissions_guard list_active_roles (some admin_manage) (some actor) ≡ ok true
      → (actor.role ≡ super_admin) ⊎ (actor.role ≡ campus_admin)
  unfolding permissions_guard
  role_of actor h = ground arith

  campus_check :
      (actor : Actor) (p : AdminPermission)
      → actor.role ≡ campus_admin
      → (permissions_guard list_active_roles (some p) (some actor) ≡ ok true) ↔ (
          has p (
            resolve_admin_permissions
              (value_or (list_active_roles actor.user_id) [])
              JwtRole.campus_admin)
          ≡ true)
  unfolding permissions_guard
  campus_check actor p r = ground arith

  -- To manage administrators a request must carry the role of a super administrator, or be a campus
  -- administrator's whose memberships were read and include a super administrator's.
  pub permissions_guard_admin_manage :
      (actor : Actor)
      → permissions_guard list_active_roles (some admin_manage) (some actor) ≡ ok true
      → (actor.role ≡ super_admin)
        ⊎ ((actor.role ≡ campus_admin)
            × (roles : List AdminMembershipRole) × (list_active_roles actor.user_id ≡ ok roles)
            × (any is_super roles ≡ true))
  unfolding permissions_guard
  permissions_guard_admin_manage actor h = elim (Result-cases (list_active_roles actor.user_id)) [
    | inl (e, failed) ↦ ground (arith, not-has-coarse)
    | inr (roles, found) ↦ elim (Bool-cases (any is_super roles)) [
      | inl yes_super ↦ elim (role_of actor h) [
        | inl s ↦ inl s
        | inr c ↦ inr (c, roles, found, yes_super)
      ]
      | inr none_super ↦ ground (arith, admin_manage_super roles JwtRole.campus_admin)
    ]
  ]

  -- While the memberships of a campus administrator cannot be read, every permission but that to
  -- manage administrators is granted, and if they are read and are only those of a read-only
  -- administrator, only the permission to read: a failed lookup may grant what the memberships deny.
  pub permissions_guard_fallback :
      (actor : Actor) (p : AdminPermission) (e : E)
      → actor.role ≡ campus_admin
      → ((list_active_roles actor.user_id ≡ err e)
          → (permissions_guard list_active_roles (some p) (some actor) ≡ ok true)
            ↔ (p ≢ admin_manage))
        × ((list_active_roles actor.user_id ≡ ok (readonly_admin ∷ []))
            → (permissions_guard list_active_roles (some p) (some actor) ≡ ok true) ↔ (p ≡ read))
  permissions_guard_fallback actor p e r = (
    (λ f. ground (arith, campus_check actor p r, has_coarse p)),
    λ f. ground (arith, campus_check actor p r, has_readonly p),
  )
