-- ===== src/Tests/Access.antt =====
-- Roles, permissions and access to orders at concrete inputs.
use mathlib.Core.List.{Memᴰ}
use mealdirectbackend.Common.{
  ◌≡◌, ◌≢◌, refl, ◌⊎◌, ◌↔◌, List, [], ◌∷◌, true, none, some, ok, err, Result, any, String,
}
use mealdirectbackend.Domain.Authorization.{
  ActorRole, AuthorizationContext, OrderAccessTarget, SettlementAccessTarget, can_read_order,
}
use mealdirectbackend.Domain.AdminPermissions.{
  AdminMembershipRole, AdminPermission, JwtRole, has, is_super, admin_role_permissions,
  resolve_admin_permissions, add_roles,
}
use mealdirectbackend.Domain.AdminPermissions.Grants.{Carries, resolve_admin_permissions_grants}
use mealdirectbackend.Auth.Guards.{Actor, permissions_guard}
use mealdirectbackend.Auth.Guards.Access.{
  permissions_guard_admin_manage, permissions_guard_fallback,
}

abbrev campus_actor : AuthorizationContext
campus_actor = record {
  actor_id = "a";
  role = ActorRole.campus_admin;
  campus_id = some "north";
  vendor_id = none;
  rider_id = none;
}

abbrev north_order : OrderAccessTarget
north_order = record { customer_id = "c"; campus_id = "north"; vendor_id = "v"; rider_id = none }

abbrev other_north_order : OrderAccessTarget
other_north_order = record {
  customer_id = "d";
  campus_id = "north";
  vendor_id = "u";
  rider_id = some "r";
}

abbrev north_settlement : SettlementAccessTarget
north_settlement = record { campus_id = "north"; vendor_id = "v" }

reads_north : can_read_order campus_actor north_order ≡ true
unfolding can_read_order
reads_north = refl

reads_other_north : can_read_order campus_actor other_north_order ≡ true
unfolding can_read_order
reads_other_north = refl

abbrev finance : List AdminMembershipRole
finance = AdminMembershipRole.finance_admin ∷ []

abbrev super : List AdminMembershipRole
super = AdminMembershipRole.super_admin ∷ []

resolve_admin_permissions_grants_example :
    (has AdminPermission.refunds_manage (resolve_admin_permissions finance JwtRole.campus_admin)
      ≡ true)
    ↔ ((JwtRole.campus_admin ≡ JwtRole.super_admin)
        ⊎ Memᴰ AdminMembershipRole.super_admin finance
        ⊎ (AdminPermission.refunds_manage ≡ AdminPermission.read)
        ⊎ ((r : AdminMembershipRole) × Memᴰ r finance × Carries r AdminPermission.refunds_manage)
        ⊎ ((finance ≡ [])
            × Carries AdminMembershipRole.campus_admin AdminPermission.refunds_manage))
resolve_admin_permissions_grants_example =
    resolve_admin_permissions_grants AdminPermission.refunds_manage finance JwtRole.campus_admin

finance_refunds :
    has AdminPermission.refunds_manage (resolve_admin_permissions finance JwtRole.campus_admin)
    ≡ true
unfolding resolve_admin_permissions add_roles has admin_role_permissions
finance_refunds = refl

super_manages :
    has AdminPermission.admin_manage (resolve_admin_permissions super JwtRole.campus_admin) ≡ true
unfolding resolve_admin_permissions add_roles has admin_role_permissions
super_manages = refl

abbrev admin : Actor
admin = record { user_id = "u"; role = ActorRole.campus_admin }

abbrev super_lookup : String → Result String (List AdminMembershipRole)
super_lookup user = ok super

abbrev failed_lookup : String → Result String (List AdminMembershipRole)
failed_lookup user = err "down"

guard_admits :
    permissions_guard super_lookup (some AdminPermission.admin_manage) (some admin) ≡ ok true
unfolding permissions_guard resolve_admin_permissions add_roles has admin_role_permissions
guard_admits = refl

permissions_guard_admin_manage_example :
    (ActorRole.campus_admin ≡ ActorRole.super_admin)
    ⊎ ((ActorRole.campus_admin ≡ ActorRole.campus_admin)
        × (roles : List AdminMembershipRole) × (super_lookup "u" ≡ ok roles)
        × (any is_super roles ≡ true))
permissions_guard_admin_manage_example =
    permissions_guard_admin_manage super_lookup admin guard_admits

permissions_guard_fallback_example :
    ((failed_lookup "u" ≡ err "down")
      → (permissions_guard failed_lookup (some AdminPermission.payouts_manage) (some admin)
          ≡ ok true)
        ↔ (AdminPermission.payouts_manage ≢ AdminPermission.admin_manage))
    × ((failed_lookup "u" ≡ ok (AdminMembershipRole.readonly_admin ∷ []))
        → (permissions_guard failed_lookup (some AdminPermission.payouts_manage) (some admin)
            ≡ ok true)
          ↔ (AdminPermission.payouts_manage ≡ AdminPermission.read))
permissions_guard_fallback_example =
    permissions_guard_fallback failed_lookup admin AdminPermission.payouts_manage "down" refl
