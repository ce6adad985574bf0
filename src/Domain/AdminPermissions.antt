-- ===== src/Domain/AdminPermissions.antt =====
-- The permissions of administrators: src/domain/admin-permissions.ts.
pub mod Grants
use mealdirectbackend.Common.{
  ℕ, suc, ◌+◌, ◌-◌, ◌*◌, ◌/◌, ◌≤◌, ◌<◌, ◌≡◌, ◌≢◌, refl, ◌⊎◌, inl, inr, ◌↔◌, List, [], ◌∷◌, ◌++◌,
  Bool, true, false, Option, none, some, Num, nat, neg, fractional, ok, err, arith, or_else, map,
  map_result, sum, ltb, leb, Result, throw_if, ◌>>=◌, ◌>>◌, if◌then◌else◌, min, max, String,
  Bool-cases, Option-cases, ◌==◌, ◌&&◌, ◌||◌, not, is_some, any, ap, >>=-eq-ok, str_eq, eq_iff,
  length,
}

pub data AdminMembershipRole : Type 0 where
  super_admin campus_admin finance_admin operations_admin support_admin readonly_admin :
      AdminMembershipRole

pub data AdminPermission : Type 0 where
  read payments_verify refunds_manage wallets_manage settlements_manage payouts_manage :
      AdminPermission
  reconciliation_manage vendors_manage riders_manage users_manage admin_manage : AdminPermission

-- The role that the token carries.
pub data JwtRole : Type 0 where
  super_admin campus_admin : JwtRole

-- The place in `adminPermissions`, by which two permissions are compared.
abbrev pub permission_index : AdminPermission → ℕ
permission_index read = 0
permission_index payments_verify = 1
permission_index refunds_manage = 2
permission_index wallets_manage = 3
permission_index settlements_manage = 4
permission_index payouts_manage = 5
permission_index reconciliation_manage = 6
permission_index vendors_manage = 7
permission_index riders_manage = 8
permission_index users_manage = 9
permission_index admin_manage = 10

abbrev pub all_permissions : List AdminPermission
all_permissions =
    read ∷ payments_verify ∷ refunds_manage ∷ wallets_manage ∷ settlements_manage ∷ payouts_manage
    ∷ reconciliation_manage ∷ vendors_manage ∷ riders_manage ∷ users_manage ∷ admin_manage ∷ []

unfoldable pub admin_role_permissions : AdminMembershipRole → List AdminPermission
admin_role_permissions super_admin = all_permissions
admin_role_permissions campus_admin =
    read ∷ payments_verify ∷ refunds_manage ∷ wallets_manage ∷ settlements_manage ∷ payouts_manage
    ∷ reconciliation_manage ∷ vendors_manage ∷ riders_manage ∷ users_manage ∷ []
admin_role_permissions finance_admin =
    read ∷ payments_verify ∷ refunds_manage ∷ wallets_manage ∷ settlements_manage ∷ payouts_manage
    ∷ reconciliation_manage ∷ []
admin_role_permissions operations_admin = read ∷ vendors_manage ∷ riders_manage ∷ []
admin_role_permissions support_admin = read ∷ []
admin_role_permissions readonly_admin = read ∷ []

abbrev pub is_super : AdminMembershipRole → Bool
is_super AdminMembershipRole.super_admin = true
is_super _ = false

-- `permissions.has(p)`; a set is the list of what was added to it.
unfoldable pub has : AdminPermission → List AdminPermission → Bool
has p permissions = any (λ q. permission_index q == permission_index p) permissions

-- The two nested loops that add the permissions of each role.
unfoldable pub add_roles : List AdminMembershipRole → List AdminPermission → List AdminPermission
add_roles [] permissions = permissions
add_roles (role ∷ roles) permissions = add_roles roles (permissions ++ admin_role_permissions role)

abbrev pub is_super_jwt : JwtRole → Bool
is_super_jwt super_admin = true
is_super_jwt campus_admin = false

abbrev pub membership_of : JwtRole → AdminMembershipRole
membership_of super_admin = super_admin
membership_of campus_admin = campus_admin

abbrev pub effective_roles : List AdminMembershipRole → JwtRole → List AdminMembershipRole
effective_roles [] jwt_role = membership_of jwt_role ∷ []
effective_roles (role ∷ roles) jwt_role = role ∷ roles

unfoldable pub resolve_admin_permissions : List AdminMembershipRole → JwtRole → List AdminPermission
unfolding add_roles
resolve_admin_permissions membership_roles jwt_role =
    if is_super_jwt jwt_role || any is_super membership_roles
    then all_permissions
    else add_roles (effective_roles membership_roles jwt_role) (read ∷ [])
