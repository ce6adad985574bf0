-- ===== src/Domain/AdminPermissions/Grants.antt =====
-- Which permissions an administrator has: src/domain/admin-permissions.ts.
use mathlib.Core.List.{Memᴰ}
use mathlib.Core.Path.{subst}
use mealdirectbackend.Common.{
  Bool-cases, ap, inl, inr, ◌≡◌, ◌≢◌, refl, ◌⊎◌, ◌↔◌, List, [], ◌∷◌, ◌++◌, Bool, true, false, arith,
  ◌==◌, ◌||◌, any,
}
use mealdirectbackend.Domain.AdminPermissions.{
  AdminMembershipRole, AdminPermission, JwtRole, permission_index, all_permissions,
  admin_role_permissions, is_super, has, add_roles, membership_of, effective_roles,
  resolve_admin_permissions, read, admin_manage, users_manage, riders_manage, vendors_manage,
  super_admin, campus_admin, finance_admin, operations_admin, support_admin, readonly_admin,
}

any-append :
    {A : Type 0} (p : A → Bool) (xs ys : List A) → any p (xs ++ ys) ≡ (any p xs || any p ys)
any-append p [] ys = refl
any-append p (x ∷ xs) ys = ground (arith, any-append p xs ys)

has-append :
    (p : AdminPermission) (xs ys : List AdminPermission) → has p (xs ++ ys) ≡ (has p xs || has p ys)
unfolding has
has-append p xs ys = any-append (λ q. permission_index q == permission_index p) xs ys

has-add_roles :
    (p : AdminPermission) (roles : List AdminMembershipRole) (permissions : List AdminPermission)
    → has p (add_roles roles permissions)
      ≡ (has p permissions || any (λ r. has p (admin_role_permissions r)) roles)
unfolding add_roles
has-add_roles p [] permissions = ground arith
has-add_roles p (role ∷ roles) permissions = ground (
  arith,
  has-add_roles p roles (permissions ++ admin_role_permissions role),
  has-append p permissions (admin_role_permissions role),
)

has-all : (p : AdminPermission) → has p all_permissions ≡ true
unfolding has
has-all p = ground arith

has-read : (p : AdminPermission) → has p (read ∷ []) ≡ (permission_index read == permission_index p)
unfolding has
has-read p = ground arith

has-resolve_admin_permissions :
    (p : AdminPermission) (roles : List AdminMembershipRole) (jwt_role : JwtRole)
    → (has p (resolve_admin_permissions roles jwt_role) ≡ true) ↔ (
        (jwt_role ≡ JwtRole.super_admin)
        ⊎ (any is_super roles ≡ true)
        ⊎ (p ≡ read)
        ⊎ (any (λ r. has p (admin_role_permissions r)) (effective_roles roles jwt_role) ≡ true))
unfolding resolve_admin_permissions
has-resolve_admin_permissions p roles jwt_role =
    ground
      (arith, has-all p, has-read p, has-add_roles p (effective_roles roles jwt_role) (read ∷ []))

-- Further memberships never take a permission away from an administrator who has one.
pub resolve_admin_permissions_mono :
    (p : AdminPermission) (roles more : List AdminMembershipRole) (jwt_role : JwtRole)
    → roles ≢ []
    → has p (resolve_admin_permissions roles jwt_role) ≡ true
    → has p (resolve_admin_permissions (roles ++ more) jwt_role) ≡ true
resolve_admin_permissions_mono p [] more jwt_role ne h = absurd (ne refl)
resolve_admin_permissions_mono p (role ∷ roles) more jwt_role ne h = ground (
  arith,
  has-resolve_admin_permissions p (role ∷ roles) jwt_role,
  has-resolve_admin_permissions p ((role ∷ roles) ++ more) jwt_role,
  any-append is_super roles more,
  any-append (λ (r : AdminMembershipRole). has p (admin_role_permissions r)) roles more,
)

-- What each role is for. A super administrator may do everything; a campus administrator everything
-- but to manage administrators; a finance administrator deals with money, and operations with vendors
-- and riders; the other two only read, as all do.
abbrev pub Carries : AdminMembershipRole → AdminPermission → Type 0
Carries super_admin p = Unit
Carries campus_admin p = p ≢ admin_manage
Carries finance_admin p =
    (p ≢ admin_manage) × (p ≢ users_manage) × (p ≢ riders_manage) × (p ≢ vendors_manage)
Carries operations_admin p = (p ≡ read) ⊎ (p ≡ vendors_manage) ⊎ (p ≡ riders_manage)
Carries support_admin p = p ≡ read
Carries readonly_admin p = p ≡ read

differs : (p q : AdminPermission) → (permission_index p == permission_index q) ≡ false → p ≢ q
differs p q h e = cc (h, ap (λ x. permission_index x == permission_index q) e, index_self q)
  where
    index_self : (q : AdminPermission) → (permission_index q == permission_index q) ≡ true
    index_self q = ground arith

has-Carries :
    (r : AdminMembershipRole) (p : AdminPermission)
    → (has p (admin_role_permissions r) ≡ true) ↔ Carries r p
unfolding has admin_role_permissions
has-Carries super_admin p = ((λ h. tt), (λ c. ground arith))
has-Carries campus_admin p = ((λ h e. ground arith), (λ c. ground (arith, c)))
has-Carries finance_admin p = (
  λ h. ((λ e. ground arith), (λ e. ground arith), (λ e. ground arith), (λ e. ground arith)),
  λ (a, u, r, v). ground (arith, a, u, r, v),
)
has-Carries operations_admin p = ((λ h. ground arith), (λ c. ground arith))
has-Carries support_admin p = ((λ h. ground arith), (λ c. ground arith))
has-Carries readonly_admin p = ((λ h. ground arith), (λ c. ground arith))

any_mem :
    (c : AdminMembershipRole → Bool) (roles : List AdminMembershipRole)
    → (any c roles ≡ true) ↔ ((r : AdminMembershipRole) × Memᴰ r roles × (c r ≡ true))
any_mem c roles = (found roles, (λ (r, m, h). holds roles r m h))
  where
    found :
        (roles : List AdminMembershipRole)
        → any c roles ≡ true
        → (r : AdminMembershipRole) × Memᴰ r roles × (c r ≡ true)
    found [] h = cc h
    found (r ∷ roles) h = elim (Bool-cases (c r)) [
      | inl e ↦ (r, Memᴰ.head refl, e)
      | inr e ↦ let (r', m, e') = found roles (rw e at h) in (r', Memᴰ.tail m, e')
    ]

    holds :
        (roles : List AdminMembershipRole) (r : AdminMembershipRole)
        → Memᴰ r roles
        → c r ≡ true
        → any c roles ≡ true
    holds [] r m h = elim m [ ]
    holds (x ∷ roles) r (Memᴰ.head e) h = let h' : c x ≡ true = cc (ap c e, h) in rw h' refl
    holds (x ∷ roles) r (Memᴰ.tail m) h = ground (arith, holds roles r m h)

token_cases : (t : JwtRole) → (t ≡ JwtRole.super_admin) ⊎ (t ≡ JwtRole.campus_admin)
token_cases JwtRole.super_admin = inl refl
token_cases JwtRole.campus_admin = inr refl

is_super_sound : (r : AdminMembershipRole) → is_super r ≡ true → r ≡ AdminMembershipRole.super_admin
is_super_sound r h = ground arith

-- A permission is granted exactly to super administrators, by the token or by a membership; to
-- everybody if it is to read; to those with a membership whose role carries it; and to those without a
-- membership who are campus administrators by the token, if that role carries it.
pub resolve_admin_permissions_grants :
    (p : AdminPermission) (roles : List AdminMembershipRole) (jwt_role : JwtRole)
    → (has p (resolve_admin_permissions roles jwt_role) ≡ true) ↔ (
        (jwt_role ≡ JwtRole.super_admin)
        ⊎ Memᴰ AdminMembershipRole.super_admin roles
        ⊎ (p ≡ read)
        ⊎ ((r : AdminMembershipRole) × Memᴰ r roles × Carries r p)
        ⊎ ((roles ≡ []) × Carries campus_admin p))
resolve_admin_permissions_grants p roles jwt_role =
    let rules = has-resolve_admin_permissions p roles jwt_role in
    let carriers = any_mem (λ r. has p (admin_role_permissions r)) roles in
    (
      λ h. elim (rules.0 h) [
        | inl s ↦ inl s
        | inr (inl s) ↦
            let (r, m, e) = (any_mem is_super roles).0 s in
            inr (inl (subst (λ x. Memᴰ x roles) (is_super_sound r e) m))
        | inr (inr (inl e)) ↦ inr (inr (inl e))
        | inr (inr (inr c)) ↦ by_roles roles c
      ],
      λ granted. elim granted [
        | inl s ↦ rules.1 (inl s)
        | inr (inl m) ↦
            rules.1
              (inr (inl ((any_mem is_super roles).1 (AdminMembershipRole.super_admin, m, refl))))
        | inr (inr (inl e)) ↦ rules.1 (inr (inr (inl e)))
        | inr (inr (inr (inl (r, m, c)))) ↦
            rules.1 (inr (inr (inr (by_member roles r m ((has-Carries r p).1 c)))))
        | inr (inr (inr (inr (e, c)))) ↦
            rules.1 (by_none jwt_role refl e ((has-Carries campus_admin p).1 c))
      ],
    )
  where
    by_member :
        (roles : List AdminMembershipRole) (r : AdminMembershipRole)
        → Memᴰ r roles
        → has p (admin_role_permissions r) ≡ true
        → any (λ r. has p (admin_role_permissions r)) (effective_roles roles jwt_role) ≡ true
    by_member [] r m h = elim m [ ]
    by_member (x ∷ roles) r m h =
        (any_mem (λ r. has p (admin_role_permissions r)) (x ∷ roles)).1 (r, m, h)

    by_none :
        (t : JwtRole)
        → jwt_role ≡ t
        → roles ≡ []
        → has p (admin_role_permissions campus_admin) ≡ true
        → (jwt_role ≡ JwtRole.super_admin)
          ⊎ (any is_super roles ≡ true)
          ⊎ (p ≡ read)
          ⊎ (any (λ r. has p (admin_role_permissions r)) (effective_roles roles jwt_role) ≡ true)
    by_none JwtRole.super_admin e empty h = inl e
    by_none JwtRole.campus_admin e empty h = inr (inr (inr (rw (empty, e, h) refl)))

    by_roles :
        (roles : List AdminMembershipRole)
        → any (λ r. has p (admin_role_permissions r)) (effective_roles roles jwt_role) ≡ true
        → (jwt_role ≡ JwtRole.super_admin)
          ⊎ Memᴰ AdminMembershipRole.super_admin roles
          ⊎ (p ≡ read)
          ⊎ ((r : AdminMembershipRole) × Memᴰ r roles × Carries r p)
          ⊎ ((roles ≡ []) × Carries campus_admin p)
    by_roles [] c = elim (token_cases jwt_role) [
      | inl e ↦ inl e
      | inr e ↦
          inr (inr (inr (inr (refl, (has-Carries campus_admin p).0 (ground (arith, rw e at c))))))
    ]
    by_roles (x ∷ roles) c =
        let (r, m, e) = (any_mem (λ r. has p (admin_role_permissions r)) (x ∷ roles)).0 c in
        inr (inr (inr (inl (r, m, (has-Carries r p).0 e))))

carries :
    (r : AdminMembershipRole)
    → is_super r ≡ false
    → has admin_manage (admin_role_permissions r) ≡ false
unfolding has admin_role_permissions
carries r h = ground arith

any_carries :
    (roles : List AdminMembershipRole)
    → any is_super roles ≡ false
    → any (λ r. has admin_manage (admin_role_permissions r)) roles ≡ false
any_carries [] h = refl
any_carries (r ∷ roles) h = ground (arith, carries r, any_carries roles)

-- Only super administrators may manage administrators.
pub admin_manage_super :
    (roles : List AdminMembershipRole) (jwt_role : JwtRole)
    → has admin_manage (resolve_admin_permissions roles jwt_role) ≡ true
    → (jwt_role ≡ JwtRole.super_admin) ⊎ (any is_super roles ≡ true)
admin_manage_super [] jwt_role h = ground (
  arith,
  has-resolve_admin_permissions admin_manage [] jwt_role,
  carries (membership_of jwt_role),
)
admin_manage_super (role ∷ roles) jwt_role h = ground (
  arith,
  has-resolve_admin_permissions admin_manage (role ∷ roles) jwt_role,
  any_carries (role ∷ roles),
)
