-- ===== src/Domain/Authorization.antt =====
-- Who may read an order, manage administrators and see a settlement: src/domain/authorization.ts.
use mealdirectbackend.Common.{
  ◌≡◌, ◌≢◌, refl, ◌⊎◌, Bool, true, false, Option, none, some, arith, String, ap, str_eq, eq_iff,
}

pub data ActorRole : Type 0 where
  customer vendor rider campus_admin super_admin : ActorRole

pub record AuthorizationContext : Type 0 where
  pub actor_id : String
  pub role : ActorRole
  pub campus_id : Option String
  pub vendor_id : Option String
  pub rider_id : Option String

pub record OrderAccessTarget : Type 0 where
  pub customer_id : String
  pub campus_id : String
  pub vendor_id : String
  pub rider_id : Option String

pub record SettlementAccessTarget : Type 0 where
  pub campus_id : String
  pub vendor_id : String

-- `a === b` for a field that may be undefined and an id that is there.
abbrev pub is_id : Option String → String → Bool
is_id none b = false
is_id (some a) b = str_eq a b

-- `a !== undefined && a === b`
abbrev pub same_id : Option String → Option String → Bool
same_id none b = false
same_id (some a) b = is_id b a

unfoldable pub can_read_order : AuthorizationContext → OrderAccessTarget → Bool
can_read_order actor order = elim actor.role [
  | super_admin ↦ true
  | campus_admin ↦ is_id actor.campus_id order.campus_id
  | vendor ↦ is_id actor.vendor_id order.vendor_id
  | rider ↦ same_id actor.rider_id order.rider_id
  | customer ↦ str_eq actor.actor_id order.customer_id
]

unfoldable pub can_manage_admin : AuthorizationContext → Option String → Bool
can_manage_admin actor target_campus_id = elim actor.role [
  | super_admin ↦ true
  | campus_admin ↦ same_id target_campus_id actor.campus_id
  | _ ↦ false
]

unfoldable pub can_access_vendor_settlement : AuthorizationContext → SettlementAccessTarget → Bool
can_access_vendor_settlement actor settlement = elim actor.role [
  | super_admin ↦ true
  | campus_admin ↦ is_id actor.campus_id settlement.campus_id
  | vendor ↦ is_id actor.vendor_id settlement.vendor_id
  | _ ↦ false
]

is_id-eq-true : (o : Option String) (b : String) → is_id o b ≡ true → o ≡ some b
is_id-eq-true none b h = cc
is_id-eq-true (some a) b h = ap some ((eq_iff a b).0 h)

same_id-eq-true :
    (o b : Option String) → same_id o b ≡ true → (i : String) × (o ≡ some i) × (b ≡ some i)
same_id-eq-true none b h = cc
same_id-eq-true (some a) b h = (a, refl, is_id-eq-true b a h)

-- Whoever may manage the administrators of a campus may read each of its orders and see each of its
-- settlements, and conversely a campus administrator who may read an order may manage the
-- administrators of the order's campus.
pub can_manage_admin_scope :
    (actor : AuthorizationContext) (order : OrderAccessTarget) (settlement : SettlementAccessTarget)
    → settlement.campus_id ≡ order.campus_id
    → (can_manage_admin actor (some order.campus_id) ≡ true
        → (can_read_order actor order ≡ true)
          × (can_access_vendor_settlement actor settlement ≡ true))
      × (actor.role ≡ campus_admin
          → can_read_order actor order ≡ true
          → can_manage_admin actor (some order.campus_id) ≡ true)
unfolding can_manage_admin can_read_order can_access_vendor_settlement
can_manage_admin_scope actor order settlement e =
    ((λ h. (ground arith, ground arith)), λ r h. ground arith)

-- Apart from super administrators nobody may read the orders of two customers, campuses, vendors
-- and riders that all differ: an actor is confined to one of each.
pub can_read_order_confined :
    (actor : AuthorizationContext) (a b : OrderAccessTarget)
    → actor.role ≢ super_admin
    → can_read_order actor a ≡ true
    → can_read_order actor b ≡ true
    → (a.customer_id ≡ b.customer_id)
      ⊎ (a.campus_id ≡ b.campus_id)
      ⊎ (a.vendor_id ≡ b.vendor_id)
      ⊎ ((a.rider_id ≡ b.rider_id) × (a.rider_id ≢ none))
unfolding can_read_order
can_read_order_confined actor a b s h k = ground (
  arith,
  is_id-eq-true actor.campus_id a.campus_id,
  is_id-eq-true actor.campus_id b.campus_id,
  is_id-eq-true actor.vendor_id a.vendor_id,
  is_id-eq-true actor.vendor_id b.vendor_id,
  same_id-eq-true actor.rider_id a.rider_id,
  same_id-eq-true actor.rider_id b.rider_id,
  eq_iff actor.actor_id a.customer_id,
  eq_iff actor.actor_id b.customer_id,
)
