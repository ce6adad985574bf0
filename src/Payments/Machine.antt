-- ===== src/Payments/Machine.antt =====
-- The monad of the payment and refund services, src/modules/payments: a state, the provider's side,
-- the audit log (src/common/audit/audit.service.ts), and accesses to the database that may fail.
pub mod Accesses
use mealdirectbackend.Common.{
  ◌≡◌, refl, ◌⊎◌, inl, inr, List, [], ◌∷◌, Bool, true, false, Option, none, some, Result, ok, err,
  String, if◌then◌else◌, Json, Fields, field_of, number, Num, ◌∙◌,
}
use mealdirectbackend.Domain.Authorization.{
  ActorRole, customer, vendor, rider, campus_admin, super_admin,
}
use mealdirectbackend.Payouts.Client.{Thrown, http, other, forbidden}

pub record AuthenticatedActor : Type 0 where
  pub user_id : String
  pub role : ActorRole
  pub email : Option String
  pub campus_id : Option String

-- What an audit entry tells apart: who did what to which entity.
pub record AuditEntry : Type 0 where
  pub actor_user_id : String
  pub action : String
  pub entity_id : String

-- `outages` tells for each coming access to the database whether it fails (none behind the end).
pub record World (S P : Type 0) : Type 0 where
  pub state : S
  pub provider : P
  pub audited : List AuditEntry
  pub outages : List Bool

abbrev pub M : Type 0 → Type 0 → Type 0 → Type 0
M S P A = World S P → Result Thrown A × World S P

module _ {S P : Type 0} where
  abbrev pub pure : {A : Type 0} → A → M S P A
  pure a w = (ok a, w)

  abbrev pub throw : {A : Type 0} → Thrown → M S P A
  throw e w = (err e, w)

  abbrev pub resume :
      {A B : Type 0} → Result Thrown A × World S P → (A → M S P B) → Result Thrown B × World S P
  resume (ok a, w) f = f a w
  resume (err e, w) f = (err e, w)

  infixl 5 ◌>>=◌ ◌>>◌
  abbrev pub ◌>>=◌ : {A B : Type 0} → M S P A → (A → M S P B) → M S P B
  ◌>>=◌ m f w = resume (m w) f

  abbrev pub ◌>>◌ : {B : Type 0} → M S P (Unit {0}) → M S P B → M S P B
  m >> k = m >>= λ _. k

  -- `if (c) throw e`
  abbrev pub throw_if : Bool → Thrown → M S P (Unit {0})
  throw_if true e = throw e
  throw_if false e = pure tt

  -- An access to the database; one that fails, or whose statement raises an error, changes nothing.
  unfoldable pub access : {A : Type 0} → (S → Option (A × S)) → M S P A
  access f w = elim w.outages [
    | [] ↦ reached (f w.state) []
    | down ∷ later ↦ elim down [
      | true ↦ (err other, record w { outages = later })
      | false ↦ reached (f w.state) later
    ]
  ]
    where
      reached : {A : Type 0} → Option (A × S) → List Bool → Result Thrown A × World S P
      reached none later = (err other, record w { outages = later })
      reached (some (a, s)) later = (ok a, record w { state = s; outages = later })

  -- `AuditService.record`: it swallows its own errors.
  unfoldable pub audit : AuditEntry → M S P (Unit {0})
  audit entry w = elim w.outages [
    | [] ↦ (ok tt, record w { audited = entry ∷ w.audited })
    | down ∷ later ↦ elim down [
      | true ↦ (ok tt, record w { outages = later })
      | false ↦ (ok tt, record w { audited = entry ∷ w.audited; outages = later })
    ]
  ]

-- `adminCampusScope`: none is every campus.
unfoldable pub admin_campus_scope : AuthenticatedActor → Result Thrown (Option String)
admin_campus_scope actor = elim actor.role [
  | super_admin ↦ ok none
  | campus_admin ↦ elim actor.campus_id [ some id ↦ ok (some id) | none ↦ err (http forbidden) ]
  | _ ↦ err (http forbidden)
]

-- A result that was computed before.
abbrev pub lift : {S P A : Type 0} → Result Thrown A → M S P A
lift r w = (r, w)

-- `numberFrom`
abbrev pub number_from : Option Json → Option Num
number_from (some (number n)) = some n
number_from _ = none
