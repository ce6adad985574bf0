-- ===== src/Payments/Verification/Lookup.antt =====
-- The payment that an administrator may act on: src/modules/payments/payments.service.ts,
-- `getAdminPayment`.
use mealdirectbackend.Common.{
  ◌≡◌, refl, ◌∙◌, ◌⊎◌, inl, inr, Option, none, some, Result, ok, err, String,
}
use mealdirectbackend.Payouts.Client.{Thrown, http}
use mealdirectbackend.Payments.Machine.{AuthenticatedActor, World, access}
use mealdirectbackend.Payments.Machine.Accesses.{access_cases}
use mealdirectbackend.Payments.Refunds.{Books, Payment}
use mealdirectbackend.Payments.Verification.{get_admin_payment}
use mealdirectbackend.Payments.Machine.{admin_campus_scope}
use mealdirectbackend.Payments.Rows.{find_admin_payment_by_id}
use mealdirectbackend.Payouts.Client.{not_found}

-- The payment stands in the scope of the actor, who administers it.
abbrev pub FoundPayment : AuthenticatedActor → String → Payment → Books → Type 0
FoundPayment actor id payment b =
    (scope : Option String) × (admin_campus_scope actor ≡ ok scope)
    × (find_admin_payment_by_id id scope b ≡ some payment)

module _ {P : Type 0} (actor : AuthenticatedActor) (id : String) (w : World Books P) where
  abbrev pub FetchedPayment : Type 0
  FetchedPayment =
      ((payment : Payment) × (w' : World Books P) × (get_admin_payment actor id w
          ≡ (ok payment, w'))
        × (w'.state ≡ w.state)
        × FoundPayment actor id payment w.state)
      ⊎ ((e : Thrown) × (w' : World Books P) × (get_admin_payment actor id w ≡ (err e, w'))
          × (w'.state ≡ w.state))

  -- The guard of every operation of an administrator on a payment.
  pub get_admin_payment_cases : FetchedPayment
  unfolding get_admin_payment
  get_admin_payment_cases = by_scope (admin_campus_scope actor) refl
    where
      by_row :
          (scope : Option String) (found : Option Payment) (w' : World Books P)
          → admin_campus_scope actor ≡ ok scope
          → find_admin_payment_by_id id scope w.state ≡ found
          → access (λ b. some (find_admin_payment_by_id id scope b, b)) w ≡ (ok found, w')
          → w'.state ≡ w.state
          → FetchedPayment
      by_row scope none w' s f a same =
          inr (http not_found, w', rw (s, a, get_admin_payment) refl, same)
      by_row scope (some p) w' s f a same =
          inl (p, w', rw (s, a, get_admin_payment) refl, same, (scope, s, f))

      by_scope : (s : Result Thrown (Option String)) → admin_campus_scope actor ≡ s → FetchedPayment
      by_scope (err e) s = inr (e, w, rw s refl, refl)
      by_scope (ok scope) s =
          elim (access_cases (λ (b : Books). some (find_admin_payment_by_id id scope b, b)) w) [
            | inl (found, b, w', f, a, same) ↦ by_row scope found w' s (cc f) a (same ∙ cc f)
            | inr (e, w', a, same) ↦ inr (e, w', rw (s, a) refl, same)
          ]
