-- ===== src/Payments/Machine/Accesses.antt =====
-- How an access to the database ends, and what cannot change the state: the monad of the payment and
-- refund services, src/modules/payments.
use mealdirectbackend.Common.{
  ◌≡◌, refl, ◌⊎◌, inl, inr, List, [], ◌∷◌, Bool, true, false, Option, none, some, ok, err,
}
use mealdirectbackend.Payouts.Client.{Thrown, other}
use mealdirectbackend.Payments.Machine.{AuditEntry, World, access, audit}

module _ {S P : Type 0} where
  -- An access answers, or it throws and changes nothing.
  pub access_cases :
      {A : Type 0} (f : S → Option (A × S)) (w : World S P)
      → ((a : A) × (s : S) × (w' : World S P) × (f w.state ≡ some (a, s))
          × (access f w ≡ (ok a, w'))
          × (w'.state ≡ s))
        ⊎ ((e : Thrown) × (w' : World S P) × (access f w ≡ (err e, w')) × (w'.state ≡ w.state))
  unfolding access
  access_cases {A} f w = by_outage w.outages refl (f w.state) refl
    where
      by_outage :
          (o : List Bool)
          → w.outages ≡ o
          → (r : Option (A × S)) → f w.state ≡ r
          → ((a : A) × (s : S) × (w' : World S P) × (f w.state ≡ some (a, s))
              × (access f w ≡ (ok a, w'))
              × (w'.state ≡ s))
            ⊎ ((e : Thrown) × (w' : World S P) × (access f w ≡ (err e, w')) × (w'.state ≡ w.state))
      by_outage [] e none answer = inr (other, record w { outages = [] }, rw (e, answer) refl, refl)
      by_outage [] e (some (a, s)) answer =
          inl (a, s, record w { state = s; outages = [] }, answer, rw (e, answer) refl, refl)
      by_outage (true ∷ later) e r answer =
          inr (other, record w { outages = later }, rw e refl, refl)
      by_outage (false ∷ later) e none answer =
          inr (other, record w { outages = later }, rw (e, answer) refl, refl)
      by_outage (false ∷ later) e (some (a, s)) answer =
          inl (a, s, record w { state = s; outages = later }, answer, rw (e, answer) refl, refl)

  -- An audit entry never fails the audited action.
  pub audit_ok :
      (entry : AuditEntry) (w : World S P)
      → (w' : World S P) × (audit entry w ≡ (ok tt, w')) × (w'.state ≡ w.state)
  unfolding audit
  audit_ok entry w = by_outage w.outages refl
    where
      by_outage :
          (o : List Bool)
          → w.outages ≡ o
          → (w' : World S P) × (audit entry w ≡ (ok tt, w')) × (w'.state ≡ w.state)
      by_outage [] e = (record w { audited = entry ∷ w.audited }, rw e refl, refl)
      by_outage (true ∷ later) e = (record w { outages = later }, rw e refl, refl)
      by_outage (false ∷ later) e =
          (record w { audited = entry ∷ w.audited; outages = later }, rw e refl, refl)

  -- Without an outage an access answers as the database does.
  pub access_up :
      {A : Type 0} (f : S → Option (A × S)) (w : World S P) {a : A} {s : S}
      → w.outages ≡ []
      → f w.state ≡ some (a, s)
      → access f w ≡ (ok a, record w { state = s; outages = [] })
  unfolding access
  access_up f w up answer = rw (up, answer) refl
