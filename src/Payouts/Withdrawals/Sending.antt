-- ===== src/Payouts/Withdrawals/Sending.antt =====
-- What a request for a withdrawal sends: src/modules/settlements/withdrawals.service.ts.
use mathlib.Core.Path.{subst}
use Prim.Native.String.{◌++◌}
use mealdirectbackend.Common.{
  ℕ, ◌≡◌, refl, sym, ap, ◌∙◌, ◌⊎◌, inl, inr, List, [], ◌∷◌, Bool, true, false, Option, none, some,
  Result, ok, err, String, if◌then◌else◌, Bool-cases, Option-cases,
}
use mealdirectbackend.Domain.Authorization.{
  ActorRole, customer, vendor, rider, campus_admin, super_admin,
}
use mealdirectbackend.Domain.PaymentEvents.{is_empty}
use mealdirectbackend.Payouts.Store.{PayoutTransferRecord, Store}
use mealdirectbackend.Payouts.Client.{
  Thrown, http, other, forbidden, TransferRequest, ApiCall, Reply, World, resume, access,
  fetch_transfer,
}
use mealdirectbackend.Payouts.Service.{pay_to_settlement, pay_withdrawal, recover_withdrawal}
use mealdirectbackend.Payouts.Service.Sending.{
  resume-sent, fetch_transfer-sent, resolve_withdrawal-sent, pay_to_settlement_sends, IsDue,
}
use mealdirectbackend.Payouts.Withdrawals.{
  WithdrawalActor, WithdrawalsRepository, WithdrawalBeneficiary, of_vendor, of_rider,
  WithdrawalRequestOutcome, created, refused, WithdrawalResult, check_vendor, resolve_vendor,
  check_rider, resolve_beneficiary, pay_outcome, request_for_beneficiary, request_withdrawal,
  withdrawal_result, return,
}

if_true {ℓ} : {A : Type ℓ} (b : Bool) (x y : A) → b ≡ true → (if b then x else y) ≡ x
if_true true x y e = refl
if_true false x y e = cc e

module _ {P : Type 0} (send : ApiCall → P → Reply × P) (configured : Bool) where
  recover_withdrawal-sent :
      (id by : String) (x : Result Thrown PayoutTransferRecord × World P)
      → (recover_withdrawal send configured id by x).1.sent ≡ x.1.sent
  unfolding recover_withdrawal
  recover_withdrawal-sent id by (ok row, w) = refl
  recover_withdrawal-sent id by (err other, w) = refl
  recover_withdrawal-sent id by (err (http e), w) =
      let (r, w') = fetch_transfer send configured (id ++ "-a1") w in
      resolve_withdrawal-sent id by r w' ∙ fetch_transfer-sent send configured (id ++ "-a1") w

module _ {P : Type 0} where
  -- An access to the database either runs, or fails and changes nothing.
  access_cases :
      {A : Type 0} (f : Store → A × Store) (w : World P)
      → ((w' : World P) × (access f w ≡ (ok (f w.store).0, w'))
          × (w'.store ≡ (f w.store).1)
          × (w'.sent ≡ w.sent))
        ⊎ ((w' : World P) × (access f w ≡ (err other, w')) × (w'.sent ≡ w.sent))
  access_cases f w = go w.outages refl
    where
      go :
          (o : List Bool)
          → w.outages ≡ o
          → ((w' : World P) × (access f w ≡ (ok (f w.store).0, w'))
              × (w'.store ≡ (f w.store).1)
              × (w'.sent ≡ w.sent))
            ⊎ ((w' : World P) × (access f w ≡ (err other, w')) × (w'.sent ≡ w.sent))
      go [] e = inl (record w { store = (f w.store).1 }, rw e refl, refl, refl)
      go (true ∷ later) e = inr (record w { outages = later }, rw e refl, refl)
      go (false ∷ later) e =
          inl (record w { store = (f w.store).1; outages = later }, rw e refl, refl, refl)

-- Whom an actor may withdraw for: a vendor's account that it has access to, or itself as a rider.
abbrev pub IsEntitled :
    WithdrawalsRepository → WithdrawalActor → Store → WithdrawalBeneficiary → Type 0
IsEntitled repository actor s (of_vendor id) =
    (actor.role ≡ vendor)
    × (actor.vendor_id ≡ some id)
    × (repository.has_vendor_access id actor.user_id s ≡ true)
IsEntitled repository actor s (of_rider id) =
    (actor.role ≡ rider)
    × (repository.find_rider_id_for_user actor.user_id actor.rider_id s ≡ some id)

module _ (repository : WithdrawalsRepository) {P : Type 0} (actor : WithdrawalActor) where
  -- Resolving answers with someone the actor is entitled to, or throws; it changes nothing.
  abbrev Resolved : World P → Result Thrown WithdrawalBeneficiary × World P → Type 0
  Resolved w run =
      (run.1.sent ≡ w.sent)
      × (((e : Thrown) × (run.0 ≡ err e))
          ⊎ ((b : WithdrawalBeneficiary) × (run.0 ≡ ok b)
              × (run.1.store ≡ w.store)
              × IsEntitled repository actor w.store b))

  resolve_vendor-Resolved :
      (o : Option String) (w : World P)
      → actor.role ≡ vendor
      → actor.vendor_id ≡ o
      → Resolved w (resolve_vendor repository actor.user_id o w)
  unfolding resolve_vendor check_vendor
  resolve_vendor-Resolved none w role own = (refl, inl (_, refl))
  resolve_vendor-Resolved (some id) w role own = elim (Bool-cases (is_empty id)) [
    | inl e ↦ rw e (refl, inl (_, refl))
    | inr e ↦ elim (access_cases (λ s. (repository.has_vendor_access id actor.user_id s, s)) w) [
      | inr (w1, e1, s1) ↦ rw (e, e1) (s1, inl (other, refl))
      | inl (w1, e1, st, s1) ↦
          elim (Bool-cases (repository.has_vendor_access id actor.user_id w.store)) [
            | inl may ↦ rw (e, e1, may) (s1, inr (of_vendor id, refl, st, (role, own, may)))
            | inr not_may ↦ rw (e, e1, not_may) (s1, inl (_, refl))
          ]
    ]
  ]

  resolve_rider-Resolved :
      (w : World P)
      → actor.role ≡ rider
      → Resolved w (
          resume
            (access (λ s. (repository.find_rider_id_for_user actor.user_id actor.rider_id s, s)) w)
            check_rider)
  unfolding check_rider
  resolve_rider-Resolved w role =
      elim (access_cases
        (λ s. (repository.find_rider_id_for_user actor.user_id actor.rider_id s, s)) w) [
          | inr (w1, e1, s1) ↦ rw e1 (s1, inl (other, refl))
          | inl (w1, e1, st, s1) ↦
              elim (Option-cases
                (repository.find_rider_id_for_user actor.user_id actor.rider_id w.store)) [
                  | inl absent ↦ rw (e1, absent) (s1, inl (_, refl))
                  | inr (id, found) ↦
                      rw (e1, found) (s1, inr (of_rider id, refl, st, (role, found)))
                ]
        ]

  resolve_beneficiary-Resolved : (w : World P) → Resolved w (resolve_beneficiary repository actor w)
  unfolding resolve_beneficiary
  resolve_beneficiary-Resolved w =
      let (run, e, resolved) = by_role actor.role refl in subst (Resolved w) (sym e) resolved
    where
      by_role :
          (r : ActorRole)
          → actor.role ≡ r
          → (run : Result Thrown WithdrawalBeneficiary × World P) × (resolve_beneficiary repository
                actor w
              ≡ run)
            × Resolved w run
      by_role customer e = (
        (err (http forbidden), w),
        rw (e, resolve_beneficiary) refl,
        (refl, inl (http forbidden, refl)),
      )
      by_role campus_admin e = (
        (err (http forbidden), w),
        rw (e, resolve_beneficiary) refl,
        (refl, inl (http forbidden, refl)),
      )
      by_role super_admin e = (
        (err (http forbidden), w),
        rw (e, resolve_beneficiary) refl,
        (refl, inl (http forbidden, refl)),
      )
      by_role vendor e = (
        resolve_vendor repository actor.user_id actor.vendor_id w,
        rw (e, resolve_beneficiary) refl,
        resolve_vendor-Resolved actor.vendor_id w e refl,
      )
      by_role rider e = (
        resume
            (access (λ s. (repository.find_rider_id_for_user actor.user_id actor.rider_id s, s)) w)
            check_rider,
        rw (e, resolve_beneficiary) refl,
        resolve_rider-Resolved w e,
      )

module _ (repository : WithdrawalsRepository) {P : Type 0} (digits : ℕ → String)
    (send : ApiCall → P → Reply × P) (configured payouts_enabled : Bool) where
  -- What was sent behind a request: nothing, or one transfer that was due for a settlement that the
  -- stored function created, on the tables as they were, for someone the actor is entitled to.
  abbrev pub SentByRequest : WithdrawalActor → World P → World P → Type 0
  SentByRequest actor w w' =
      (w'.sent ≡ w.sent)
      ⊎ ((r : TransferRequest) × (v : World P) × (b : WithdrawalBeneficiary) × (id : String)
          × (amount : ℕ) × (payouts_enabled ≡ true)
          × IsEntitled repository actor w.store b
          × (repository.request_withdrawal b actor.user_id w.store ≡ (created id amount, v.store))
          × (v.sent ≡ w.sent)
          × IsDue digits send configured id v r
          × (w'.sent ≡ r ∷ w.sent))

  pay_outcome-sent :
      (actor : WithdrawalActor) (o : WithdrawalRequestOutcome) (w v : World P)
      (b : WithdrawalBeneficiary)
      → v.sent ≡ w.sent
      → IsEntitled repository actor w.store b
      → (repository.request_withdrawal b actor.user_id w.store) ≡ (o, v.store)
      → SentByRequest actor w
          (pay_outcome digits send configured payouts_enabled actor.user_id o v).1
  unfolding pay_outcome pay_withdrawal
  pay_outcome-sent actor (refused r) w v b q own e = inl q
  pay_outcome-sent actor (created id amount) w v b q own e =
      let x = pay_to_settlement digits send configured payouts_enabled id (some actor.user_id) v in
      let after =
        resume-sent (recover_withdrawal send configured id actor.user_id x)
          (λ t. return (withdrawal_result id amount t)) (λ a v. refl)
        ∙ recover_withdrawal-sent send configured id actor.user_id x in
      elim (pay_to_settlement_sends digits send configured payouts_enabled id (some actor.user_id)
        v) [
          | inl same ↦ inl (after ∙ same ∙ q)
          | inr (r, on, due, one) ↦
              inr (r, v, b, id, amount, on, own, e, q, due, after ∙ one ∙ ap (λ x. r ∷ x) q)
        ]

  request_for_beneficiary-sent :
      (actor : WithdrawalActor) (b : WithdrawalBeneficiary) (w v : World P)
      → v.sent ≡ w.sent
      → v.store ≡ w.store
      → IsEntitled repository actor w.store b
      → SentByRequest actor w
          (request_for_beneficiary repository digits send configured payouts_enabled actor.user_id b
            v).1
  unfolding request_for_beneficiary
  request_for_beneficiary-sent actor b w v q same own = elim (Bool-cases payouts_enabled) [
    | inr off ↦ inl (rw off q)
    | inl on ↦
        let f = repository.request_withdrawal b actor.user_id in
        let after = pay_outcome digits send configured payouts_enabled actor.user_id in
        elim (access_cases f v) [
          | inr (v', e, q') ↦ inl (
              ap (λ (x : Result Thrown WithdrawalResult × World P). x.1.sent)
                (if_true payouts_enabled _ _ on ∙ ap (λ x. resume x after) e)
              ∙ q'
              ∙ q)
          | inl (v', e, st, q') ↦
              subst (λ (x : Result Thrown WithdrawalResult × World P). SentByRequest actor w x.1)
                (sym (if_true payouts_enabled _ _ on ∙ ap (λ x. resume x after) e))
                (pay_outcome-sent actor (f v.store).0 w v' b (q' ∙ q) own
                  (ap f (sym same) ∙ (λ i. ((f v.store).0, sym st i))))
        ]
  ]

  Resolved-sent :
      (actor : WithdrawalActor) (w : World P) (run : Result Thrown WithdrawalBeneficiary)
      (v : World P)
      → Resolved repository actor w (run, v)
      → SentByRequest actor w
          (resume
            (run, v)
            (request_for_beneficiary repository digits send configured payouts_enabled
              actor.user_id)).1
  Resolved-sent actor w run v (q, inl (e, failed)) = rw failed (inl q)
  Resolved-sent actor w run v (q, inr (b, found, same, own)) =
      rw found (request_for_beneficiary-sent actor b w v q same own)

  -- A request for a withdrawal sends at most one transfer. It sends one only if payouts are enabled and
  -- `request_withdrawal`, on the tables as they were, created a settlement of the actor for a vendor's
  -- account, its own by the token, that it has access to, or for the rider that it is; the transfer is
  -- then due for that settlement, in the tables as that function left them.
  pub request_withdrawal_sends :
      (actor : WithdrawalActor) (w : World P)
      → SentByRequest actor w
          (request_withdrawal repository digits send configured payouts_enabled actor w).1
  unfolding request_withdrawal
  request_withdrawal_sends actor w =
      let x = resolve_beneficiary repository actor w in
      Resolved-sent actor w x.0 x.1 (resolve_beneficiary-Resolved repository actor w)
