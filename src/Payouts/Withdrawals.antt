-- ===== src/Payouts/Withdrawals.antt =====
-- Withdrawals on demand: src/modules/settlements/withdrawals.service.ts. The stored function
-- `request_withdrawal`, which creates the settlement, and the queries are parameters; each access to
-- the database may fail.
pub mod Sending
pub mod Release
pub mod Outcome
use mealdirectbackend.Common.{
  ℕ, ◌+◌, List, [], ◌∷◌, Bool, true, false, Option, none, some, Result, ok, err, String,
  if◌then◌else◌, ◌&&◌, not, ℤ, pos, leb_ℤ,
}
use mealdirectbackend.Domain.Authorization.{
  ActorRole, customer, vendor, rider, campus_admin, super_admin,
}
use mealdirectbackend.Domain.PaymentEvents.{is_empty}
use mealdirectbackend.Payouts.Store.{StoredStatus, PayoutTransferRecord, Store}
use mealdirectbackend.Payouts.Client.{
  HttpError, forbidden, not_found, bad_request, payout_unavailable, Thrown, http, other, ApiCall,
  Reply, World, M, pure, throw, ◌>>=◌, query, update, access,
}
use mealdirectbackend.Payouts.Service.{pay_withdrawal}

pub data WithdrawalBeneficiary : Type 0 where
  of_vendor : String → WithdrawalBeneficiary
  of_rider : String → WithdrawalBeneficiary

pub record WithdrawalBalance : Type 0 where
  pub available_kobo : ℤ
  pub pending_kobo : ℤ
  pub processing_kobo : ℕ
  pub minimum_kobo : ℕ
  pub hold_minutes : ℕ
  pub payout_account_ready : Bool
  pub enabled : Bool

-- What `getBalance` returns: the balance, and whether it can be withdrawn.
pub record WithdrawalView : Type 0 where
  pub balance : WithdrawalBalance
  pub can_withdraw : Bool

pub data WithdrawalRefusal : Type 0 where
  disabled no_payout_account below_minimum : WithdrawalRefusal

pub data WithdrawalRequestOutcome : Type 0 where
  created : (settlement_id : String) (amount_kobo : ℕ) → WithdrawalRequestOutcome
  refused : WithdrawalRefusal → WithdrawalRequestOutcome

pub data WithdrawalStatus : Type 0 where
  pending success processing : WithdrawalStatus

pub record WithdrawalResult : Type 0 where
  pub settlement_id : String
  pub amount_kobo : ℕ
  pub status : WithdrawalStatus
  pub reference : Option String

pub record WithdrawalActor : Type 0 where
  pub user_id : String
  pub role : ActorRole
  pub vendor_id : Option String
  pub rider_id : Option String

pub record WithdrawalsRepository : Type 0 where
  pub has_vendor_access : String → String → Store → Bool
  pub find_rider_id_for_user : String → Option String → Store → Option String
  pub get_balance : WithdrawalBeneficiary → Store → WithdrawalBalance
  pub request_withdrawal : WithdrawalBeneficiary → String → Store → WithdrawalRequestOutcome × Store

module _ {P : Type 0} where
  unfoldable pub check_vendor : String → Bool → M P WithdrawalBeneficiary
  check_vendor id true = pure (of_vendor id)
  check_vendor id false = throw (http forbidden)

  unfoldable pub check_rider : Option String → M P WithdrawalBeneficiary
  check_rider none = throw (http not_found)
  check_rider (some id) = pure (of_rider id)

module _ (repository : WithdrawalsRepository) {P : Type 0} where
  unfoldable pub resolve_vendor : String → Option String → M P WithdrawalBeneficiary
  resolve_vendor user_id none w = throw (http forbidden) w
  resolve_vendor user_id (some id) w =
      if is_empty id
      then throw (http forbidden) w
      else (query (repository.has_vendor_access id user_id) >>= check_vendor id) w

  unfoldable pub resolve_beneficiary : WithdrawalActor → M P WithdrawalBeneficiary
  resolve_beneficiary actor = elim actor.role [
    | vendor ↦ resolve_vendor actor.user_id actor.vendor_id
    | rider ↦ query (repository.find_rider_id_for_user actor.user_id actor.rider_id) >>= check_rider
    | customer ↦ throw (http forbidden)
    | campus_admin ↦ throw (http forbidden)
    | super_admin ↦ throw (http forbidden)
  ]

abbrev pub view_of : Bool → WithdrawalBalance → WithdrawalView
view_of payouts_enabled b = record {
  balance = record b { enabled = b.enabled && payouts_enabled };
  can_withdraw =
      b.enabled
      && payouts_enabled
      && b.payout_account_ready
      && leb_ℤ (pos b.minimum_kobo) b.available_kobo;
}

abbrev pub refusal_error : WithdrawalRefusal → HttpError
refusal_error disabled = forbidden
refusal_error no_payout_account = bad_request
refusal_error below_minimum = bad_request

-- The end of `requestWithdrawal`, with the transfer, if its outcome is known.
unfoldable pub withdrawal_result :
    String → ℕ → Option PayoutTransferRecord → Result Thrown WithdrawalResult
withdrawal_result id amount none =
    ok (record { settlement_id = id; amount_kobo = amount; status = processing; reference = none })
withdrawal_result id amount (some t) = elim t.status [
  | StoredStatus.failed ↦ err (http payout_unavailable)
  | StoredStatus.reversed ↦ err (http payout_unavailable)
  | StoredStatus.pending ↦ ok (record {
    settlement_id = id;
    amount_kobo = amount;
    status = pending;
    reference = some t.reference;
  })
  | StoredStatus.success ↦ ok (record {
    settlement_id = id;
    amount_kobo = amount;
    status = success;
    reference = some t.reference;
  })
]

abbrev pub return : {P A : Type 0} → Result Thrown A → M P A
return r w = (r, w)

module _ {P : Type 0} (digits : ℕ → String) (send : ApiCall → P → Reply × P)
    (configured payouts_enabled : Bool) where
  unfoldable pub pay_outcome : String → WithdrawalRequestOutcome → M P WithdrawalResult
  pay_outcome user_id (refused r) = throw (http (refusal_error r))
  pay_outcome user_id (created id amount) =
      pay_withdrawal digits send configured payouts_enabled id user_id >>= λ t.
      return (withdrawal_result id amount t)

module _ (repository : WithdrawalsRepository) {P : Type 0} (digits : ℕ → String)
    (send : ApiCall → P → Reply × P) (configured payouts_enabled : Bool) where
  unfoldable pub request_for_beneficiary : String → WithdrawalBeneficiary → M P WithdrawalResult
  request_for_beneficiary user_id beneficiary w =
      if payouts_enabled
      then (access (repository.request_withdrawal beneficiary user_id)
            >>= pay_outcome digits send configured payouts_enabled user_id)
          w
      else throw (http forbidden) w

  unfoldable pub request_withdrawal : WithdrawalActor → M P WithdrawalResult
  request_withdrawal actor =
      resolve_beneficiary repository actor >>= request_for_beneficiary actor.user_id

module _ (repository : WithdrawalsRepository) {P : Type 0} (payouts_enabled : Bool) where
  unfoldable pub get_balance : WithdrawalActor → M P WithdrawalView
  get_balance actor = resolve_beneficiary repository actor >>= λ b.
      query (repository.get_balance b) >>= λ balance. pure (view_of payouts_enabled balance)
