-- ===== src/Payments/Webhook/Money.antt =====
-- What the webhook does with money: src/modules/payments/paystack-webhook.service.ts.
use mealdirectbackend.Domain.TopupFee.{split_dedicated_account_deposit_sums}
use mealdirectbackend.Common.{
  ℕ, ◌+◌, ◌≤◌, ◌≡◌, ◌≢◌, refl, ◌⊎◌, inl, inr, false, Option, none, some, ok, arith, String,
  Bool-cases, ◌==◌, eq_iff,
}
use mealdirectbackend.Domain.PaymentEvents.{PaystackWebhookEvent, WalletTopup}
use mealdirectbackend.Domain.TopupFee.{split_dedicated_account_deposit}
use mealdirectbackend.Payments.Webhook.{
  WebhookDatabase, WebhookEnv, Platform, Issue, LocalPayment, not_local, mismatched_amount,
  mismatched_currency, amount_mismatch, currency_mismatch, provider_success_not_local,
  wallet_credit, other_currency, transaction_id,
}
use mealdirectbackend.Payments.Webhook.Service.{
  issue_on, payment_issue, settle_payment, apply_verified_payment, settle_found,
}

-- A top-up never credits more than was paid. A transfer into a dedicated account is credited less
-- the fee that is entered with it, and fee and credit add up to the transfer; any other top-up has
-- no such fee, and is credited as asked for whenever that is covered.
pub wallet_credit-le :
    (platform : Platform) (env : WebhookEnv) (t : WalletTopup)
    → let c = wallet_credit platform env t in
      (c.credit_kobo ≤ t.amount_kobo)
      × ((t.account_number ≢ none
          → (fee : ℕ) × (c.deposit_fee ≡ some (t.amount_kobo, fee))
            × (fee + c.credit_kobo ≡ t.amount_kobo)))
      × ((credit : ℕ)
          → t.account_number ≡ none
          → t.credit_kobo ≡ some credit
          → credit ≤ t.amount_kobo
          → (c.credit_kobo ≡ credit) × (c.deposit_fee ≡ none))
unfolding wallet_credit
wallet_credit-le platform env t =
    let split =
      split_dedicated_account_deposit t.amount_kobo env.wallet_dva_deposit_fee_bps
        env.wallet_dva_deposit_fee_cap_kobo in
    let sums =
      (split_dedicated_account_deposit_sums t.amount_kobo env.wallet_dva_deposit_fee_bps
        env.wallet_dva_deposit_fee_cap_kobo).0 in
    (
      ground (arith, sums),
      (λ h. (split.deposit_fee_kobo, ground arith, ground (arith, sums))),
      λ credit a b c. (ground arith, ground arith),
    )

other_currency-eq-false :
    (currency : Option String) (expected : String)
    → other_currency currency expected ≡ false
    → (c : String) → currency ≡ some c
    → c ≡ expected
other_currency-eq-false none expected h c e = cc
other_currency-eq-false (some x) expected h c e = ground (arith, eq_iff x expected)

module _ {E : Type 0} (base : WebhookDatabase E) (platform : Platform) (env : WebhookEnv) where
  open base use {Db, find_payment, mark_verified_payment_successful, upsert_issue}

  -- A payment is marked as successful only if it was initialised here with the amount and, where the
  -- event names one, the currency of the charge. In every other case one issue is recorded, and
  -- nothing else is done.
  pub apply_verified_payment_checks :
      (payload : PaystackWebhookEvent) (reference : String) (amount : ℕ) (currency : Option String)
      (d : Db) (found : Option LocalPayment)
      → find_payment reference d ≡ ok found
      → let r = apply_verified_payment base platform env payload reference amount currency d in
        ((p : LocalPayment) × (found ≡ some p)
          × (amount ≡ p.expected_amount_kobo)
          × ((c : String) → currency ≡ some c → c ≡ p.currency)
          × (r
              ≡ mark_verified_payment_successful reference
                  (transaction_id payload reference)
                  amount
                  d))
        ⊎ ((issue : Issue) × (issue.provider_reference ≡ reference) × (r ≡ upsert_issue issue d))
  unfolding apply_verified_payment settle_found settle_payment
  apply_verified_payment_checks payload reference amount currency d none h =
      inr (issue_on not_local provider_success_not_local reference, refl, rw h)
  apply_verified_payment_checks payload reference amount currency d (some p) h =
      elim (Bool-cases (amount == p.expected_amount_kobo)) [
        | inr differs ↦
            inr (payment_issue mismatched_amount amount_mismatch p reference, refl, rw (h, differs))
        | inl same ↦ elim (Bool-cases (other_currency currency p.currency)) [
          | inl other ↦ inr (
            payment_issue mismatched_currency currency_mismatch p reference,
            refl,
            rw (h, same, other),
          )
          | inr fits ↦ inl (
            p,
            refl,
            ground arith,
            other_currency-eq-false currency p.currency fits,
            rw (h, same, fits),
          )
        ]
      ]
