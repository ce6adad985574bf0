-- ===== src/Wallets/Topup/Checkout.antt =====
-- When a checkout is opened: src/modules/wallets/wallets.service.ts, `initializeTopup`.
use mealdirectbackend.Common.{
  ℕ, ◌+◌, ◌≤◌, ◌<◌, ◌≡◌, ap, List, ◌∷◌, inl, inr, some, Num, nat, neg, fractional, Result, ok, err,
  String, arith, Result-cases, Option-cases,
}
use mealdirectbackend.Domain.Authorization.{customer}
use mealdirectbackend.Domain.TopupFee.{calculate_topup_charge}
use mealdirectbackend.Wallets.Topup.{
  AuthenticatedActor, WalletRecord, WalletLimits, InitializeInput, InitializeResult,
  WalletTopupCheckout, WalletPlatform, TopupError, customer_only, assert_positive, TopupState,
  topup_request, topup_checkout, send_checkout, checked_topup, read_wallet, ensured_topup,
  initialize_topup,
}

module _ (base : WalletPlatform) where
  open base use {Db, ensure_wallet, find_wallet_by_id, find_wallet_limits}

  -- A checkout opened for a wallet of the database `d`.
  pub record IsOpened (user_id email reference : String) (n : ℕ) (wallet_id : String) (d : Db)
      (before : List InitializeInput) (s' : TopupState Db) (c : WalletTopupCheckout) : Type 0 where
    pub wallet : WalletRecord
    pub limits : WalletLimits
    pub found : find_wallet_by_id wallet_id d ≡ ok (some wallet)
    pub limited : find_wallet_limits d ≡ ok limits
    pub enough : limits.min_topup_kobo ≤ n
    pub room : wallet.balance_kobo + n ≤ limits.max_balance_kobo
    pub sent :
        s'.initialized ≡ topup_request base user_id email wallet wallet_id reference n ∷ before
    pub amount : c.amount_kobo ≡ n
    pub charge :
        c.charge_kobo ≡ (topup_request base user_id email wallet wallet_id reference n).amount_kobo

  abbrev Outcome : Type 0
  Outcome = Result TopupError WalletTopupCheckout × TopupState Db

  topup_checkout-ok :
      (n : ℕ) (r : Result TopupError InitializeResult) {c : WalletTopupCheckout}
      → topup_checkout base n r ≡ ok c
      → (c.amount_kobo ≡ n)
        × (c.charge_kobo ≡ (calculate_topup_charge n base.pass_fees).charge_kobo)
  unfolding topup_checkout
  topup_checkout-ok n (ok r) h = ground arith
  topup_checkout-ok n (err e) h = cc h

  checked_topup-ok :
      (user_id email wallet_id reference : String) (n : ℕ) (wallet : WalletRecord)
      (limits : WalletLimits) (s s' : TopupState Db) (c : WalletTopupCheckout)
      → find_wallet_by_id wallet_id s.db ≡ ok (some wallet)
      → find_wallet_limits s.db ≡ ok limits
      → checked_topup base user_id email wallet_id reference n wallet limits s ≡ (ok c, s')
      → IsOpened user_id email reference n wallet_id s.db s.initialized s' c
  unfolding checked_topup send_checkout topup_request
  checked_topup-ok user_id email wallet_id reference n wallet limits s s' c f g h =
      let k : topup_checkout base n (
            base.initialize_transaction
              (topup_request base user_id email wallet wallet_id reference n) s.db)
          ≡ ok c =
        ground arith in
      let (a, b) =
        topup_checkout-ok n
          (base.initialize_transaction
            (topup_request base user_id email wallet wallet_id reference n) s.db)
          k in
      record {
        wallet = wallet;
        limits = limits;
        found = f;
        limited = g;
        enough = ground arith;
        room = ground arith;
        sent = ground arith;
        amount = a;
        charge = b;
      }

  read_wallet-ok :
      (user_id email wallet_id reference : String) (n : ℕ) (s s' : TopupState Db)
      (c : WalletTopupCheckout)
      → read_wallet base user_id email wallet_id reference n s ≡ (ok c, s')
      → IsOpened user_id email reference n wallet_id s.db s.initialized s' c
  unfolding read_wallet
  read_wallet-ok user_id email wallet_id reference n s s' c h =
      elim (Result-cases (find_wallet_by_id wallet_id s.db)) [
        | inl (e, f) ↦ cc (ap (λ (x : Outcome). x.0) (rw (f, read_wallet) at h))
        | inr (found, f) ↦ elim (Result-cases (find_wallet_limits s.db)) [
          | inl (e, g) ↦ cc (ap (λ (x : Outcome). x.0) (rw (f, g, read_wallet) at h))
          | inr (limits, g) ↦ elim (Option-cases found) [
            | inl o ↦ cc (ap (λ (x : Outcome). x.0) (rw (f, g, o, read_wallet) at h))
            | inr (wallet, o) ↦
                checked_topup-ok user_id email wallet_id reference n wallet limits s s' c
                  (rw o at f) g (rw (f, g, o, read_wallet) at h)
          ]
        ]
      ]

  assert_positive-ok :
      (amount : Num) {n : ℕ} → assert_positive amount ≡ ok n → (amount ≡ nat n) × (0 < n)
  unfolding assert_positive
  assert_positive-ok (nat m) h = ground arith
  assert_positive-ok (neg m) h = cc h
  assert_positive-ok fractional h = cc h

  customer_only-ok :
      (actor : AuthenticatedActor) → customer_only actor ≡ ok tt → actor.role ≡ customer
  unfolding customer_only
  customer_only-ok actor h = ground arith

  -- A checkout `c` that was opened, from `s` to `s'`, for a request that passed every check.
  pub record IsAsked (actor : AuthenticatedActor) (amount : Num) (reference : String)
      (s s' : TopupState Db) (c : WalletTopupCheckout) : Type 0 where
    pub n : ℕ
    pub email : String
    pub wallet_id : String
    pub d : Db
    pub is_customer : actor.role ≡ customer
    pub has_email : actor.email ≡ some email
    pub is_whole : amount ≡ nat n
    pub is_positive : 0 < n
    pub ensured : ensure_wallet actor.user_id s.db ≡ ok (wallet_id, d)
    pub opened : IsOpened actor.user_id email reference n wallet_id d s.initialized s' c

  -- A checkout that `initializeTopup` returns was asked for by a customer with an email address, for a
  -- positive whole number of kobo that is at least the minimum and does not take the wallet's balance
  -- above the maximum. One request was made of the provider, for the charge on that amount; the
  -- checkout shows the amount and the charge.
  pub initialize_topup_checkout :
      (actor : AuthenticatedActor) (amount : Num) (reference : String) (s s' : TopupState Db)
      (c : WalletTopupCheckout)
      → initialize_topup base actor amount reference s ≡ (ok c, s')
      → IsAsked actor amount reference s s' c
  unfolding initialize_topup ensured_topup
  initialize_topup_checkout actor amount reference s s' c h =
      elim (Result-cases (customer_only actor)) [
        | inl (e, f) ↦ cc (ap (λ (x : Outcome). x.0) (rw (f, initialize_topup) at h))
        | inr (u, f) ↦ elim (Result-cases (assert_positive amount)) [
          | inl (e, g) ↦ cc (ap (λ (x : Outcome). x.0) (rw (f, g, initialize_topup) at h))
          | inr (n, g) ↦ elim (Option-cases actor.email) [
            | inl o ↦ cc (ap (λ (x : Outcome). x.0) (rw (f, g, o, initialize_topup) at h))
            | inr (email, o) ↦ elim (Result-cases (ensure_wallet actor.user_id s.db)) [
              | inl (e, k) ↦ cc (ap (λ (x : Outcome). x.0) (rw (f, g, o, k, initialize_topup) at h))
              | inr ((wallet_id, d), k) ↦
                  let (whole, positive) = assert_positive-ok amount g in
                  record {
                    n = n;
                    email = email;
                    wallet_id = wallet_id;
                    d = d;
                    is_customer = customer_only-ok actor f;
                    has_email = o;
                    is_whole = whole;
                    is_positive = positive;
                    ensured = k;
                    opened =
                        read_wallet-ok actor.user_id email wallet_id reference n
                          (record s { db = d }) s' c (rw (f, g, o, k, initialize_topup) at h);
                  }
            ]
          ]
        ]
      ]
