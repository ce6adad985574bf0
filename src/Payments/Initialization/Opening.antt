-- ===== src/Payments/Initialization/Opening.antt =====
-- When a checkout is opened: src/modules/payments/payments.service.ts, `initializePaystack`.
use mealdirectbackend.Common.{
  ℕ, ◌≡◌, refl, ◌∙◌, ap, ◌⊎◌, inl, inr, ◌∷◌, Bool, true, Option, none, some, Result, ok, err,
  String, Bool-cases, Option-cases, arith, ◌==◌,
}
use mealdirectbackend.Domain.OrderStatus.{OrderStatus, pending_payment, status_index}
use mealdirectbackend.Payouts.Client.{
  Thrown, http, bad_request, not_found, forbidden, Reply, on_reply,
}
use mealdirectbackend.Payments.Machine.{AuthenticatedActor, World, resume}
use mealdirectbackend.Payments.Machine.Accesses.{access_cases}
use mealdirectbackend.Payments.Refunds.{Books, Payment, InitializeInput}
use mealdirectbackend.Payments.Rows.{
  find_customer_initialization_payment, mark_payment_initialization,
}
use mealdirectbackend.Payments.Initialization.{
  InitializeResult, InitializationResponse, payment_window_minutes, is_customer, read_initialized,
  initialize_input, email_for, initialize_transaction, store_initialization, open_checkout,
  initialize_found, initialize_paystack, extend_reservation_window,
}

-- A customer's own payment that is open, of an order that waits for it, over the total of the order.
pub record IsPayable (actor : AuthenticatedActor) (order_id : String) (b : Books)
    (payment : Payment) (email : String) : Type 0 where
  pub customer : is_customer actor.role ≡ true
  pub found : find_customer_initialization_payment actor.user_id order_id b ≡ some payment
  pub pending : payment.order_status ≡ pending_payment
  pub total : payment.expected_amount_kobo ≡ payment.order_total_kobo
  pub has_email : email_for payment actor ≡ some email

-- The books after the provider was asked, after the row was updated, and at the end.
abbrev pub asked_books : Payment → String → Books → Books
asked_books payment email b = record b { opened = initialize_input payment email ∷ b.opened }

abbrev pub marked_books : Payment → String → Books → Books
marked_books payment email b = mark_payment_initialization payment.id (asked_books payment email b)

abbrev pub extended_books : ℕ → Payment → String → Books → Books
extended_books now payment email b =
    extend_reservation_window payment.order_id payment_window_minutes now
      (marked_books payment email b)

pub data OpeningStep (now : ℕ) (actor : AuthenticatedActor) (order_id : String) (b b' : Books)
    (run : Result Thrown InitializationResponse) : Type 0 where
  refused : (e : Thrown) → run ≡ err e → b' ≡ b → OpeningStep now actor order_id b b' run
  interrupted :
      (payment : Payment) (email : String) (e : Thrown)
      → IsPayable actor order_id b payment email
      → run ≡ err e
      → (b' ≡ asked_books payment email b) ⊎ (b' ≡ marked_books payment email b)
      → OpeningStep now actor order_id b b' run
  finished :
      (payment : Payment) (email : String) (response : InitializationResponse)
      → IsPayable actor order_id b payment email
      → run ≡ ok response
      → response.payment_id ≡ payment.id
      → b' ≡ extended_books now payment email b
      → OpeningStep now actor order_id b b' run

is_pending : (s : OrderStatus) → (status_index s == 0) ≡ true → s ≡ pending_payment
is_pending s h = ground arith

updated_books :
    (f : Books → Books) (b b' : Books) (u : Unit {0})
    → ◌≡◌ {A = Option (Unit {0} × Books)} (some (tt, f b)) (some (u, b'))
    → b' ≡ f b
updated_books f b b' u h = cc h

store_initialization-OpeningStep :
    {P : Type 0} (now : ℕ) (actor : AuthenticatedActor) (order_id : String) (payment : Payment)
    (email : String) (initialized : InitializeResult) (b : Books) (w : World Books P)
    → w.state ≡ asked_books payment email b
    → IsPayable actor order_id b payment email
    → OpeningStep now actor order_id b
        (store_initialization now payment initialized w).1.state
        (store_initialization now payment initialized w).0
unfolding store_initialization
store_initialization-OpeningStep now actor order_id payment email initialized b w same payable =
    let mark = mark_payment_initialization payment.id in
    let extend = extend_reservation_window payment.order_id payment_window_minutes now in
    elim (access_cases (λ (b : Books). some (tt, mark b)) w) [
      | inr (e, w1, e1, s1) ↦ rw e1 (interrupted payment email e payable refl (inl (s1 ∙ same)))
      | inl (u, b1, w1, marked, e1, s1) ↦
          let after : w1.state ≡ marked_books payment email b =
            s1 ∙ updated_books mark w.state b1 u marked ∙ ap mark same in
          elim (access_cases (λ (b : Books). some (tt, extend b)) w1) [
            | inr (e, w2, e2, s2) ↦
                rw (e1, e2) (interrupted payment email e payable refl (inr (s2 ∙ after)))
            | inl (v, b2, w2, extended, e2, s2) ↦
                rw (e1, e2)
                  (finished payment email
                    (record {
                      access_code = initialized.access_code;
                      authorization_url = initialized.authorization_url;
                      payment_id = payment.id;
                      reference = initialized.reference;
                    })
                    payable refl refl
                    (s2 ∙ updated_books extend w1.state b2 v extended ∙ ap extend after))
          ]
    ]

module _ {P : Type 0} (send : InitializeInput → P → Reply × P) (configured : Bool) (now : ℕ)
    (actor : AuthenticatedActor) (order_id : String) where
  open_checkout-OpeningStep :
      (payment : Payment) (email : String) (b : Books) (w : World Books P)
      → w.state ≡ b
      → IsPayable actor order_id b payment email
      → OpeningStep now actor order_id b
          (open_checkout send configured now payment (some email) w).1.state
          (open_checkout send configured now payment (some email) w).0
  unfolding open_checkout initialize_transaction
  open_checkout-OpeningStep payment email b w same payable = elim (Bool-cases configured) [
    | inr off ↦ rw (off, initialize_transaction) (refused (http bad_request) refl same)
    | inl on ↦
        rw (on, initialize_transaction)
          (answered (on_reply read_initialized (send (initialize_input payment email) w.provider).0)
            (record w {
              provider = (send (initialize_input payment email) w.provider).1;
              state = asked_books payment email w.state;
            })
            (ap (asked_books payment email) same))
  ]
    where
      answered :
          (r : Result Thrown InitializeResult) (w1 : World Books P)
          → w1.state ≡ asked_books payment email b
          → OpeningStep now actor order_id b
              (resume (r, w1) (store_initialization now payment)).1.state
              (resume (r, w1) (store_initialization now payment)).0
      answered (err e) w1 s1 = interrupted payment email e payable refl (inl s1)
      answered (ok initialized) w1 s1 =
          store_initialization-OpeningStep now actor order_id payment email initialized b w1 s1
            payable

  initialize_found-OpeningStep :
      (payment : Payment) (b : Books) (w : World Books P)
      → w.state ≡ b
      → is_customer actor.role ≡ true
      → find_customer_initialization_payment actor.user_id order_id b ≡ some payment
      → OpeningStep now actor order_id b
          (initialize_found send configured now actor (some payment) w).1.state
          (initialize_found send configured now actor (some payment) w).0
  unfolding initialize_found open_checkout
  initialize_found-OpeningStep payment b w same own found =
      elim (Bool-cases (status_index payment.order_status == 0)) [
        | inr late ↦ rw (late, initialize_found) (refused (http bad_request) refl same)
        | inl waiting ↦
            elim (Bool-cases (payment.expected_amount_kobo == payment.order_total_kobo)) [
              | inr differs ↦
                  rw (waiting, differs, initialize_found) (refused (http bad_request) refl same)
              | inl total ↦ elim (Option-cases (email_for payment actor)) [
                | inl missing ↦
                    rw (waiting, total, missing, initialize_found, open_checkout)
                      (refused (http bad_request) refl same)
                | inr (email, has_email) ↦
                    rw (waiting, total, initialize_found, has_email)
                      (open_checkout-OpeningStep payment email b w same (record {
                        customer = own;
                        found = found;
                        pending = is_pending payment.order_status waiting;
                        total = ground arith;
                        has_email = has_email;
                      }))
              ]
            ]
      ]

  initialize_found-none :
      (b : Books) (w : World Books P)
      → w.state ≡ b
      → OpeningStep now actor order_id b
          (initialize_found send configured now actor none w).1.state
          (initialize_found send configured now actor none w).0
  unfolding initialize_found
  initialize_found-none b w same = refused (http not_found) refl same

  pub initialize_paystack-OpeningStep :
      (w : World Books P)
      → OpeningStep now actor order_id w.state
          (initialize_paystack send configured now actor order_id w).1.state
          (initialize_paystack send configured now actor order_id w).0
  unfolding initialize_paystack
  initialize_paystack-OpeningStep w = elim (Bool-cases (is_customer actor.role)) [
    | inr other ↦ rw (other, initialize_paystack) (refused (http forbidden) refl refl)
    | inl own ↦
        elim (access_cases
          (λ (b : Books). some (find_customer_initialization_payment actor.user_id order_id b, b))
          w) [
            | inr (e, w1, e1, s1) ↦ rw (own, initialize_paystack, e1) (refused e refl s1)
            | inl (found, b1, w1, read, e1, s1) ↦
                rw (own, initialize_paystack, e1) (by_row own found w1 (s1 ∙ cc read) (cc read))
          ]
  ]
    where
      by_row :
          is_customer actor.role ≡ true
          → (found : Option Payment) (w1 : World Books P) → w1.state ≡ w.state
          → find_customer_initialization_payment actor.user_id order_id w.state ≡ found
          → OpeningStep now actor order_id w.state
              (initialize_found send configured now actor found w1).1.state
              (initialize_found send configured now actor found w1).0
      by_row own none w1 s1 read = initialize_found-none w.state w1 s1
      by_row own (some payment) w1 s1 read =
          initialize_found-OpeningStep payment w.state w1 s1 own read
