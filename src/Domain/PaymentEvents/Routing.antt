-- ===== src/Domain/PaymentEvents/Routing.antt =====
-- How the events are told apart: src/domain/payments.ts.
use mealdirectbackend.Common.{
  ℕ, ◌≡◌, ◌≢◌, ◌⊎◌, refl, ap, ◌∙◌, Option, none, some, true, false, arith, Num, String, Json,
  number, boolean, obj, str_eq, or_else, Fields, field_of, str, eq_iff, sym, Option-cases,
  Bool-cases, inl, inr,
}
use mealdirectbackend.Domain.PaymentEvents.{
  EventData, EventAuthorization, positive, user_of, is_text, PaystackWebhookEvent,
  PaymentDomainEvent, WalletTopup, payment_succeeded, payment_failed, refund_succeeded,
  transfer_reconciled, wallet_topup_succeeded, ignored, is_empty, is_channel, metadata_record,
  checkout_topup, map_paystack_event, map_body, map_referenced, charge_success,
}

-- The reference that an event carries on; none for one that is ignored.
abbrev pub provider_reference_of : PaymentDomainEvent → Option String
provider_reference_of (payment_succeeded reference amount currency) = some reference
provider_reference_of (payment_failed reference amount) = some reference
provider_reference_of (refund_succeeded reference amount) = some reference
provider_reference_of (transfer_reconciled reference status) = some reference
provider_reference_of (wallet_topup_succeeded topup) = some topup.provider_reference
provider_reference_of (ignored reason event) = none

module _ (parse : String → Option Json) (to_number : Option Json → Num) where
  charge_success_reference :
      (reference : String) (d : EventData)
      → provider_reference_of (charge_success parse to_number reference d) ≡ some reference
  unfolding charge_success
  charge_success_reference reference d = ground arith

  map_referenced_reference :
      (event reference : String) (d : EventData) {r : String}
      → provider_reference_of (map_referenced parse to_number event reference d) ≡ some r
      → r ≡ reference
  unfolding map_referenced
  map_referenced_reference event reference d h =
      ground (arith, charge_success_reference reference d)

  -- What an event that is not ignored was made from.
  map_inv :
      (input : PaystackWebhookEvent) (e : PaymentDomainEvent) {r : String}
      → map_paystack_event parse to_number input ≡ e
      → provider_reference_of e ≡ some r
      → (d : EventData) × (reference : String) × (input.body ≡ some d)
        × (d.reference ≡ some reference)
        × (is_empty reference ≡ false)
        × (map_referenced parse to_number input.event reference d ≡ e)
  unfolding map_paystack_event map_body
  map_inv input e h k = ground arith

  referenced_order :
      (event reference : String) (d : EventData) {r : String} {amount : ℕ}
      {currency : Option String}
      → map_referenced parse to_number event reference d ≡ payment_succeeded r amount currency
      → (str_eq event "charge.success" ≡ true)
        × (charge_success parse to_number reference d ≡ payment_succeeded r amount currency)
  unfolding map_referenced
  referenced_order event reference d h = ground arith

  referenced_topup :
      (event reference : String) (d : EventData) {t : WalletTopup}
      → map_referenced parse to_number event reference d ≡ wallet_topup_succeeded t
      → (str_eq event "charge.success" ≡ true)
        × (charge_success parse to_number reference d ≡ wallet_topup_succeeded t)
  unfolding map_referenced
  referenced_topup event reference d h = ground arith

  success_order :
      (reference : String) (d : EventData) {r : String} {amount : ℕ} {currency : Option String}
      → charge_success parse to_number reference d ≡ payment_succeeded r amount currency
      → (is_channel d.authorization "dedicated_nuban" ≡ false)
        × (checkout_topup (metadata_record parse d.metadata) ≡ none)
        × (amount ≡ or_else d.amount 0)
        × (currency ≡ d.currency)
  unfolding charge_success
  success_order reference d h = ground arith

  -- A transfer into a dedicated account: credited by the number of the account that received it.
  -- A checkout of a top-up, paid otherwise: credited to the user named in its metadata.
  abbrev pub IsTopupOf : EventData → WalletTopup → Type 0
  IsTopupOf d t =
      ((a : EventAuthorization) × (d.authorization ≡ some a)
        × (a.channel ≡ some "dedicated_nuban")
        × ((a.receiver_bank_account_number ≡ none)
            → t.account_number ≡ d.receiver_bank_account_number)
        × ((n : String) → a.receiver_bank_account_number ≡ some n → t.account_number ≡ some n)
        × (t.user_id ≡ none)
        × (t.credit_kobo ≡ none))
      ⊎ ((fields : Fields) × (user_id : String) × ((a : EventAuthorization)
            → d.authorization ≡ some a
            → a.channel ≢ some "dedicated_nuban")
          × (metadata_record parse d.metadata ≡ some fields)
          × (field_of fields "purpose" ≡ some (str "wallet_topup"))
          × (field_of fields "userId" ≡ some (str user_id))
          × (is_empty user_id ≡ false)
          × (t.user_id ≡ some user_id)
          × (t.account_number ≡ none)
          × (t.credit_kobo ≡ positive (to_number (field_of fields "creditKobo"))))

  is_text_sound : (o : Option Json) (text : String) → is_text o text ≡ true → o ≡ some (str text)
  is_text_sound none text h = cc h
  is_text_sound (some (str s)) text h = ap (λ s. some (str s)) ((eq_iff s text).0 h)
  is_text_sound (some (number n)) text h = cc h
  is_text_sound (some (boolean b)) text h = cc h
  is_text_sound (some (obj fields)) text h = cc h
  is_text_sound (some other) text h = cc h

  user_of_sound :
      (o : Option Json) (user_id : String)
      → user_of o ≡ some user_id
      → (o ≡ some (str user_id)) × (is_empty user_id ≡ false)
  user_of_sound o user_id h = (ground arith, ground arith)

  is_channel_sound :
      (o : Option EventAuthorization) (channel : String)
      → is_channel o channel ≡ true
      → (a : EventAuthorization) × (o ≡ some a) × (a.channel ≡ some channel)
  is_channel_sound none channel h = cc h
  is_channel_sound (some a) channel h = elim (Option-cases a.channel) [
    | inl e ↦ cc (rw e at h)
    | inr (c, e) ↦ (a, refl, e ∙ ap some ((eq_iff c channel).0 (rw e at h)))
  ]

  is_channel_complete :
      (o : Option EventAuthorization) (channel : String)
      → is_channel o channel ≡ false
      → (a : EventAuthorization) → o ≡ some a
      → a.channel ≢ some channel
  is_channel_complete o channel h a e c = cc (rw (e, c, (eq_iff channel channel).1 refl) at h)

  checkout_topup_inv :
      (m : Option Fields) (user_id : String) (fields : Fields)
      → checkout_topup m ≡ some (user_id, fields)
      → (m ≡ some fields)
        × (field_of fields "purpose" ≡ some (str "wallet_topup"))
        × (field_of fields "userId" ≡ some (str user_id))
        × (is_empty user_id ≡ false)
  unfolding checkout_topup
  checkout_topup_inv none user_id fields h = cc h
  checkout_topup_inv (some fields) user_id fields' h =
      elim (Bool-cases (is_text (field_of fields "purpose") "wallet_topup")) [
        | inr other ↦ cc (rw (other, checkout_topup) at h)
        | inl marked ↦ elim (Option-cases (user_of (field_of fields "userId"))) [
          | inl unnamed ↦ cc (rw (marked, unnamed, checkout_topup) at h)
          | inr (user, named) ↦
              let found = rw (marked, named, checkout_topup) at h in
              let same : user ≡ user_id = cc found in
              let alike : fields ≡ fields' = cc found in
              let (text, nonempty) = user_of_sound (field_of fields "userId") user named in
              (
                ap some alike,
                rw (← alike) (is_text_sound (field_of fields "purpose") "wallet_topup" marked),
                rw (← alike, ← same) text,
                rw (← same) nonempty,
              )
        ]
      ]

  success_topup :
      (reference : String) (d : EventData) (t : WalletTopup)
      → charge_success parse to_number reference d ≡ wallet_topup_succeeded t
      → (t.provider_reference ≡ reference)
        × (t.amount_kobo ≡ or_else d.amount 0)
        × (t.currency ≡ d.currency)
        × (t.credit_kobo ≢ some 0)
        × IsTopupOf d t
  unfolding charge_success
  success_topup reference d t h = (
    ground arith,
    ground arith,
    ground arith,
    λ e. ground arith,
    elim (Bool-cases (is_channel d.authorization "dedicated_nuban")) [
      | inl nuban ↦
          let (a, e, c) = is_channel_sound d.authorization "dedicated_nuban" nuban in
          inl (a, e, c, (λ n. ground arith), (λ n m. ground arith), ground arith, ground arith)
      | inr by_checkout ↦ elim (Option-cases (checkout_topup (metadata_record parse d.metadata))) [
        | inl unmarked ↦ cc (rw (by_checkout, unmarked, charge_success) at h)
        | inr ((user_id, fields), marked) ↦
            let (m, purpose, user, nonempty) =
              checkout_topup_inv (metadata_record parse d.metadata) user_id fields marked in
            let found = rw (by_checkout, marked, charge_success) at h in
            inr (
              fields,
              user_id,
              is_channel_complete d.authorization "dedicated_nuban" by_checkout,
              m,
              purpose,
              user,
              nonempty,
              cc found,
              cc found,
              cc found,
            )
      ]
    ],
  )

  -- An event that is not ignored has a body with a reference that is not empty, and carries that
  -- reference on unchanged.
  pub map_paystack_event_reference :
      (input : PaystackWebhookEvent) {reference : String}
      → provider_reference_of (map_paystack_event parse to_number input) ≡ some reference
      → (d : EventData) × (input.body ≡ some d)
        × (d.reference ≡ some reference)
        × (is_empty reference ≡ false)
  map_paystack_event_reference input h =
      let (d, reference, b, r, e, m) =
        map_inv input (map_paystack_event parse to_number input) refl h in
      let same =
        map_referenced_reference input.event reference d (ap provider_reference_of m ∙ h) in
      (d, b, rw same r, rw same e)

  -- Money is taken for the payment of an order only from a successful charge that is no transfer
  -- into a dedicated account and whose metadata marks no top-up of a wallet; the amount and the
  -- currency are those of the charge.
  pub map_paystack_event_order :
      (input : PaystackWebhookEvent) {reference : String} {amount : ℕ} {currency : Option String}
      → map_paystack_event parse to_number input ≡ payment_succeeded reference amount currency
      → (d : EventData) × (input.body ≡ some d)
        × (str_eq input.event "charge.success" ≡ true)
        × (is_channel d.authorization "dedicated_nuban" ≡ false)
        × (checkout_topup (metadata_record parse d.metadata) ≡ none)
        × (amount ≡ or_else d.amount 0)
        × (currency ≡ d.currency)
  map_paystack_event_order input h =
      let (d, reference, b, r, e, m) = map_inv input _ h refl in
      let (ev, c) = referenced_order input.event reference d m in
      let (n, t, a, y) = success_order reference d c in (d, b, ev, n, t, a, y)

  -- Money goes to a wallet only from a successful charge that carries a reference that is not empty,
  -- under that reference, with the amount and the currency of the charge, and never against a credit of
  -- 0. It is a transfer into a dedicated account, credited by the number of the account that received
  -- it, if the charge names one, and to no user; or it came by another channel and its metadata marks a
  -- top-up, and it is credited to the user whom the metadata names and to no account.
  pub map_paystack_event_topup :
      (input : PaystackWebhookEvent) {t : WalletTopup}
      → map_paystack_event parse to_number input ≡ wallet_topup_succeeded t
      → (d : EventData) × (input.body ≡ some d)
        × (input.event ≡ "charge.success")
        × (d.reference ≡ some t.provider_reference)
        × (is_empty t.provider_reference ≡ false)
        × (t.amount_kobo ≡ or_else d.amount 0)
        × (t.currency ≡ d.currency)
        × (t.credit_kobo ≢ some 0)
        × IsTopupOf d t
  map_paystack_event_topup input {t} h =
      let (d, reference, b, r, e, m) = map_inv input _ h refl in
      let (ev, c) = referenced_topup input.event reference d m in
      let (same, a, y, z, rest) = success_topup reference d t c in
      (
        d,
        b,
        (eq_iff input.event "charge.success").0 ev,
        r ∙ ap some (sym same),
        rw same e,
        a,
        y,
        z,
        rest,
      )
