-- ===== src/Payments/Webhook/Signature.antt =====
-- Signatures of webhooks: src/modules/payments/paystack-webhook.service.ts.
use mealdirectbackend.Common.{
  ℕ, ◌≡◌, refl, ◌⊎◌, inl, inr, List, [], ◌∷◌, true, false, Option, none, some, err, arith, String,
  Bool-cases, Option-cases,
}
use mealdirectbackend.Domain.PaymentEvents.{PaystackWebhookEvent, is_empty}
use mealdirectbackend.Payments.Webhook.{
  WebhookDatabase, WebhookEnv, Platform, WebhookError, assert_valid_signature, same_bytes,
  not_configured, signature_required, signature_invalid,
}
use mealdirectbackend.Payments.Webhook.Service.{State, process}

same_bytes-eq-true : (xs ys : List ℕ) → same_bytes xs ys ≡ true → xs ≡ ys
unfolding same_bytes
same_bytes-eq-true [] [] h = refl
same_bytes-eq-true [] (y ∷ ys) h = cc
same_bytes-eq-true (x ∷ xs) [] h = cc
same_bytes-eq-true (x ∷ xs) (y ∷ ys) h = ground (arith, same_bytes-eq-true xs ys)

module _ {E : Type 0} (base : WebhookDatabase E) (platform : Platform) (env : WebhookEnv) where
  open base use {Db}

  abbrev IsSigned : String → Option String → Type 0
  IsSigned raw_body signature =
      (secret : String) × (given : String) × (env.paystack_secret_key ≡ some secret)
      × (signature ≡ some given)
      × (is_empty given ≡ false)
      × (platform.from_hex given ≡ platform.from_hex (platform.hmac_sha512_hex secret raw_body))

  IsSigned-with :
      (raw_body given secret : String)
      → env.paystack_secret_key ≡ some secret
      → IsSigned raw_body (some given)
        ⊎ ((e : WebhookError E) × (assert_valid_signature platform env raw_body (some given)
              ≡ err e))
  unfolding assert_valid_signature
  IsSigned-with raw_body given secret k = elim (Bool-cases (is_empty given)) [
    | inl empty ↦ inr (signature_required, rw (k, assert_valid_signature, empty) refl)
    | inr full ↦
        elim (Bool-cases (
          same_bytes (platform.from_hex given)
            (platform.from_hex (platform.hmac_sha512_hex secret raw_body)))) [
              | inl same ↦ inl (secret, given, k, refl, full, same_bytes-eq-true _ _ same)
              | inr differs ↦
                  inr (signature_invalid, rw (k, assert_valid_signature, full, differs) refl)
            ]
  ]

  signed :
      (raw_body : String) (signature : Option String)
      → IsSigned raw_body signature
        ⊎ ((e : WebhookError E) × (assert_valid_signature platform env raw_body signature ≡ err e))
  unfolding assert_valid_signature
  signed raw_body none = elim (Option-cases env.paystack_secret_key) [
    | inl off ↦ inr (not_configured, rw (off, assert_valid_signature) refl)
    | inr (secret, k) ↦ inr (signature_required, rw (k, assert_valid_signature) refl)
  ]
  signed raw_body (some given) = elim (Option-cases env.paystack_secret_key) [
    | inl off ↦ inr (not_configured, rw (off, assert_valid_signature) refl)
    | inr (secret, k) ↦ IsSigned-with raw_body given secret k
  ]

  -- Nothing is done for a request that is not signed: either the key is configured and the signature
  -- given decodes to the same bytes as the keyed digest of the body, or an error is returned and the
  -- state is left as it was.
  pub process_authentic :
      (raw_body : String) (signature : Option String) (payload : PaystackWebhookEvent)
      (s : State Db)
      → ((secret : String) × (given : String) × (env.paystack_secret_key ≡ some secret)
          × (signature ≡ some given)
          × (is_empty given ≡ false)
          × (platform.from_hex given
              ≡ platform.from_hex (platform.hmac_sha512_hex secret raw_body)))
        ⊎ ((e : WebhookError E) × (process base platform env raw_body signature payload s
              ≡ (err e, s)))
  unfolding process
  process_authentic raw_body signature payload s = elim (signed raw_body signature) [
    | inl valid ↦ inl valid
    | inr (e, invalid) ↦ inr (e, rw (invalid, process))
  ]
