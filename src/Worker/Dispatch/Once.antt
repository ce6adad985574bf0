-- ===== src/Worker/Dispatch/Once.antt =====
-- No channel of src/worker/handlers/notification-dispatch.handler.ts is used again once its delivery
-- is recorded.
use mathlib.Core.Path.{subst}
use mealdirectbackend.Common.{
  any, ◌≡◌, refl, sym, ◌∙◌, ap, List, [], ◌∷◌, ◌++◌, Bool, true, false, some, Result, ok, eq_iff,
  ◌&&◌, if◌then◌else◌, is_some, inl, inr, Bool-cases, arith, All,
}
use mealdirectbackend.Payouts.Client.{Thrown}
use mealdirectbackend.Payments.Machine.{World}
use mealdirectbackend.Payments.Machine.Accesses.{access_cases}
use mealdirectbackend.Worker.Dispatch.{
  Channel, email, push, NotificationRecipient, Delivery, Deliveries, same_channel, same_delivery,
  already_delivered, deliver_channel, run_channel, email_delivery, push_delivery,
}

-- A channel has taken the message.
abbrev pub was_delivered : Delivery → Deliveries → Bool
was_delivered d b = any (same_delivery d) b.delivered

-- Only what a channel has taken is recorded.
abbrev pub IsHonest : Deliveries → Type 0
IsHonest b = (d : Delivery) → already_delivered d b ≡ true → was_delivered d b ≡ true

-- A delivery that is recorded stays recorded, and what is delivered further was not recorded before.
pub data Grows (b b' : Deliveries) : Type 0 where
  grows :
      (more : List Delivery)
      → ((d : Delivery) → already_delivered d b ≡ true → already_delivered d b' ≡ true)
      → b'.delivered ≡ more ++ b.delivered
      → All (λ d. already_delivered d b ≡ false) more
      → b'.notifications ≡ b.notifications
      → (IsHonest b → IsHonest b')
      → Grows b b'

pub Grows-refl : (b : Deliveries) → Grows b b
Grows-refl b = grows [] (λ d e. e) refl tt refl (λ h. h)

unrecorded_before :
    (b b' : Deliveries) (more : List Delivery)
    → ((d : Delivery) → already_delivered d b ≡ true → already_delivered d b' ≡ true)
    → All (λ d. already_delivered d b' ≡ false) more
    → All (λ d. already_delivered d b ≡ false) more
unrecorded_before b b' [] keep all = tt
unrecorded_before b b' (d ∷ more) keep (fresh, all) = (
  elim (Bool-cases (already_delivered d b)) [ inl e ↦ cc (keep d e, fresh) | inr e ↦ e ],
  unrecorded_before b b' more keep all,
)

All-append :
    (Q : Delivery → Type 0) (xs ys : List Delivery) → All Q xs → All Q ys → All Q (xs ++ ys)
All-append Q [] ys p q = q
All-append Q (x ∷ xs) ys (h, p) q = (h, All-append Q xs ys p q)

append_assoc : (xs ys zs : List Delivery) → (xs ++ ys) ++ zs ≡ xs ++ (ys ++ zs)
append_assoc [] ys zs = refl
append_assoc (x ∷ xs) ys zs = ap (λ l. x ∷ l) (append_assoc xs ys zs)

pub Grows-trans : (a b c : Deliveries) → Grows a b → Grows b c → Grows a c
Grows-trans a b c (grows more keep log new same honest)
      (grows more' keep' log' new' same' honest') =
    grows (more' ++ more) (λ d e. keep' d (keep d e))
      (log' ∙ ap (λ l. more' ++ l) log ∙ sym (append_assoc more' more a.delivered))
      (All-append (λ d. already_delivered d a ≡ false) more' more
        (unrecorded_before a b more' keep new') new)
      (same' ∙ same) (λ h. honest' (honest h))

same_delivery_self : (d : Delivery) → same_delivery d d ≡ true
same_delivery_self d =
    rw ((eq_iff d.notification_id d.notification_id).1 refl) (by_channel d.channel)
  where
    by_channel : (c : Channel) → same_channel c c ≡ true
    by_channel email = refl
    by_channel push = refl

-- A channel that is enabled has its delivery recorded.
abbrev pub covered : Bool → Delivery → Deliveries → Bool
covered enabled d b = if enabled then already_delivered d b else true

-- What a run of a channel has done; if it did not fail, its delivery is recorded.
pub record ChannelRun {P : Type 0} (enabled : Bool) (d : Delivery) (b : Deliveries)
    (run : Result Thrown Bool × World Deliveries P) : Type 0 where
  pub further : Grows b run.1.state
  pub done : run.0 ≡ ok true → covered enabled d run.1.state ≡ true

recorded_honestly :
    (d : Delivery) (b : Deliveries)
    → IsHonest b
    → IsHonest (record b { delivered = d ∷ b.delivered; recorded = d ∷ b.recorded })
recorded_honestly d b h e now = ground (arith, h e, now)

taken_honestly :
    (d : Delivery) (b : Deliveries)
    → IsHonest b
    → IsHonest (record b { delivered = d ∷ b.delivered })
taken_honestly d b h e now = ground (arith, h e, now)

module _ {P : Type 0} (deliver : Delivery → NotificationRecipient → P → Bool × P) where
  record_delivery :
      (d : Delivery) (b : Deliveries)
      → already_delivered d b ≡ false
      → Grows b (record b { delivered = d ∷ b.delivered; recorded = d ∷ b.recorded })
        × (already_delivered d (record b { delivered = d ∷ b.delivered; recorded = d ∷ b.recorded })
            ≡ true)
  record_delivery d b new = (
    grows (d ∷ []) (λ e h. ground (arith, h)) refl (new, tt) refl (recorded_honestly d b),
    rw (same_delivery_self d) refl,
  )

  deliver_channel-ChannelRun :
      (d : Delivery) (r : NotificationRecipient) (b : Deliveries) (w : World Deliveries P)
      → w.state ≡ b
      → already_delivered d b ≡ false
      → ChannelRun true d b (deliver_channel deliver d r w)
  unfolding deliver_channel
  deliver_channel-ChannelRun d r b w same new = elim (Bool-cases (deliver d r w.provider).0) [
    | inr refused ↦ rw (refused, same) (record { further = Grows-refl b; done = λ e. cc e })
    | inl taken ↦
        elim (access_cases (λ (b : Deliveries). some (tt, record b { recorded = d ∷ b.recorded }))
          (record w {
            provider = (deliver d r w.provider).1;
            state = record w.state { delivered = d ∷ w.state.delivered };
          })) [
            | inr (x, w1, e1, s1) ↦
                rw (taken, e1, s1, same)
                  (record {
                    further = grows (d ∷ []) (λ e h. h) refl (new, tt) refl (taken_honestly d b);
                    done = λ e. cc e;
                  })
            | inl (u, b1, w1, written, e1, s1) ↦
                let after : w1.state
                    ≡ record b { delivered = d ∷ b.delivered; recorded = d ∷ b.recorded } =
                  s1
                  ∙ cc written
                  ∙ ap {A = Deliveries} {B = Deliveries}
                      (λ b. record b { delivered = d ∷ b.delivered; recorded = d ∷ b.recorded })
                      same in
                let (further, done) = record_delivery d b new in
                rw (taken, e1, after) (record { further = further; done = λ e. done })
          ]
  ]

  pub run_channel-ChannelRun :
      (enabled : Bool) (d : Delivery) (r : NotificationRecipient) (w : World Deliveries P)
      → ChannelRun enabled d w.state (run_channel deliver enabled d r w)
  unfolding run_channel
  run_channel-ChannelRun false d r w = record { further = Grows-refl w.state; done = λ e. refl }
  run_channel-ChannelRun true d r w =
      elim (access_cases (λ (b : Deliveries). some (already_delivered d b, b)) w) [
        | inr (x, w1, e1, s1) ↦
            rw (e1, s1) (record { further = Grows-refl w.state; done = λ e. cc e })
        | inl (already, b1, w1, read, e1, s1) ↦
            let same : w1.state ≡ w.state = s1 ∙ cc read in
            let known : already ≡ already_delivered d w.state = cc read in
            elim (Bool-cases (already_delivered d w.state)) [
              | inl old ↦
                  rw (e1, known, old)
                    (record {
                      further = subst (Grows w.state) (sym same) (Grows-refl w.state);
                      done = λ e. ap (already_delivered d) same ∙ old;
                    })
              | inr new ↦ rw (e1, known, new) (deliver_channel-ChannelRun d r w.state w1 same new)
            ]
      ]

-- Every enabled channel of the recipients has its delivery recorded.
abbrev pub IsCovered : NotificationRecipient → Deliveries → Type 0
IsCovered r b =
    (covered (r.email_enabled && is_some r.email_address) (email_delivery r) b ≡ true)
    × (covered r.push_enabled (push_delivery r) b ≡ true)

pub covered_later :
    (enabled : Bool) (d : Delivery) (b b' : Deliveries)
    → Grows b b'
    → covered enabled d b ≡ true
    → covered enabled d b' ≡ true
covered_later false d b b' g e = refl
covered_later true d b b' (grows more keep log new same honest) e = keep d e
