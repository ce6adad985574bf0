-- ===== src/Worker/Dispatch.antt =====
-- The delivery of notifications: src/worker/handlers/notification-dispatch.handler.ts. The channels
-- themselves are a parameter, and the message is left out.
pub mod Once
pub mod Retry
use mealdirectbackend.Common.{
  ℕ, suc, List, [], ◌∷◌, ◌++◌, Bool, true, false, Option, none, some, Result, ok, err, String,
  str_eq, not, ◌&&◌, if◌then◌else◌, any, is_some, ◌==◌,
}
use mealdirectbackend.Payouts.Client.{Thrown, other}
use mealdirectbackend.Payments.Machine.{World, M, pure, throw, resume, ◌>>=◌, ◌>>◌, access}

pub data Channel : Type 0 where
  email push : Channel

pub record NotificationRecipient : Type 0 where
  pub user_id : String
  pub email_address : Option String
  pub email_enabled : Bool
  pub push_enabled : Bool
  pub notification_id : String

pub record Delivery : Type 0 where
  pub notification_id : String
  pub channel : Channel

-- The rows of notifications by their event, the deliveries recorded as sent, and what the channels
-- have delivered, the last first.
pub record Deliveries : Type 0 where
  pub notifications : List (String × NotificationRecipient)
  pub recorded : List Delivery
  pub delivered : List Delivery

abbrev pub same_channel : Channel → Channel → Bool
same_channel email email = true
same_channel push push = true
same_channel _ _ = false

abbrev pub same_delivery : Delivery → Delivery → Bool
same_delivery d e = str_eq d.notification_id e.notification_id && same_channel d.channel e.channel

-- `alreadyDelivered`
abbrev pub already_delivered : Delivery → Deliveries → Bool
already_delivered d b = any (same_delivery d) b.recorded

unfoldable pub find_recipients_for_event : String → Deliveries → List NotificationRecipient
find_recipients_for_event event_id b = of_event b.notifications
  where
    of_event : List (String × NotificationRecipient) → List NotificationRecipient
    of_event [] = []
    of_event ((event, r) ∷ rows) =
        let rest = of_event rows in if str_eq event event_id then r ∷ rest else rest

unfoldable pub email_delivery : NotificationRecipient → Delivery
email_delivery r = record { notification_id = r.notification_id; channel = email }

unfoldable pub push_delivery : NotificationRecipient → Delivery
push_delivery r = record { notification_id = r.notification_id; channel = push }

-- `deliver` is a channel: whether it takes the message, and what it keeps.
module _ {P : Type 0} (deliver : Delivery → NotificationRecipient → P → Bool × P) where
  -- The `try` block of a channel; what it throws is caught, and counted as a failure.
  unfoldable pub deliver_channel : Delivery → NotificationRecipient → M Deliveries P Bool
  deliver_channel d r w =
      let (taken, p) = deliver d r w.provider in
      if taken
      then recorded_or_not (
          access (λ b. some (tt, record b { recorded = d ∷ b.recorded }))
            (record w {
              provider = p;
              state = record w.state { delivered = d ∷ w.state.delivered };
            }))
      else (ok false, record w { provider = p })
    where
      recorded_or_not :
          Result Thrown (Unit {0}) × World Deliveries P → Result Thrown Bool × World Deliveries P
      recorded_or_not (ok done, w) = (ok true, w)
      recorded_or_not (err e, w) = (ok false, w)

  -- A channel of a recipient: false if it failed.
  unfoldable pub run_channel : Bool → Delivery → NotificationRecipient → M Deliveries P Bool
  run_channel false d r w = (ok true, w)
  run_channel true d r w =
      resume (access (λ b. some (already_delivered d b, b)) w)
        (λ already. if already then pure true else deliver_channel d r)

  -- Whether every channel of every recipient succeeded; one that fails does not stop the others.
  unfoldable pub run_recipients : List NotificationRecipient → Bool → M Deliveries P Bool
  run_recipients [] fine w = pure fine w
  run_recipients (r ∷ recipients) fine w =
      resume (run_channel (r.email_enabled && is_some r.email_address) (email_delivery r) r w)
        (λ by_email. run_channel r.push_enabled (push_delivery r) r >>= λ by_push.
          run_recipients recipients (fine && by_email && by_push))

  unfoldable pub handle_notifications : String → M Deliveries P (Unit {0})
  handle_notifications event_id = do
    recipients ← access (λ b. some (find_recipients_for_event event_id b, b))
    fine ← run_recipients recipients true
    if fine then pure tt else throw other
