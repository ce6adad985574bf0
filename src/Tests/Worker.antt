-- ===== src/Tests/Worker.antt =====
-- The worker at concrete inputs: a handler that always throws, and a channel that refuses e-mail once.
use mealdirectbackend.Common.{
  ◌+◌, ◌≤◌, ◌≡◌, refl, List, [], ◌∷◌, Bool, true, false, none, some, ok, err, String, inr, arith,
  All,
}
use mealdirectbackend.Payouts.Client.{Thrown, other}
use mealdirectbackend.Payments.Machine.{World, access}
use mealdirectbackend.Worker.Outbox.{
  OutboxRow, HandlerRegistry, ProcessorConfig, handlers_for, claim_batch, claim_ids, update_row,
  completed, failed, run_handlers, handle_event, caught, process_events, drain_once,
}
use mealdirectbackend.Worker.Outbox.Attempts.{IsWithin, attempts_left}
use mealdirectbackend.Worker.Outbox.Bound.{run_drains, run_drains_bounded}
use mealdirectbackend.Worker.Dispatch.{
  Channel, NotificationRecipient, Delivery, Deliveries, handle_notifications,
  find_recipients_for_event, deliver_channel, run_channel, run_recipients, email_delivery,
  push_delivery,
}
use mealdirectbackend.Worker.Dispatch.Once.{IsHonest}
use mealdirectbackend.Worker.Dispatch.Retry.{
  IsReached, handle_notifications_delivers, handle_notifications_once,
}

abbrev order_ready : OutboxRow
order_ready = record {
  id = "e1";
  event_type = "order.ready";
  attempts = 0;
  available_at = 0;
  is_locked = false;
  is_processed = false;
  is_failed = false;
  last_error = none;
}

abbrev broken_registry : HandlerRegistry (Unit {0})
broken_registry = record {
  handlers = [];
  prefix_handlers = ("order.", λ event h. (err other, h)) ∷ [];
}

abbrev two_attempts : ProcessorConfig
two_attempts = record { batch_size = 10; max_attempts = 2 }

abbrev message_of : Thrown → String
message_of e = "Unknown handler failure"

abbrev one_event : World (List OutboxRow) (Unit {0})
one_event = record { state = order_ready ∷ []; provider = tt; audited = []; outages = [] }

-- It fails at 0, waits two seconds, fails at 2 for good, and is not claimed at 9.
dead_after_two :
    (run_drains broken_registry two_attempts message_of (0 ∷ 1 ∷ 2 ∷ 9 ∷ []) one_event).0 ≡ 2
unfolding run_drains drain_once process_events caught handle_event run_handlers handlers_for
    claim_batch claim_ids update_row completed failed access
dead_after_two = refl

run_drains_bounded_example :
    All
      (IsWithin 2)
      (run_drains broken_registry two_attempts message_of (0 ∷ 2 ∷ []) one_event).1.state
    × ((run_drains broken_registry two_attempts message_of (0 ∷ 2 ∷ []) one_event).0
          + attempts_left 2
              (run_drains broken_registry two_attempts message_of (0 ∷ 2 ∷ []) one_event).1.state
        ≤ 2)
run_drains_bounded_example =
    run_drains_bounded broken_registry two_attempts message_of (0 ∷ 2 ∷ []) one_event
      (record { attempts = omega arith; waiting = inr (inr (inr (omega arith))) }, tt)

abbrev customer_of_order : NotificationRecipient
customer_of_order = record {
  user_id = "u1";
  email_address = some "a@b";
  email_enabled = true;
  push_enabled = true;
  notification_id = "n1";
}

abbrev to_deliver : World Deliveries (Unit {0})
to_deliver = record {
  state = record { notifications = ("e1", customer_of_order) ∷ []; recorded = []; delivered = [] };
  provider = tt;
  audited = [];
  outages = [];
}

abbrev taking : Delivery → NotificationRecipient → Unit {0} → Bool × Unit {0}
taking d r p = (true, p)

abbrev refusing_email : Delivery → NotificationRecipient → Unit {0} → Bool × Unit {0}
refusing_email d r p = (elim d.channel [ Channel.email ↦ false | Channel.push ↦ true ], p)

-- A refused e-mail does not stop the push message.
push_without_email :
    (handle_notifications refusing_email "e1" to_deliver).1.state.delivered
    ≡ record { notification_id = "n1"; channel = Channel.push } ∷ []
unfolding handle_notifications find_recipients_for_event run_recipients run_channel deliver_channel
    email_delivery push_delivery access
push_without_email = refl

handled_once : (handle_notifications taking "e1" to_deliver).0 ≡ ok tt
unfolding handle_notifications find_recipients_for_event run_recipients run_channel deliver_channel
    email_delivery push_delivery access
handled_once = refl

nothing_recorded : IsHonest to_deliver.state
nothing_recorded d e = cc e

handle_notifications_delivers_example :
    All
      (λ r. IsReached r (handle_notifications taking "e1" to_deliver).1.state)
      (find_recipients_for_event "e1" to_deliver.state)
    × IsHonest (handle_notifications taking "e1" to_deliver).1.state
handle_notifications_delivers_example =
    handle_notifications_delivers taking "e1" to_deliver nothing_recorded handled_once

abbrev after_delivery : World Deliveries (Unit {0})
after_delivery = (handle_notifications taking "e1" to_deliver).1

handle_notifications_once_example :
    (handle_notifications taking "e1" after_delivery).1.state ≡ after_delivery.state
handle_notifications_once_example =
    handle_notifications_once taking "e1" to_deliver after_delivery handled_once refl
