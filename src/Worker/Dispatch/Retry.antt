-- ===== src/Worker/Dispatch/Retry.antt =====
-- A retry of an event by the worker, after src/worker/handlers/notification-dispatch.handler.ts has
-- succeeded or failed.
use mathlib.Core.Path.{subst}
use mealdirectbackend.Common.{
  ◌≡◌, refl, sym, ◌∙◌, ap, List, [], ◌∷◌, Bool, true, false, some, Result, ok, err, String, ◌&&◌,
  if◌then◌else◌, is_some, inl, inr, All,
}
use mealdirectbackend.Payouts.Client.{Thrown, other}
use mealdirectbackend.Payments.Machine.{World, pure, throw, resume}
use mealdirectbackend.Payments.Machine.Accesses.{access_cases}
use mealdirectbackend.Worker.Dispatch.{
  NotificationRecipient, Delivery, Deliveries, already_delivered, find_recipients_for_event,
  run_channel, email_delivery, push_delivery, run_recipients, handle_notifications,
}
use mealdirectbackend.Worker.Dispatch.Once.{
  IsHonest, was_delivered, Grows, grows, Grows-refl, Grows-trans, ChannelRun,
  run_channel-ChannelRun, covered, IsCovered, covered_later,
}

Grows-notifications : (b b' : Deliveries) → Grows b b' → b'.notifications ≡ b.notifications
Grows-notifications b b' (grows more keep log new same honest) = same

Grows-IsHonest : (b b' : Deliveries) → Grows b b' → IsHonest b → IsHonest b'
Grows-IsHonest b b' (grows more keep log new same honest) = honest

-- Each enabled channel has taken the message of the recipient, and this is recorded.
abbrev pub IsReached : NotificationRecipient → Deliveries → Type 0
IsReached r b =
    (r.email_enabled ≡ true
      → is_some r.email_address ≡ true
      → (was_delivered (email_delivery r) b ≡ true)
        × (already_delivered (email_delivery r) b ≡ true))
    × (r.push_enabled ≡ true
        → (was_delivered (push_delivery r) b ≡ true)
          × (already_delivered (push_delivery r) b ≡ true))

IsCovered-IsReached :
    (b : Deliveries) (recipients : List NotificationRecipient)
    → IsHonest b
    → All (λ r. IsCovered r b) recipients
    → All (λ r. IsReached r b) recipients
unfolding email_delivery push_delivery
IsCovered-IsReached b [] honest all = tt
IsCovered-IsReached b (r ∷ recipients) honest ((by_email, by_push), all) = (
  (
    λ on address.
        let recorded = rw (on, address) at by_email in
        (honest (email_delivery r) recorded, recorded),
    λ on. let recorded = rw on at by_push in (honest (push_delivery r) recorded, recorded),
  ),
  IsCovered-IsReached b recipients honest all,
)

IsCovered-later :
    (recipients : List NotificationRecipient) (b b' : Deliveries)
    → Grows b b'
    → All (λ r. IsCovered r b) recipients
    → All (λ r. IsCovered r b') recipients
IsCovered-later [] b b' g all = tt
IsCovered-later (r ∷ recipients) b b' g ((by_email, by_push), all) = (
  (
    covered_later (r.email_enabled && is_some r.email_address) (email_delivery r) b b' g by_email,
    covered_later r.push_enabled (push_delivery r) b b' g by_push,
  ),
  IsCovered-later recipients b b' g all,
)

pub record RecipientsRun {P : Type 0} (recipients : List NotificationRecipient) (fine : Bool)
    (b : Deliveries) (run : Result Thrown Bool × World Deliveries P) : Type 0 where
  pub further : Grows b run.1.state
  pub done : run.0 ≡ ok true → (fine ≡ true) × All (λ r. IsCovered r run.1.state) recipients

and_both : (a b c : Bool) → (a && b && c) ≡ true → (a ≡ true) × (b ≡ true) × (c ≡ true)
and_both true true true e = (refl, refl, refl)
and_both true true false e = cc e
and_both true false c e = cc e
and_both false b c e = cc e

module _ {P : Type 0} (deliver : Delivery → NotificationRecipient → P → Bool × P) where
  run_recipients-RecipientsRun :
      (recipients : List NotificationRecipient) (fine : Bool) (w : World Deliveries P)
      → RecipientsRun recipients fine w.state (run_recipients deliver recipients fine w)
  unfolding run_recipients
  run_recipients-RecipientsRun [] fine w = record {
    further = Grows-refl w.state;
    done = λ e. (cc e, tt);
  }
  run_recipients-RecipientsRun (r ∷ recipients) fine w =
      by_first
        (run_channel deliver (r.email_enabled && is_some r.email_address) (email_delivery r) r w)
        (run_channel-ChannelRun deliver (r.email_enabled && is_some r.email_address)
          (email_delivery r) r w)
        (run_recipients-RecipientsRun recipients)
    where
      by_second :
          (by_email : Bool) (w1 : World Deliveries P) (x : Result Thrown Bool × World Deliveries P)
          → Grows w.state w1.state
          → (by_email ≡ true
              → covered (r.email_enabled && is_some r.email_address) (email_delivery r) w1.state
                ≡ true)
          → ChannelRun r.push_enabled (push_delivery r) w1.state x
          → ((fine : Bool) (w : World Deliveries P)
              → RecipientsRun recipients fine w.state (run_recipients deliver recipients fine w))
          → RecipientsRun (r ∷ recipients) fine w.state (
              resume x (λ by_push. run_recipients deliver recipients (fine && by_email && by_push)))
      by_second by_email w1 (err e, w2) g first second rest = record {
        further = Grows-trans w.state w1.state w2.state g second.further;
        done = λ e. cc e;
      }
      by_second by_email w1 (ok by_push, w2) g first second rest =
          let last = rest (fine && by_email && by_push) w2 in
          let final =
            (run_recipients deliver recipients (fine && by_email && by_push) w2).1.state in
          record {
            further =
                Grows-trans w.state w1.state final g
                  (Grows-trans w1.state w2.state final second.further last.further);
            done = λ e.
                let (all_fine, all) = last.done e in
                let (was_fine, email_fine, push_fine) = and_both fine by_email by_push all_fine in
                (
                  was_fine,
                  (
                    (
                      covered_later (r.email_enabled && is_some r.email_address) (email_delivery r)
                          w1.state final
                          (Grows-trans w1.state w2.state final second.further last.further)
                          (first email_fine),
                      covered_later r.push_enabled (push_delivery r) w2.state final last.further
                          (second.done (ap (λ b. ok b) push_fine)),
                    ),
                    all,
                  ),
                );
          }

      by_first :
          (x : Result Thrown Bool × World Deliveries P)
          → ChannelRun (r.email_enabled && is_some r.email_address) (email_delivery r) w.state x
          → ((fine : Bool) (w : World Deliveries P)
              → RecipientsRun recipients fine w.state (run_recipients deliver recipients fine w))
          → RecipientsRun (r ∷ recipients) fine w.state (
              resume x (λ by_email w1.
                resume
                  (run_channel deliver r.push_enabled (push_delivery r) r w1)
                  (λ by_push. run_recipients deliver recipients (fine && by_email && by_push))))
      by_first (err e, w1) first rest = record { further = first.further; done = λ e. cc e }
      by_first (ok by_email, w1) first rest =
          by_second by_email w1 (run_channel deliver r.push_enabled (push_delivery r) r w1)
            first.further (λ e. first.done (ap (λ b. ok b) e))
            (run_channel-ChannelRun deliver r.push_enabled (push_delivery r) r w1) rest

  handle_notifications_run :
      (event_id : String) (w : World Deliveries P)
      → Grows w.state (handle_notifications deliver event_id w).1.state
        × ((handle_notifications deliver event_id w).0 ≡ ok tt
            → All
                (λ r. IsCovered r (handle_notifications deliver event_id w).1.state)
                (find_recipients_for_event event_id w.state))
  unfolding handle_notifications
  handle_notifications_run event_id w =
      elim (access_cases (λ (b : Deliveries). some (find_recipients_for_event event_id b, b)) w) [
        | inr (x, w1, e1, s1) ↦ rw (e1, s1) (Grows-refl w.state, λ e. cc e)
        | inl (recipients, b1, w1, read, e1, s1) ↦
            let same : w1.state ≡ w.state = s1 ∙ cc read in
            let found : recipients ≡ find_recipients_for_event event_id w.state = cc read in
            rw (e1, found)
              (ended (find_recipients_for_event event_id w.state)
                (run_recipients deliver (find_recipients_for_event event_id w.state) true w1)
                (subst
                  (λ s.
                    RecipientsRun (find_recipients_for_event event_id w.state) true s
                      (run_recipients deliver (find_recipients_for_event event_id w.state) true w1))
                  same
                  (run_recipients-RecipientsRun (find_recipients_for_event event_id w.state) true
                    w1)))
      ]
    where
      ended :
          (recipients : List NotificationRecipient) (x : Result Thrown Bool × World Deliveries P)
          → RecipientsRun recipients true w.state x
          → Grows w.state (resume x (λ fine. if fine then pure tt else throw other)).1.state
            × ((resume x (λ fine. if fine then pure tt else throw other)).0 ≡ ok tt
                → All
                    (λ r.
                      IsCovered r
                        (resume x (λ fine. if fine then pure tt else throw other)).1.state)
                    recipients)
      ended recipients (err e, w2) run = (run.further, λ e. cc e)
      ended recipients (ok true, w2) run = (run.further, λ e. (run.done refl).1)
      ended recipients (ok false, w2) run = (run.further, λ e. cc e)

  -- Whatever fails, what handling an event delivers was not recorded before, and a delivery that was
  -- recorded stays so.
  pub handle_notifications-Grows :
      (event_id : String) (w : World Deliveries P)
      → Grows w.state (handle_notifications deliver event_id w).1.state
  handle_notifications-Grows event_id w = (handle_notifications_run event_id w).0

  -- If only what a channel has taken is recorded, and handling an event returns, then the e-mail channel,
  -- if it is enabled and there is an address, and the push channel, if it is enabled, have taken the
  -- message of each of its recipients, and this is recorded; still only what was taken is recorded.
  pub handle_notifications_delivers :
      (event_id : String) (w : World Deliveries P)
      → IsHonest w.state
      → (handle_notifications deliver event_id w).0 ≡ ok tt
      → All
          (λ r. IsReached r (handle_notifications deliver event_id w).1.state)
          (find_recipients_for_event event_id w.state)
        × IsHonest (handle_notifications deliver event_id w).1.state
  handle_notifications_delivers event_id w honest handled =
      let (further, all) = handle_notifications_run event_id w in
      let after = (handle_notifications deliver event_id w).1.state in
      let later = Grows-IsHonest w.state after further honest in
      (
        IsCovered-IsReached after (find_recipients_for_event event_id w.state) later (all handled),
        later,
      )

  run_channel_covered :
      (enabled : Bool) (d : Delivery) (r : NotificationRecipient) (w : World Deliveries P)
      → covered enabled d w.state ≡ true
      → (run_channel deliver enabled d r w).1.state ≡ w.state
  unfolding run_channel
  run_channel_covered false d r w e = refl
  run_channel_covered true d r w e =
      elim (access_cases (λ (b : Deliveries). some (already_delivered d b, b)) w) [
        | inr (x, w1, e1, s1) ↦ rw e1 s1
        | inl (already, b1, w1, read, e1, s1) ↦
            let known : already ≡ true = cc (read, e) in rw (e1, known) (s1 ∙ cc read)
      ]

  run_recipients_covered :
      (recipients : List NotificationRecipient) (fine : Bool) (w : World Deliveries P)
      (b : Deliveries)
      → w.state ≡ b
      → All (λ r. IsCovered r b) recipients
      → (run_recipients deliver recipients fine w).1.state ≡ b
  unfolding run_recipients
  run_recipients_covered [] fine w b same all = same
  run_recipients_covered (r ∷ recipients) fine w b same ((by_email, by_push), all) =
      by_first
        (run_channel deliver (r.email_enabled && is_some r.email_address) (email_delivery r) r w)
        (run_channel_covered (r.email_enabled && is_some r.email_address) (email_delivery r) r w (
            ap (covered (r.email_enabled && is_some r.email_address) (email_delivery r)) same
            ∙ by_email)
          ∙ same)
        (λ fine w same. run_recipients_covered recipients fine w b same all)
    where
      by_second :
          (by_email : Bool) (x : Result Thrown Bool × World Deliveries P)
          → x.1.state ≡ b
          → ((fine : Bool) (w : World Deliveries P)
              → w.state ≡ b
              → (run_recipients deliver recipients fine w).1.state ≡ b)
          → (resume x
              (λ by_push. run_recipients deliver recipients (fine && by_email && by_push))).1.state
            ≡ b
      by_second by_email (err e, w2) same rest = same
      by_second by_email (ok by_push, w2) same rest = rest (fine && by_email && by_push) w2 same

      by_first :
          (x : Result Thrown Bool × World Deliveries P)
          → x.1.state ≡ b
          → ((fine : Bool) (w : World Deliveries P)
              → w.state ≡ b
              → (run_recipients deliver recipients fine w).1.state ≡ b)
          → (resume x (λ by_email w1.
              resume (run_channel deliver r.push_enabled (push_delivery r) r w1) (λ by_push.
                run_recipients deliver recipients (fine && by_email && by_push)))).1.state
            ≡ b
      by_first (err e, w1) same rest = same
      by_first (ok by_email, w1) same rest =
          by_second by_email (run_channel deliver r.push_enabled (push_delivery r) r w1)
            (run_channel_covered r.push_enabled (push_delivery r) r w1
                (ap (covered r.push_enabled (push_delivery r)) same ∙ by_push)
              ∙ same)
            rest

  handle_notifications_covered :
      (event_id : String) (w : World Deliveries P)
      → All (λ r. IsCovered r w.state) (find_recipients_for_event event_id w.state)
      → (handle_notifications deliver event_id w).1.state ≡ w.state
  unfolding handle_notifications
  handle_notifications_covered event_id w all =
      elim (access_cases (λ (b : Deliveries). some (find_recipients_for_event event_id b, b)) w) [
        | inr (x, w1, e1, s1) ↦ rw e1 s1
        | inl (recipients, b1, w1, read, e1, s1) ↦
            let found : recipients ≡ find_recipients_for_event event_id w.state = cc read in
            rw (e1, found)
              (ended (run_recipients deliver (find_recipients_for_event event_id w.state) true w1) (
                run_recipients_covered (find_recipients_for_event event_id w.state) true w1 w.state
                  (s1 ∙ cc read) all))
      ]
    where
      ended :
          (x : Result Thrown Bool × World Deliveries P)
          → x.1.state ≡ w.state
          → (resume x (λ fine. if fine then pure tt else throw other)).1.state ≡ w.state
      ended (err e, w2) same = same
      ended (ok true, w2) same = same
      ended (ok false, w2) same = same

  find_recipients_same :
      (event_id : String) (b b' : Deliveries)
      → b'.notifications ≡ b.notifications
      → find_recipients_for_event event_id b' ≡ find_recipients_for_event event_id b
  unfolding find_recipients_for_event
  find_recipients_same event_id b b' same = rw same refl

  -- After an event was handled without an error, handling it again, whatever fails then and however
  -- the channels answer, delivers nothing and changes nothing.
  pub handle_notifications_once :
      (event_id : String) (w again : World Deliveries P)
      → (handle_notifications deliver event_id w).0 ≡ ok tt
      → again.state ≡ (handle_notifications deliver event_id w).1.state
      → (handle_notifications deliver event_id again).1.state ≡ again.state
  handle_notifications_once event_id w again handled same =
      let (further, all) = handle_notifications_run event_id w in
      let after = (handle_notifications deliver event_id w).1.state in
      handle_notifications_covered event_id again (
        subst (λ s. All (λ r. IsCovered r s) (find_recipients_for_event event_id s)) (sym same)
          (subst (All (λ r. IsCovered r after))
            (sym (
              find_recipients_same event_id w.state after
                (Grows-notifications w.state after further)))
            (all handled)))
