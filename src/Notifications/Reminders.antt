-- ===== src/Notifications/Reminders.antt =====
-- `EventReminderService` of app/services/event_reminder_service.py. Days are numbers, `now` is in
-- seconds of the local clock; the texts of a reminder are inputs, and so is the id of a new row.
pub mod Recipients
pub mod Storing
pub mod Keys
pub mod Again
use spoutbreeze_backend.Prelude.{
  ℕ, suc, ◌+◌, ◌/◌, Bool, true, false, Option, none, some, List, [], ◌∷◌, map, String, ◌==◌, ◌&&◌,
  ◌||◌, not, leb, elem, find?, keep, if◌then◌else◌, is_some,
}
use spoutbreeze_backend.Prelude.Session.{Outcome, ok, raised, pending_rollback_error}
use spoutbreeze_backend.Events.Store.{EventStatus, same_status, Datetime, Event, User}
use spoutbreeze_backend.Notifications.Store.{
  NotificationType, Priority, Key, reminder_key, Notification, World,
}
use spoutbreeze_backend.Notifications.Service.{NotificationCreate, check_idempotency, notify}

-- `REMINDER_LEAD_MINUTES`, in seconds.
abbrev pub reminder_lead : ℕ
reminder_lead = 1800

-- The condition of the query.
unfoldable pub is_due : ℕ → Event → Bool
is_due now e =
    same_status e.status EventStatus.scheduled
    && (leb now e.start_time.clock && leb e.start_time.clock (now + reminder_lead))

-- The loop over the organizers.
unfoldable pub unseen : List ℕ → List ℕ → List ℕ
unseen seen [] = []
unseen seen (k ∷ ks) =
    let rest = unseen seen ks in
    let more = unseen (k ∷ seen) ks in if elem k seen then rest else k ∷ more

-- `_collect_recipients`; `creator` is none when the row of the creator is gone.
unfoldable pub collect_recipients : Option ℕ → List ℕ → List ℕ
unfolding unseen
collect_recipients none organizers = unseen [] organizers
collect_recipients (some c) organizers = c ∷ unseen (c ∷ []) organizers

-- What a reminder of an event says, the address of a user, and the id of the row for the two.
pub record Texts : Type 0 where
  pub title : Event → String
  pub body : Event → String
  pub payload : Event → String
  pub address : ℕ → Option String
  pub new_id : ℕ → ℕ → ℕ

abbrev pub reminder : Texts → ℕ → Event → ℕ → NotificationCreate
reminder x day e u = record {
  user_id = u;
  notification_type = NotificationType.event_reminder;
  title = x.title e;
  body = x.body e;
  payload = some (x.payload e);
  priority = Priority.normal;
  send_in_app = true;
  send_email = true;
  send_push = true;
  idempotency_key = some (reminder_key e.id u day);
}

abbrev pub creator_of : List ℕ → Event → Option ℕ
creator_of users e = if elem e.creator_id users then some e.creator_id else none

abbrev pub counted : Outcome Notification → ℕ → ℕ
counted (ok n) k = suc k
counted (raised e) k = k

-- The reminders of one event: an exception of `notify` is logged, but a failed session raises at
-- the check of the next recipient's key.
unfoldable pub remind_recipients :
    (ℕ → Bool) → Texts → ℕ → Event → List ℕ → ℕ → World → Outcome ℕ × World
remind_recipients fails x day e [] sent w = (ok sent, w)
remind_recipients fails x day e (u ∷ us) sent w =
    if w.failed
    then (raised pending_rollback_error, w)
    else elim (check_idempotency (reminder_key e.id u day) w.notifications) [
      | some n ↦ remind_recipients fails x day e us sent w
      | none ↦
          let (r, w') = notify fails (x.new_id e.id u) (reminder x day e u) (x.address u) w in
          remind_recipients fails x day e us (counted r sent) w'
    ]

unfoldable pub remind_events : (ℕ → Bool) → Texts → ℕ → List Event → ℕ → World → Outcome ℕ × World
remind_events fails x day [] sent w = (ok sent, w)
remind_events fails x day (e ∷ es) sent w =
    let (r, w') =
      remind_recipients fails x day e
        (collect_recipients (creator_of w.users e) (keep (λ k. elem k w.users) e.organizers)) sent
        w in
    elim r [ ok n ↦ remind_events fails x day es n w' | raised err ↦ (raised err, w') ]

-- `send_due_reminders`
unfoldable pub send_due_reminders : (ℕ → Bool) → Texts → ℕ → List Event → World → Outcome ℕ × World
send_due_reminders fails x now es w = remind_events fails x (now / 86400) (keep (is_due now) es) 0 w
