-- ===== src/Notifications/Tests.antt =====
-- Two users, one of them online, and the theorems at concrete calls.
use spoutbreeze_backend.Prelude.{
  ℕ, ◌+◌, ◌*◌, ◌≡◌, ◌≤◌, refl, Bool, true, false, Option, none, some, List, [], ◌∷◌, arith, ◌==◌,
  if◌then◌else◌,
}
use spoutbreeze_backend.Prelude.Session.{ok}
use spoutbreeze_backend.Presence.{is_user_online}
use spoutbreeze_backend.Events.Store.{EventStatus, Event}
use spoutbreeze_backend.Notifications.Store.{
  NotificationType, Priority, DeliveryStatus, Key, text_key, Notification, World,
}
use spoutbreeze_backend.Notifications.Service.{
  NotificationCreate, notify, notify_bulk, get_unread_count, count_unread, check_idempotency,
  check_rate_limit, rate_limit_max, new_row, get_channels, limit_and_store, store_new,
}
use spoutbreeze_backend.Notifications.Service.Once.{notify-once}
use spoutbreeze_backend.Notifications.Service.Rate.{rows_of, rate_of, notify_bulk_bounds}
use spoutbreeze_backend.Notifications.Service.Flaws.{notify-pushed_count, notify_bulk-unknown_first}
use spoutbreeze_backend.Notifications.Service.Unread.{Coherent}
use spoutbreeze_backend.Notifications.Inbox.{get_notifications}
use spoutbreeze_backend.Notifications.Calls.{
  Call, notifies, notifies_all, counts, marks_all, deletes_read, lists, run,
}
use spoutbreeze_backend.Notifications.Calls.Unread.{get_unread_count-run}
use spoutbreeze_backend.Notifications.Delivery.{Send, sent, raises, not_sent, deliver}
use spoutbreeze_backend.Notifications.Reminders.{Texts, is_due, send_due_reminders}
use spoutbreeze_backend.Notifications.Reminders.Again.{send_due_reminders-again}

abbrev working : ℕ → Bool
working s = false

abbrev hello : NotificationCreate
hello = record {
  user_id = 1;
  notification_type = NotificationType.system_announcement;
  title = "Hello";
  body = "Hello to you";
  payload = none;
  priority = Priority.normal;
  send_in_app = true;
  send_email = true;
  send_push = false;
  idempotency_key = none;
}

abbrev keyed : NotificationCreate
keyed = record hello { idempotency_key = some (text_key "welcome") }

-- User 1 is online with one socket and has a cached count of no unread rows.
abbrev start : World
start = record {
  users = 1 ∷ 2 ∷ [];
  notifications = [];
  preferences = [];
  fcm_tokens = [];
  redis = some (record { unread = record { key = 1; value = 0 } ∷ []; rate = [] });
  presence = record {
    connections = record { key = 1; value = 10 ∷ [] } ∷ [];
    online = some (1 ∷ []);
    clock = 50;
    runs_out = 3650;
  };
  pushed = [];
  tasks = [];
  failed = false;
}

abbrev offline : World
offline = record start { redis = none }

-- An attempt that raises, one that does not send, and one that does.
abbrev third_sends : ℕ → Send
third_sends n = if n == 3 then sent else if n == 1 then raises else not_sent

deliver_third : deliver third_sends ≡ record { success = true; attempts = 3; waited = 6 }
unfolding deliver
deliver_third = refl

abbrev mixed_calls : List Call
mixed_calls =
    notifies working 5 hello (some "ana@x.org")
    ∷ counts 1
    ∷ notifies working 6 keyed none
    ∷ marks_all 77 1
    ∷ notifies_all working ((2, 7) ∷ (1, 8) ∷ []) hello
    ∷ deletes_read 1
    ∷ lists 1 1 20 true none
    ∷ []

get_unread_count-run_example :
    (get_unread_count 1 (run mixed_calls offline)).0
    ≡ count_unread 1 (run mixed_calls offline).notifications
get_unread_count-run_example = get_unread_count-run mixed_calls offline 1 (λ v. refl)

notify_bulk_bounds_example :
    let us : List (ℕ × ℕ) = (1, 5) ∷ (2, 6) ∷ (1, 7) ∷ [] in
    let w' = (notify_bulk working us hello start).1 in
    (rows_of 1 w'.notifications + rate_of 1 start.redis
      ≤ rows_of 1 start.notifications + rate_limit_max)
    × (rate_of 1 w'.redis ≤ rate_limit_max)
notify_bulk_bounds_example =
    notify_bulk_bounds working ((1, 5) ∷ (2, 6) ∷ (1, 7) ∷ []) hello 1 start refl (omega arith)

unlimited_first : (check_rate_limit 9 start.redis).0 ≡ true
unfolding check_rate_limit
unlimited_first = refl

notify_bulk-unknown_first_example :
    let (n, w') = notify_bulk working ((9, 5) ∷ (1, 6) ∷ []) hello start in
    (n ≡ 0) × (w'.notifications ≡ [])
notify_bulk-unknown_first_example =
    notify_bulk-unknown_first working 9 5 ((1, 6) ∷ []) hello start refl unlimited_first

-- The row of the greeting, as the answer shows it.
abbrev hello_row : ℕ → Option Key → Notification
hello_row k key = record {
  id = k;
  user_id = 1;
  notification_type = NotificationType.system_announcement;
  title = "Hello";
  body = "Hello to you";
  payload = none;
  priority = Priority.normal;
  send_in_app = true;
  send_email = true;
  send_push = false;
  in_app_status = DeliveryStatus.pending;
  email_status = DeliveryStatus.pending;
  push_status = DeliveryStatus.skipped;
  is_read = false;
  read_at = none;
  email_retry_count = 0;
  push_retry_count = 0;
  idempotency_key = key;
}

hello_stored : (notify working 5 hello none start).0 ≡ ok (hello_row 5 none)
unfolding notify limit_and_store check_rate_limit store_new new_row get_channels
hello_stored = refl

keyed_stored : (notify working 5 keyed none start).0 ≡ ok (hello_row 5 (some (text_key "welcome")))
unfolding notify check_idempotency limit_and_store check_rate_limit store_new new_row get_channels
keyed_stored = refl

online_now : is_user_online 1 start.presence ≡ true
unfolding is_user_online
online_now = refl

-- The one counter that is cached is right.
start-Coherent : Coherent start.redis start.notifications
start-Coherent u n h = ground arith

notify-pushed_count_example :
    let w' = (notify working 5 hello none start).1 in
    (w'.pushed ≡ record { user_id = 1; notification_id = 5; unread_count = 0 } ∷ [])
    × ((get_unread_count 1 w').0 ≡ 1)
notify-pushed_count_example =
    notify-pushed_count working 5 hello none start {n = hello_row 5 none} {c = 0} start-Coherent
      refl hello_stored refl online_now refl

notify-once_example :
    let w' = (notify working 5 keyed none start).1 in
    (w'.failed ≡ false)
    × ((m : Notification) × (check_idempotency (text_key "welcome") w'.notifications ≡ some m)
        × (notify working 6 keyed (some "ana@x.org") w' ≡ (ok m, w')))
notify-once_example =
    notify-once working working 5 6 keyed keyed none (some "ana@x.org") start
      {k = text_key "welcome"} {n = hello_row 5 (some (text_key "welcome"))} refl refl refl
      keyed_stored

abbrev three : World
three = record start { notifications = hello_row 3 none ∷ hello_row 2 none ∷ hello_row 1 none ∷ [] }

three_in_all : (get_notifications 1 1 2 true none three).0.total ≤ 2 * 2
unfolding get_notifications
three_in_all = omega arith

abbrev talk : Event
talk = record {
  id = 7;
  title = "Talk";
  description = none;
  occurs = "daily";
  start_date = record { clock = 87400; tzinfo = none };
  end_date = record { clock = 88400; tzinfo = none };
  start_time = record { clock = 87400; tzinfo = none };
  timezone = "UTC";
  creator_id = 1;
  channel_id = 3;
  meeting_id = none;
  moderator_pw = none;
  attendee_pw = none;
  meeting_created = false;
  status = EventStatus.scheduled;
  actual_start_time = none;
  actual_end_time = none;
  organizers = 2 ∷ [];
}

abbrev texts : Texts
texts = record {
  title = λ e. e.title;
  body = λ e. "soon";
  payload = λ e. "data";
  address = λ u. none;
  new_id = λ e u. 100 * e + u;
}

send_due_reminders-again_example :
    let (r, w') = send_due_reminders working texts 86500 (talk ∷ []) offline in
    ((n : ℕ) × (r ≡ ok n)) × (send_due_reminders working texts 87300 (talk ∷ []) w' ≡ (ok 0, w'))
send_due_reminders-again_example =
    send_due_reminders-again working working texts texts 86500 87300 (talk ∷ []) offline refl refl
      refl (due, tt)
  where
    due : is_due 87300 talk ≡ true → is_due 86500 talk ≡ true
    due h = unfold is_due in refl
