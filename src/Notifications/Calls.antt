-- ===== src/Notifications/Calls.antt =====
-- The calls of the notification service as steps on its state. Every call begins on a new session.
pub mod Unread
use spoutbreeze_backend.Prelude.{ℕ, Bool, false, Option, List, [], ◌∷◌, String}
use spoutbreeze_backend.Presence.{connect, disconnect}
use spoutbreeze_backend.Notifications.Store.{NotificationPreference, FcmToken, World}
use spoutbreeze_backend.Notifications.Delivery.{Send}
use spoutbreeze_backend.Notifications.Service.{
  NotificationCreate, notify, notify_bulk, get_unread_count,
}
use spoutbreeze_backend.Notifications.Inbox.{
  get_notifications, mark_as_read, mark_all_as_read, delete_notification, delete_all_read,
  upsert_preference, register_fcm_token, unregister_fcm_token,
}
use spoutbreeze_backend.Notifications.Background.{deliver_email, deliver_push, Answer, send_push}

pub data Call : Type 0 where
  notifies : (ℕ → Bool) → ℕ → NotificationCreate → Option String → Call
  notifies_all : (ℕ → Bool) → List (ℕ × ℕ) → NotificationCreate → Call
  lists : ℕ → ℕ → ℕ → Bool → Option String → Call
  counts : ℕ → Call
  marks : ℕ → ℕ → List ℕ → Call
  marks_all : ℕ → ℕ → Call
  deletes : ℕ → ℕ → Call
  deletes_read : ℕ → Call
  prefers : NotificationPreference → Call
  registers : FcmToken → Call
  unregisters : ℕ → String → Call
  emails pushes : (ℕ → Send) → ℕ → Call
  sends_push : Bool → (String → Answer) → ℕ → Call
  connects disconnects : ℕ → ℕ → Call

abbrev pub on_new_session : World → World
on_new_session w = record w { failed = false }

abbrev pub perform : Call → World → World
perform (notifies fails k p address) w = (notify fails k p address w).1
perform (notifies_all fails us p) w = (notify_bulk fails us p w).1
perform (lists u page size unread ty) w = (get_notifications u page size unread ty w).1
perform (counts u) w = (get_unread_count u w).1
perform (marks now u ids) w = (mark_as_read now u ids w).1
perform (marks_all now u) w = (mark_all_as_read now u w).1
perform (deletes u k) w = (delete_notification u k w).1
perform (deletes_read u) w = (delete_all_read u w).1
perform (prefers q) w = upsert_preference q w
perform (registers q) w = register_fcm_token q w
perform (unregisters u t) w = unregister_fcm_token u t w
perform (emails send k) w = deliver_email send k w
perform (pushes send k) w = deliver_push send k w
perform (sends_push app answer u) w = (send_push app answer u w).1
perform (connects u s) w = record w { presence = connect u s w.presence }
perform (disconnects u s) w = record w { presence = disconnect u s w.presence }

abbrev pub run : List Call → World → World
run [] w = w
run (c ∷ cs) w = run cs (perform c (on_new_session w))
