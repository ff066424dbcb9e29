-- ===== src/Notifications/Store.antt =====
-- The rows of app/models/notification_models.py and app/models/fcm_token_model.py, what Redis holds
-- for the service, and the state that app/services/notification_service.py works on. Every write of
-- the service is followed by its commit before anything else happens, so the rows are the durable
-- ones. Rows stand newest first.
use spoutbreeze_backend.Prelude.{
  ℕ, Bool, false, Option, none, some, List, String, ◌==◌, ◌&&◌, str_eq, true, truthy,
}
use spoutbreeze_backend.Prelude.Dict.{Entry}
use spoutbreeze_backend.Presence.{Presence}

pub data NotificationType : Type 0 where
  stream_started stream_ended stream_error event_created event_starting_soon event_cancelled
        organizer_added event_reminder payment_success payment_failed subscription_expiring
        system_announcement account_update chat_mention :
      NotificationType

-- The text of a type, as the preferences store it.
unfoldable pub type_name : NotificationType → String
type_name NotificationType.stream_started = "stream_started"
type_name NotificationType.stream_ended = "stream_ended"
type_name NotificationType.stream_error = "stream_error"
type_name NotificationType.event_created = "event_created"
type_name NotificationType.event_starting_soon = "event_starting_soon"
type_name NotificationType.event_cancelled = "event_cancelled"
type_name NotificationType.organizer_added = "organizer_added"
type_name NotificationType.event_reminder = "event_reminder"
type_name NotificationType.payment_success = "payment_success"
type_name NotificationType.payment_failed = "payment_failed"
type_name NotificationType.subscription_expiring = "subscription_expiring"
type_name NotificationType.system_announcement = "system_announcement"
type_name NotificationType.account_update = "account_update"
type_name NotificationType.chat_mention = "chat_mention"

pub data Priority : Type 0 where
  low normal high urgent : Priority

pub data DeliveryStatus : Type 0 where
  pending delivered failed skipped : DeliveryStatus

-- The idempotency keys that the program builds: `event_reminder:{event}:{user}:{day}`,
-- `organizer_added:{event}:{user}`, and any other text. The ids in them have a fixed length.
pub data Key : Type 0 where
  reminder_key : ℕ → ℕ → ℕ → Key
  organizer_key : ℕ → ℕ → Key
  text_key : String → Key

-- The truth value of a key: only the empty text is false.
abbrev pub key_given : Key → Bool
key_given (text_key s) = truthy s
key_given _ = true

unfoldable pub key_eq : Key → Key → Bool
key_eq (reminder_key a b c) (reminder_key x y z) = a == x && (b == y && c == z)
key_eq (organizer_key a b) (organizer_key x y) = a == x && b == y
key_eq (text_key s) (text_key t) = str_eq s t
key_eq (reminder_key _ _ _) (organizer_key _ _) = false
key_eq (reminder_key _ _ _) (text_key _) = false
key_eq (organizer_key _ _) (reminder_key _ _ _) = false
key_eq (organizer_key _ _) (text_key _) = false
key_eq (text_key _) (reminder_key _ _ _) = false
key_eq (text_key _) (organizer_key _ _) = false

-- `Notification`
pub record Notification : Type 0 where
  pub id : ℕ
  pub user_id : ℕ
  pub notification_type : NotificationType
  pub title : String
  pub body : String
  pub payload : Option String
  pub priority : Priority
  pub send_in_app : Bool
  pub send_email : Bool
  pub send_push : Bool
  pub in_app_status : DeliveryStatus
  pub email_status : DeliveryStatus
  pub push_status : DeliveryStatus
  pub is_read : Bool
  pub read_at : Option ℕ
  pub email_retry_count : ℕ
  pub push_retry_count : ℕ
  pub idempotency_key : Option Key

-- `NotificationPreference`
pub record NotificationPreference : Type 0 where
  pub user_id : ℕ
  pub notification_type : String
  pub in_app_enabled : Bool
  pub email_enabled : Bool
  pub push_enabled : Bool

-- `FCMToken`
pub record FcmToken : Type 0 where
  pub user_id : ℕ
  pub token : String
  pub device_info : Option String

-- The cached unread counters and the counters of the rate limit, by user.
pub record Redis : Type 0 where
  pub unread : List (Entry ℕ)
  pub rate : List (Entry ℕ)

-- `WSNotificationEvent`, with its receiver.
pub record Pushed : Type 0 where
  pub user_id : ℕ
  pub notification_id : ℕ
  pub unread_count : ℕ

-- A delivery that has been put in the background.
pub data Task : Type 0 where
  email_task : ℕ → String → Task
  push_task : ℕ → ℕ → Task

-- With `failed` the session has had a flush that failed, and raises until it is rolled back.
pub record World : Type 0 where
  pub users : List ℕ
  pub notifications : List Notification
  pub preferences : List NotificationPreference
  pub fcm_tokens : List FcmToken
  pub redis : Option Redis
  pub presence : Presence
  pub pushed : List Pushed
  pub tasks : List Task
  pub failed : Bool

abbrev pub opt_key_eq : Key → Option Key → Bool
opt_key_eq k none = false
opt_key_eq k (some l) = key_eq k l
