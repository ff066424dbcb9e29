-- ===== src/Notifications/Service.antt =====
-- `NotificationService` of app/services/notification_service.py: storing, dispatching and reading
-- notifications. The socket manager is that of Presence. Which sockets fail is an input. The life
-- times of the keys in Redis are left out.
pub mod Ends
pub mod Unread
pub mod Once
pub mod Rate
pub mod Flaws
use spoutbreeze_backend.Prelude.{
  ℕ, zero, suc, ◌+◌, ◌-◌, ◌*◌, Bool, true, false, Option, none, some, List, [], ◌∷◌, ◌++◌, String,
  ◌==◌, str_eq, ◌&&◌, ◌||◌, not, is_some, given, elem, find?, keep, count_if, update_where, length,
  if◌then◌else◌, leb,
}
use spoutbreeze_backend.Prelude.Dict.{Entry, get, put, del}
use spoutbreeze_backend.Prelude.Session.{
  Outcome, ok, raised, Error, value_error, integrity_error, pending_rollback_error,
}
use spoutbreeze_backend.Presence.{Presence, is_user_online, send_to_user}
use spoutbreeze_backend.Notifications.Store.{
  NotificationType, type_name, Priority, DeliveryStatus, Key, key_eq, opt_key_eq, key_given,
  Notification, NotificationPreference, FcmToken, Redis, Pushed, Task, email_task, push_task, World,
}

-- `NotificationCreate`
pub record NotificationCreate : Type 0 where
  pub user_id : ℕ
  pub notification_type : NotificationType
  pub title : String
  pub body : String
  pub payload : Option String
  pub priority : Priority
  pub send_in_app : Bool
  pub send_email : Bool
  pub send_push : Bool
  pub idempotency_key : Option Key

abbrev pub rate_limit_max : ℕ
rate_limit_max = 60

-- `_check_idempotency`
unfoldable pub check_idempotency : Key → List Notification → Option Notification
check_idempotency k rows = find? (λ n. opt_key_eq k n.idempotency_key) rows

abbrev pub or_zero : Option ℕ → ℕ
or_zero none = 0
or_zero (some n) = n

-- `_check_rate_limit`: whether the request is allowed, and Redis after it.
unfoldable pub check_rate_limit : ℕ → Option Redis → Bool × Option Redis
check_rate_limit u none = (true, none)
check_rate_limit u (some r) =
    let current = or_zero (get u r.rate) in
    if leb rate_limit_max current
    then (false, some r)
    else (true, some (record r { rate = put u (suc current) r.rate }))

-- The channels that are on.
pub record Channels : Type 0 where
  pub in_app : Bool
  pub email : Bool
  pub push : Bool

-- `_get_preferences`
unfoldable pub get_channels : ℕ → String → List NotificationPreference → Channels
get_channels u ty rows = elim (find? (λ p. p.user_id == u && str_eq p.notification_type ty) rows) [
  | some p ↦ record { in_app = p.in_app_enabled; email = p.email_enabled; push = p.push_enabled }
  | none ↦ record { in_app = true; email = true; push = true }
]

abbrev pub first_status : Bool → DeliveryStatus
first_status b = if b then DeliveryStatus.pending else DeliveryStatus.skipped

-- The row that `notify` adds.
unfoldable pub new_row : ℕ → NotificationCreate → Channels → Notification
new_row new_id p on = record {
  id = new_id;
  user_id = p.user_id;
  notification_type = p.notification_type;
  title = p.title;
  body = p.body;
  payload = p.payload;
  priority = p.priority;
  send_in_app = p.send_in_app && on.in_app;
  send_email = p.send_email && on.email;
  send_push = p.send_push && on.push;
  in_app_status = first_status (p.send_in_app && on.in_app);
  email_status = first_status (p.send_email && on.email);
  push_status = first_status (p.send_push && on.push);
  is_read = false;
  read_at = none;
  email_retry_count = 0;
  push_retry_count = 0;
  idempotency_key = p.idempotency_key;
}

-- An unread row of the user.
abbrev pub unread_of : ℕ → Notification → Bool
unread_of u n = n.user_id == u && not n.is_read

-- How many there are.
abbrev pub count_unread : ℕ → List Notification → ℕ
count_unread u rows = count_if (unread_of u) rows

-- `cache.get`, `cache.set` and `cache.delete` of the unread counter.
abbrev pub cached : ℕ → Option Redis → Option ℕ
cached u none = none
cached u (some r) = get u r.unread

abbrev pub cache_count : ℕ → ℕ → Option Redis → Option Redis
cache_count u n none = none
cache_count u n (some r) = some (record r { unread = put u n r.unread })

unfoldable pub invalidate : ℕ → Option Redis → Option Redis
invalidate u none = none
invalidate u (some r) = some (record r { unread = del u r.unread })

-- `get_unread_count`
unfoldable pub get_unread_count : ℕ → World → ℕ × World
get_unread_count u w = elim (cached u w.redis) [
  | some n ↦ (n, w)
  | none ↦
      let n = count_unread u w.notifications in (n, record w { redis = cache_count u n w.redis })
]

abbrev pub set_in_app : ℕ → DeliveryStatus → List Notification → List Notification
set_in_app k st rows = update_where (λ n. n.id == k) (λ n. record n { in_app_status = st }) rows

-- The delivery to the sockets of a user who is online.
unfoldable pub push_to_sockets : (ℕ → Bool) → Notification → World → World
unfolding get_unread_count
push_to_sockets fails n w =
    let (count, w') = get_unread_count n.user_id w in
    let (delivered, presence') = send_to_user fails n.user_id w'.presence in
    let st = if delivered then DeliveryStatus.delivered else DeliveryStatus.pending in
    record w' {
      presence = presence';
      pushed =
          record { user_id = n.user_id; notification_id = n.id; unread_count = count } ∷ w'.pushed;
      notifications = set_in_app n.id st w'.notifications;
    }

-- `if notification.send_in_app:` of `_dispatch`
unfoldable pub dispatch_in_app : (ℕ → Bool) → Notification → World → World
dispatch_in_app fails n w =
    if n.send_in_app
    then if is_user_online n.user_id w.presence
      then push_to_sockets fails n w
      else record w { notifications = set_in_app n.id DeliveryStatus.pending w.notifications }
    else w

abbrev pub email_tasks : Notification → Option String → List Task
email_tasks n none = []
email_tasks n (some address) =
    if n.send_email && given (some address) then email_task n.id address ∷ [] else []

abbrev pub push_tasks : Notification → List Task
push_tasks n = if n.send_push then push_task n.id n.user_id ∷ [] else []

-- `_dispatch`
unfoldable pub dispatch : (ℕ → Bool) → Notification → Option String → World → World
unfolding invalidate
dispatch fails n address w =
    let w' = dispatch_in_app fails n w in
    record w' {
      redis = invalidate n.user_id w'.redis;
      tasks = w'.tasks ++ (email_tasks n address ++ push_tasks n);
    }

abbrev pub duplicate_of : Option Key → List Notification → Option Notification
duplicate_of none rows = none
duplicate_of (some k) rows = if key_given k then check_idempotency k rows else none

-- The truth value of `payload.idempotency_key`.
abbrev pub has_key : Option Key → Bool
has_key none = false
has_key (some k) = key_given k

-- The column of keys is unique.
abbrev pub key_clashes : Option Key → List Notification → Bool
key_clashes none rows = false
key_clashes (some k) rows = is_some (check_idempotency k rows)

-- The part of `notify` after the rate limit; the recipient is a foreign key, and the
-- idempotency key is unique.
unfoldable pub store_new :
    (ℕ → Bool) → ℕ → NotificationCreate → Option String → World → Outcome Notification × World
store_new fails new_id p address w =
    let n =
      new_row new_id p (get_channels p.user_id (type_name p.notification_type) w.preferences) in
    if w.failed
    then (raised pending_rollback_error, w)
    else if not (elem p.user_id w.users) || key_clashes p.idempotency_key w.notifications
    then (raised integrity_error, record w { failed = true })
    else (ok n, dispatch fails n address (record w { notifications = n ∷ w.notifications }))

-- The part of `notify` after the deduplication.
unfoldable pub limit_and_store :
    (ℕ → Bool) → ℕ → NotificationCreate → Option String → World → Outcome Notification × World
limit_and_store fails new_id p address w =
    let (allowed, redis') = check_rate_limit p.user_id w.redis in
    let w' = record w { redis = redis' } in
    if not allowed then (raised value_error, w') else store_new fails new_id p address w'

-- `notify`
unfoldable pub notify :
    (ℕ → Bool) → ℕ → NotificationCreate → Option String → World → Outcome Notification × World
notify fails new_id p address w =
    if w.failed && has_key p.idempotency_key
    then (raised pending_rollback_error, w)
    else elim (duplicate_of p.idempotency_key w.notifications) [
      | some n ↦ (ok n, w)
      | none ↦ limit_and_store fails new_id p address w
    ]

-- The recipients of a bulk message, each with the id that a row for it would get.
abbrev pub addressed : NotificationCreate → ℕ → NotificationCreate
addressed p u = record p { user_id = u; idempotency_key = none }

-- `notify_bulk`: how many calls of `notify` did not raise.
unfoldable pub notify_bulk : (ℕ → Bool) → List (ℕ × ℕ) → NotificationCreate → World → ℕ × World
notify_bulk fails [] p w = (0, w)
notify_bulk fails ((u, new_id) ∷ us) p w =
    let (r, w') = notify fails new_id (addressed p u) none w in
    let (n, w'') = notify_bulk fails us p w' in (elim r [ ok _ ↦ suc n | raised _ ↦ n ], w'')
