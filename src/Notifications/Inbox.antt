-- ===== src/Notifications/Inbox.antt =====
-- What a user does with the notifications: reading, marking and deleting them, the preferences and
-- the tokens of devices, as in app/services/notification_service.py.
pub mod Pages
use spoutbreeze_backend.Prelude.{
  ℕ, zero, suc, ◌+◌, ◌-◌, ◌*◌, Bool, true, false, Option, none, some, List, [], ◌∷◌, String, ◌==◌,
  str_eq, ◌&&◌, ◌||◌, not, is_some, elem, find?, keep, count_if, update_where, length,
  if◌then◌else◌, ltb,
}
use spoutbreeze_backend.Notifications.Store.{
  NotificationType, type_name, Notification, NotificationPreference, FcmToken, World,
}
use spoutbreeze_backend.Notifications.Service.{get_unread_count, invalidate, unread_of}

-- `offset` and `limit`.
unfoldable pub drop : ℕ → List Notification → List Notification
drop zero ns = ns
drop (suc k) [] = []
drop (suc k) (n ∷ ns) = drop k ns

unfoldable pub take : ℕ → List Notification → List Notification
take zero ns = []
take (suc k) [] = []
take (suc k) (n ∷ ns) = n ∷ take k ns

-- The filters of a list.
abbrev pub wanted : ℕ → Bool → Option String → Notification → Bool
wanted u unread_only none n = n.user_id == u && (not unread_only || not n.is_read)
wanted u unread_only (some ty) n =
    n.user_id == u
    && ((not unread_only || not n.is_read)
        && (str_eq ty "" || str_eq (type_name n.notification_type) ty))

-- `NotificationListResponse`
pub record Page : Type 0 where
  pub items : List Notification
  pub total : ℕ
  pub unread_count : ℕ

-- `get_notifications`; pages count from 1.
unfoldable pub get_notifications : ℕ → ℕ → ℕ → Bool → Option String → World → Page × World
unfolding drop take
get_notifications u page page_size unread_only ty w =
    let ns = keep (wanted u unread_only ty) w.notifications in
    let (count, w') = get_unread_count u w in
    (
      record {
        items = take page_size (drop ((page - 1) * page_size) ns);
        total = length ns;
        unread_count = count;
      },
      w',
    )

abbrev pub read_at_time : ℕ → Notification → Notification
read_at_time now n = record n { is_read = true; read_at = some now }

abbrev pub marked : ℕ → (Notification → Bool) → ℕ → World → World
marked now p u w = record w {
  notifications = update_where p (read_at_time now) w.notifications;
  redis = invalidate u w.redis;
}

-- `mark_as_read`
unfoldable pub mark_as_read : ℕ → ℕ → List ℕ → World → ℕ × World
mark_as_read now u ids w =
    let p = λ (n : Notification). unread_of u n && elem n.id ids in
    (count_if p w.notifications, marked now p u w)

-- `mark_all_as_read`
unfoldable pub mark_all_as_read : ℕ → ℕ → World → ℕ × World
mark_all_as_read now u w = (count_if (unread_of u) w.notifications, marked now (unread_of u) u w)

-- `delete_notification`
unfoldable pub delete_notification : ℕ → ℕ → World → Bool × World
delete_notification u k w =
    let p = λ (n : Notification). n.id == k && n.user_id == u in
    (
      ltb 0 (count_if p w.notifications),
      record w {
        notifications = keep (λ n. not (p n)) w.notifications;
        redis = invalidate u w.redis;
      },
    )

-- `delete_all_read`, which leaves the cached counter.
unfoldable pub delete_all_read : ℕ → World → ℕ × World
delete_all_read u w =
    let p = λ (n : Notification). n.user_id == u && n.is_read in
    (count_if p w.notifications, record w { notifications = keep (λ n. not (p n)) w.notifications })

-- `get_preferences`
unfoldable pub get_preferences : ℕ → World → List NotificationPreference
get_preferences u w = keep (λ p. p.user_id == u) w.preferences

abbrev pub preference_of : ℕ → String → NotificationPreference → Bool
preference_of u ty p = p.user_id == u && str_eq p.notification_type ty

-- `upsert_preference`: with no row for the user and the type one is added.
unfoldable pub upsert_preference : NotificationPreference → World → World
upsert_preference q w =
    let mine = preference_of q.user_id q.notification_type in
    record w {
      preferences =
          if is_some (find? mine w.preferences)
          then update_where mine
              (λ p. record p {
                in_app_enabled = q.in_app_enabled;
                email_enabled = q.email_enabled;
                push_enabled = q.push_enabled;
              })
              w.preferences
          else q ∷ w.preferences;
    }

-- `register_fcm_token`: a token belongs to the user who registered it last.
unfoldable pub register_fcm_token : FcmToken → World → World
register_fcm_token q w =
    let same = λ (t : FcmToken). str_eq t.token q.token in
    record w {
      fcm_tokens =
          if is_some (find? same w.fcm_tokens)
          then update_where same
              (λ t. record t { user_id = q.user_id; device_info = q.device_info }) w.fcm_tokens
          else q ∷ w.fcm_tokens;
    }

-- `unregister_fcm_token`
unfoldable pub unregister_fcm_token : ℕ → String → World → World
unregister_fcm_token u token w = record w {
  fcm_tokens = keep (λ t. not (t.user_id == u && str_eq t.token token)) w.fcm_tokens;
}
