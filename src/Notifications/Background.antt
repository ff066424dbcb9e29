-- ===== src/Notifications/Background.antt =====
-- The background deliveries of app/services/notification_service.py, and the cleaning of device
-- tokens in app/services/notification_delivery.py. A delivery works on a session of its own.
use spoutbreeze_backend.Prelude.{
  ℕ, ◌+◌, Bool, true, false, List, [], ◌∷◌, map, String, ◌==◌, str_eq, not, ◌||◌, keep,
  update_where, if◌then◌else◌,
}
use spoutbreeze_backend.Notifications.Store.{DeliveryStatus, World}
use spoutbreeze_backend.Notifications.Delivery.{Send, sent, not_sent, deliver}

abbrev pub final_status : Bool → DeliveryStatus
final_status b = if b then DeliveryStatus.delivered else DeliveryStatus.failed

abbrev at_least_one : ℕ → ℕ
at_least_one n = if n == 0 then 1 else n

-- `_deliver_email`, with how the attempts end.
unfoldable pub deliver_email : (ℕ → Send) → ℕ → World → World
unfolding deliver
deliver_email send k w =
    let d = deliver send in
    record w {
      notifications =
          update_where (λ n. n.id == k)
            (λ n. record n {
              email_status = final_status d.success;
              email_retry_count = n.email_retry_count + at_least_one d.attempts;
            })
            w.notifications;
    }

-- `_deliver_push`
unfoldable pub deliver_push : (ℕ → Send) → ℕ → World → World
unfolding deliver
deliver_push send k w =
    let d = deliver send in
    record w {
      notifications =
          update_where (λ n. n.id == k)
            (λ n. record n {
              push_status = final_status d.success;
              push_retry_count = n.push_retry_count + at_least_one d.attempts;
            })
            w.notifications;
    }

-- How the push server answers for one token.
pub data Answer : Type 0 where
  accepted unregistered other_error : Answer

abbrev pub stale : (String → Answer) → String → Bool
stale answer t = elim (answer t) [ Answer.unregistered ↦ true | _ ↦ false ]

abbrev pub any_accepted : (String → Answer) → List String → Bool
any_accepted answer [] = false
any_accepted answer (t ∷ ts) = elim (answer t) [
  | Answer.accepted ↦ true
  | _ ↦ any_accepted answer ts
]

-- `_get_user_tokens`
unfoldable pub get_user_tokens : ℕ → World → List String
get_user_tokens u w = map (λ t. t.token) (keep (λ t. t.user_id == u) w.fcm_tokens)

abbrev pub mem : String → List String → Bool
mem s [] = false
mem s (t ∷ ts) = str_eq s t || mem s ts

-- `_remove_stale_tokens`
unfoldable pub remove_stale_tokens : List String → World → World
remove_stale_tokens ts w = record w { fcm_tokens = keep (λ t. not (mem t.token ts)) w.fcm_tokens }

-- `PushDeliveryBackend._send`; without a Firebase app nothing is sent.
unfoldable pub send_push : Bool → (String → Answer) → ℕ → World → Send × World
unfolding get_user_tokens remove_stale_tokens
send_push has_app answer u w =
    let ts = get_user_tokens u w in
    if not has_app then (not_sent, w) else (
      if any_accepted answer ts then sent else not_sent,
      remove_stale_tokens (keep (stale answer) ts) w,
    )
