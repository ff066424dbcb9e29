-- ===== src/Notifications/Calls/Unread.antt =====
-- The unread counter as its users see it: cached or not, it is the number of unread rows.
use spoutbreeze_backend.Prelude.{
  ℕ, ◌≡◌, refl, sym, ◌∙◌, Bool, true, false, none, List, [], ◌∷◌, ◌==◌, ◌&&◌, not, arith, elem,
  keep, update_where,
}
use spoutbreeze_backend.Prelude.Counting.{count_if-update_where, count_if-keep}
use spoutbreeze_backend.Notifications.Store.{Notification, World}
use spoutbreeze_backend.Notifications.Service.{
  NotificationCreate, notify, notify_bulk, addressed, get_unread_count, unread_of, count_unread,
  cached,
}
use spoutbreeze_backend.Notifications.Service.Unread.{
  Coherent, notify-Coherent, get_unread_count-Coherent, invalidate-Coherent,
}
use spoutbreeze_backend.Notifications.Inbox.{
  get_notifications, mark_as_read, mark_all_as_read, delete_notification, delete_all_read,
  read_at_time, marked, upsert_preference, register_fcm_token, unregister_fcm_token,
}
use spoutbreeze_backend.Notifications.Background.{deliver_email, deliver_push, send_push}
use spoutbreeze_backend.Notifications.Calls.{
  Call, perform, run, on_new_session, notifies, notifies_all, lists, counts, marks, marks_all,
  deletes, deletes_read, prefers, registers, unregisters, emails, pushes, sends_push, connects,
  disconnects,
}

notify_bulk-Coherent :
    (fails : ℕ → Bool) (us : List (ℕ × ℕ)) (p : NotificationCreate) (w : World)
    → Coherent w.redis w.notifications
    → let w' = (notify_bulk fails us p w).1 in Coherent w'.redis w'.notifications
unfolding notify_bulk
notify_bulk-Coherent fails [] p w c = c
notify_bulk-Coherent fails ((u, k) ∷ us) p w c =
    notify_bulk-Coherent fails us p (notify fails k (addressed p u) none w).1
      (notify-Coherent fails k (addressed p u) none w c)

-- Marking or deleting unread rows of one user leaves the counts of the others.
marked-Coherent :
    (now u : ℕ) (p : Notification → Bool) (w : World)
    → ((n : Notification) → p n ≡ true → (n.user_id == u) ≡ true)
    → Coherent w.redis w.notifications
    → let w' = marked now p u w in Coherent w'.redis w'.notifications
marked-Coherent now u p w mine c =
    invalidate-Coherent u w.redis w.redis w.notifications
      (update_where p (read_at_time now) w.notifications) (λ v h. refl)
      (λ v h.
        count_if-update_where (unread_of v) p (read_at_time now)
          (λ n g. let m = mine n g in ground arith) w.notifications)
      c

perform-Coherent :
    (c : Call) (w : World)
    → Coherent w.redis w.notifications
    → let w' = perform c w in Coherent w'.redis w'.notifications
unfolding get_notifications mark_as_read mark_all_as_read delete_notification delete_all_read
    upsert_preference register_fcm_token unregister_fcm_token deliver_email deliver_push send_push
perform-Coherent (notifies fails k p address) w c = notify-Coherent fails k p address w c
perform-Coherent (notifies_all fails us p) w c = notify_bulk-Coherent fails us p w c
perform-Coherent (lists u page size unread ty) w c = (get_unread_count-Coherent u w c).0
perform-Coherent (counts u) w c = (get_unread_count-Coherent u w c).0
perform-Coherent (marks now u ids) w c =
    marked-Coherent now u (λ n. unread_of u n && elem n.id ids) w (λ n g. ground arith) c
perform-Coherent (marks_all now u) w c =
    marked-Coherent now u (unread_of u) w (λ n g. ground arith) c
perform-Coherent (deletes u k) w c =
    invalidate-Coherent u w.redis w.redis w.notifications
      (keep (λ n. not (n.id == k && n.user_id == u)) w.notifications) (λ v h. refl)
      (λ v h. count_if-keep (unread_of v) _ (λ n g. ground arith) w.notifications) c
perform-Coherent (deletes_read u) w c =
    λ v n h. c v n h ∙ sym (count_if-keep (unread_of v) _ (λ n g. ground arith) w.notifications)
perform-Coherent (prefers q) w c = c
perform-Coherent (registers q) w c = c
perform-Coherent (unregisters u t) w c = c
perform-Coherent (emails send k) w c = λ v n h.
    c v n h
    ∙ sym (count_if-update_where (unread_of v) (λ n. n.id == k) _ (λ n g. refl) w.notifications)
perform-Coherent (pushes send k) w c = λ v n h.
    c v n h
    ∙ sym (count_if-update_where (unread_of v) (λ n. n.id == k) _ (λ n g. refl) w.notifications)
perform-Coherent (sends_push true answer u) w c = c
perform-Coherent (sends_push false answer u) w c = c
perform-Coherent (connects u s) w c = c
perform-Coherent (disconnects u s) w c = c

run-Coherent :
    (cs : List Call) (w : World)
    → Coherent w.redis w.notifications
    → let w' = run cs w in Coherent w'.redis w'.notifications
run-Coherent [] w c = c
run-Coherent (x ∷ cs) w c =
    run-Coherent cs (perform x (on_new_session w)) (perform-Coherent x (on_new_session w) c)

-- After any calls of the service, from a state without cached counters, the unread count of a user
-- is the number of unread rows of the user, whether it comes from the cache or from the rows, and
-- with Redis or without it.
pub get_unread_count-run :
    (cs : List Call) (w : World) (u : ℕ)
    → ((v : ℕ) → cached v w.redis ≡ none)
    → (get_unread_count u (run cs w)).0 ≡ count_unread u (run cs w).notifications
get_unread_count-run cs w u clear =
    (get_unread_count-Coherent u (run cs w) (run-Coherent cs w (λ v n h. let e = clear v in cc))).1
