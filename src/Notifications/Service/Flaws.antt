-- ===== src/Notifications/Service/Flaws.antt =====
-- The unread count that goes out with a notification, and a bulk message after an unknown
-- recipient.
use spoutbreeze_backend.Prelude.{
  ℕ, suc, ◌≡◌, refl, ap, sym, ◌∙◌, Bool, true, false, Option, none, some, List, [], ◌∷◌, String,
  ==-refl, arith, elem,
}
use spoutbreeze_backend.Prelude.Session.{Outcome, ok, raised}
use spoutbreeze_backend.Presence.{is_user_online}
use spoutbreeze_backend.Notifications.Store.{Notification, World}
use spoutbreeze_backend.Notifications.Service.{
  duplicate_of, NotificationCreate, notify, notify_bulk, addressed, dispatch, dispatch_in_app,
  push_to_sockets, get_unread_count, new_row, check_rate_limit, cached, count_unread,
  limit_and_store, store_new,
}
use spoutbreeze_backend.Notifications.Service.Ends.{row_of, with_row}
use spoutbreeze_backend.Notifications.Service.Unread.{
  Coherent, notify-Coherent, get_unread_count-Coherent, dispatch_in_app-counts,
  check_rate_limit-cached,
}

new_row-columns :
    (new_id : ℕ) (p : NotificationCreate) (w : World)
    → let n = row_of new_id p w in (n.user_id ≡ p.user_id) × (n.is_read ≡ false)
unfolding new_row
new_row-columns new_id p w = (refl, refl)

-- What a dispatch to an online user pushes.
dispatch-pushed :
    (fails : ℕ → Bool) (n : Notification) (address : Option String) (w : World) {c : ℕ}
    → n.send_in_app ≡ true
    → is_user_online n.user_id w.presence ≡ true
    → cached n.user_id w.redis ≡ some c
    → (dispatch fails n address w).pushed
      ≡ record { user_id = n.user_id; notification_id = n.id; unread_count = c } ∷ w.pushed
unfolding dispatch dispatch_in_app push_to_sockets get_unread_count
dispatch-pushed fails n address w a b h = ground (arith, a, b, h)

dispatch-counts :
    (fails : ℕ → Bool) (n : Notification) (address : Option String) (w : World) (v : ℕ)
    → count_unread v (dispatch fails n address w).notifications ≡ count_unread v w.notifications
unfolding dispatch
dispatch-counts fails n address w v = dispatch_in_app-counts fails n w v

-- How a call that is no duplicate and does not raise ends.
notify-ok :
    (fails : ℕ → Bool) (new_id : ℕ) (p : NotificationCreate) (address : Option String) (w : World)
    {n : Notification}
    → duplicate_of p.idempotency_key w.notifications ≡ none
    → (notify fails new_id p address w).0 ≡ ok n
    → (n ≡ row_of new_id p w)
      × ((notify fails new_id p address w).1
          ≡ dispatch fails (row_of new_id p w) address (with_row new_id p w))
unfolding notify limit_and_store store_new
notify-ok fails new_id p address w k h = (ground (arith, k, h), ground (arith, k, h))

-- A notification whose idempotency key, if any, is on no row yet, and that reaches a user online
-- while the unread counter is cached, goes out with the count of before: the pushed count is one
-- less than the unread count right after the call.
pub notify-pushed_count :
    (fails : ℕ → Bool) (new_id : ℕ) (p : NotificationCreate) (address : Option String) (w : World)
    {n : Notification} {c : ℕ}
    → Coherent w.redis w.notifications
    → duplicate_of p.idempotency_key w.notifications ≡ none
    → (notify fails new_id p address w).0 ≡ ok n
    → n.send_in_app ≡ true
    → is_user_online p.user_id w.presence ≡ true
    → cached p.user_id w.redis ≡ some c
    → let w' = (notify fails new_id p address w).1 in
      (w'.pushed
        ≡ record { user_id = p.user_id; notification_id = n.id; unread_count = c } ∷ w.pushed)
      × ((get_unread_count p.user_id w').0 ≡ suc c)
unfolding new_row
notify-pushed_count fails new_id p address w {n} {c} coherent k h on online count =
    let (row, ends) = notify-ok fails new_id p address w k h in
    let (mine, unread) = new_row-columns new_id p w in
    let x = with_row new_id p w in
    let w' = (notify fails new_id p address w).1 in
    let total =
      (get_unread_count-Coherent p.user_id w'
        (notify-Coherent fails new_id p address w coherent)).1 in
    let old = coherent p.user_id c count in
    let added : count_unread p.user_id x.notifications
        ≡ suc (count_unread p.user_id w.notifications) =
      ground (arith, mine, unread, ==-refl p.user_id) in
    let rows = dispatch-counts fails (row_of new_id p w) address x p.user_id in
    let limited = check_rate_limit-cached p.user_id p.user_id w.redis in
    let pushed =
      dispatch-pushed fails (row_of new_id p w) address x {c = c}
        (ap (λ m. m.send_in_app) (sym row) ∙ on) online (limited ∙ count) in
    let same_id = ap (λ m. m.id) row in
    (
      ap (λ z. z.pushed) ends
          ∙ pushed
          ∙ ap
              (λ i.
                record { user_id = p.user_id; notification_id = i; unread_count = c } ∷ w.pushed)
              (sym same_id),
      total
          ∙ ap (λ z. count_unread p.user_id z.notifications) ends
          ∙ rows
          ∙ added
          ∙ ap suc (sym old),
    )

abbrev is_ok : Outcome Notification → Bool
is_ok (ok n) = true
is_ok (raised e) = false

-- A call on a failed session raises and stores nothing.
notify-failed_session :
    (fails : ℕ → Bool) (new_id u : ℕ) (p : NotificationCreate) (w : World)
    → w.failed ≡ true
    → let (r, w') = notify fails new_id (addressed p u) none w in
      (w'.failed ≡ true) × (w'.notifications ≡ w.notifications) × (is_ok r ≡ false)
unfolding notify limit_and_store store_new
notify-failed_session fails new_id u p w f =
    (ground (arith, f), ground (arith, f), ground (arith, f))

notify_bulk-failed_session :
    (fails : ℕ → Bool) (us : List (ℕ × ℕ)) (p : NotificationCreate) (w : World)
    → w.failed ≡ true
    → let (n, w') = notify_bulk fails us p w in (n ≡ 0) × (w'.notifications ≡ w.notifications)
unfolding notify_bulk
notify_bulk-failed_session fails [] p w f = (refl, refl)
notify_bulk-failed_session fails ((u, k) ∷ us) p w f =
    let (f', rows, raises) = notify-failed_session fails k u p w f in
    let w' = (notify fails k (addressed p u) none w).1 in
    let (none_sent, rows') = notify_bulk-failed_session fails us p w' f' in
    (ground (arith, raises, none_sent), rows' ∙ rows)

-- A bulk message whose first recipient is no user reaches nobody: the failed insertion leaves the
-- session in need of a rollback, so that every later recipient fails too.
pub notify_bulk-unknown_first :
    (fails : ℕ → Bool) (u k : ℕ) (us : List (ℕ × ℕ)) (p : NotificationCreate) (w : World)
    → elem u w.users ≡ false
    → (check_rate_limit u w.redis).0 ≡ true
    → let (n, w') = notify_bulk fails ((u, k) ∷ us) p w in
      (n ≡ 0) × (w'.notifications ≡ w.notifications)
unfolding notify_bulk
notify_bulk-unknown_first fails u k us p w unknown allowed =
    let w' = (notify fails k (addressed p u) none w).1 in
    let (f, rows, raises) = first_fails in
    let (none_sent, rows') = notify_bulk-failed_session fails us p w' f in
    (ground (arith, raises, none_sent), rows' ∙ rows)
  where
    first_fails :
        ((notify fails k (addressed p u) none w).1.failed ≡ true)
        × ((notify fails k (addressed p u) none w).1.notifications ≡ w.notifications)
        × (is_ok (notify fails k (addressed p u) none w).0 ≡ false)
    first_fails =
        unfold notify limit_and_store store_new in
        (
          ground (arith, unknown, allowed),
          ground (arith, unknown, allowed),
          ground (arith, unknown, allowed),
        )
