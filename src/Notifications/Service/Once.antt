-- ===== src/Notifications/Service/Once.antt =====
-- A notification under an idempotency key is stored and sent once.
use spoutbreeze_backend.Prelude.{
  ℕ, ◌≡◌, refl, Bool, true, false, Option, some, List, [], ◌∷◌, String, ◌==◌, ==-refl, inl, inr,
  arith, Bool-cases, Option-cases, is_some, eq_iff,
}
use spoutbreeze_backend.Prelude.Session.{ok}
use spoutbreeze_backend.Notifications.Store.{
  Key, reminder_key, organizer_key, text_key, key_eq, key_given, Notification, World,
  DeliveryStatus,
}
use spoutbreeze_backend.Notifications.Service.{
  NotificationCreate, notify, dispatch, dispatch_in_app, push_to_sockets, get_unread_count,
  check_idempotency, set_in_app, new_row, limit_and_store, store_new,
}
use spoutbreeze_backend.Notifications.Service.Ends.{row_of, with_row}

pub key_eq_refl : (k : Key) → key_eq k k ≡ true
unfolding key_eq
key_eq_refl (reminder_key a b c) = ground (arith, ==-refl a, ==-refl b, ==-refl c)
key_eq_refl (organizer_key a b) = ground (arith, ==-refl a, ==-refl b)
key_eq_refl (text_key s) = (eq_iff s s).1 refl

-- Setting a delivery status leaves the row of a key there, under the same id.
check_idempotency-set_in_app :
    (k : Key) (i : ℕ) (st : DeliveryStatus) (rows : List Notification)
    → is_some (check_idempotency k (set_in_app i st rows)) ≡ is_some (check_idempotency k rows)
unfolding check_idempotency
check_idempotency-set_in_app k i st [] = refl
check_idempotency-set_in_app k i st (n ∷ rows) = elim (Bool-cases (n.id == i)) [
  | inl g ↦ rw g (ground (arith, check_idempotency-set_in_app k i st rows))
  | inr g ↦ rw g (ground (arith, check_idempotency-set_in_app k i st rows))
]

pub dispatch-keys :
    (fails : ℕ → Bool) (n : Notification) (address : Option String) (w : World) (k : Key)
    → is_some (check_idempotency k (dispatch fails n address w).notifications)
      ≡ is_some (check_idempotency k w.notifications)
unfolding dispatch dispatch_in_app push_to_sockets get_unread_count
dispatch-keys fails n address w k = ground (
  arith,
  check_idempotency-set_in_app k n.id DeliveryStatus.pending w.notifications,
  check_idempotency-set_in_app k n.id DeliveryStatus.delivered w.notifications,
)

pub dispatch-failed :
    (fails : ℕ → Bool) (n : Notification) (address : Option String) (w : World)
    → (dispatch fails n address w).failed ≡ w.failed
unfolding dispatch dispatch_in_app push_to_sockets get_unread_count
dispatch-failed fails n address w = ground arith

module _ (fails : ℕ → Bool) (new_id : ℕ) (p : NotificationCreate) (address : Option String)
    (w : World) {k : Key} {n : Notification} (kp : p.idempotency_key ≡ some k)
    (kg : key_given k ≡ true) (h : (notify fails new_id p address w).0 ≡ ok n) where
  notify-failed : (notify fails new_id p address w).1.failed ≡ false
  unfolding notify limit_and_store store_new
  notify-failed =
      ground
        (arith, kp, kg, h, dispatch-failed fails (row_of new_id p w) address (with_row new_id p w))

  notify-stored :
      is_some (check_idempotency k (notify fails new_id p address w).1.notifications) ≡ true
  unfolding notify limit_and_store store_new check_idempotency new_row
  notify-stored = ground (
    arith,
    kp,
    kg,
    h,
    key_eq_refl k,
    dispatch-keys fails (row_of new_id p w) address (with_row new_id p w) k,
  )

-- Once `notify` has ended without an exception under a key that is not the empty text, the row of
-- that key is there: a later call with that key, whatever else it asks for, answers with the row
-- and changes nothing; nothing is pushed, mailed or counted again. The session of the later call is
-- usable.
pub notify-once :
    (fails fails' : ℕ → Bool) (new_id other_id : ℕ) (p q : NotificationCreate)
    (address address' : Option String) (w : World) {k : Key} {n : Notification}
    → key_given k ≡ true
    → p.idempotency_key ≡ some k
    → q.idempotency_key ≡ some k
    → (notify fails new_id p address w).0 ≡ ok n
    → let w' = (notify fails new_id p address w).1 in
      (w'.failed ≡ false)
      × ((m : Notification) × (check_idempotency k w'.notifications ≡ some m)
          × (notify fails' other_id q address' w' ≡ (ok m, w')))
unfolding notify
notify-once fails fails' new_id other_id p q address address' w {k} {n} kg kp kq h =
    let live = notify-failed fails new_id p address w kp kg h in
    let w' = (notify fails new_id p address w).1 in
    elim (Option-cases (check_idempotency k w'.notifications)) [
      | inl none_there ↦ let there = notify-stored fails new_id p address w kp kg h in cc
      | inr (m, there) ↦ (live, (m, there, ground (arith, kg, kq, live, there)))
    ]
