-- ===== src/Notifications/Reminders/Storing.antt =====
-- One notification of a reminder, without Redis: it is stored, and its key is there from then on.
use mathlib.Core.Path.{subst}
use spoutbreeze_backend.Prelude.{
  ℕ, ◌≡◌, ap, sym, ◌∙◌, Bool, true, false, Option, none, some, ◌∷◌, String, arith, ◌||◌, elem,
  is_some,
}
use spoutbreeze_backend.Prelude.Session.{ok}
use spoutbreeze_backend.Notifications.Store.{key_given, Key, Notification, World, opt_key_eq}
use spoutbreeze_backend.Notifications.Service.{
  NotificationCreate, check_idempotency, notify, dispatch, dispatch_in_app, push_to_sockets,
  get_unread_count, invalidate, check_rate_limit, limit_and_store, store_new, new_row,
}
use spoutbreeze_backend.Notifications.Service.Ends.{row_of}
use spoutbreeze_backend.Notifications.Service.Once.{dispatch-keys, dispatch-failed, key_eq_refl}

abbrev pub present : Key → World → Bool
present k w = is_some (check_idempotency k w.notifications)

-- A session that has not failed, without Redis.
pub record Ready (w : World) : Type 0 where
  pub live : w.failed ≡ false
  pub unlimited : w.redis ≡ none

-- What holds between the states before and after some calls.
pub record Later (w w' : World) : Type 0 where
  pub ready : Ready w'
  pub users : w'.users ≡ w.users
  pub keys : (k : Key) → present k w ≡ true → present k w' ≡ true

pub Later-trans : (a b c : World) → Later a b → Later b c → Later a c
Later-trans a b c p q = record {
  ready = q.ready;
  users = q.users ∙ p.users;
  keys = λ k h. q.keys k (p.keys k h);
}

dispatch-users :
    (fails : ℕ → Bool) (n : Notification) (address : Option String) (w : World)
    → (dispatch fails n address w).users ≡ w.users
unfolding dispatch dispatch_in_app push_to_sockets get_unread_count
dispatch-users fails n address w = ground arith

dispatch-redis :
    (fails : ℕ → Bool) (n : Notification) (address : Option String) (w : World)
    → w.redis ≡ none
    → (dispatch fails n address w).redis ≡ none
unfolding dispatch dispatch_in_app push_to_sockets get_unread_count invalidate
dispatch-redis fails n address w h = ground (arith, h)

module _ (fails : ℕ → Bool) (new_id : ℕ) (p : NotificationCreate) (address : Option String)
    (w : World) {k : Key} (kp : p.idempotency_key ≡ some k) (kg : key_given k ≡ true)
    (new : check_idempotency k w.notifications ≡ none) (known : elem p.user_id w.users ≡ true)
    (r : Ready w) where
  -- A notification under a new key is stored.
  notify-stores : notify fails new_id p address w ≡ (
    ok (row_of new_id p w),
    dispatch fails
        (row_of new_id p w)
        address
        (record w { notifications = row_of new_id p w ∷ w.notifications }),
  )
  unfolding notify limit_and_store store_new check_rate_limit
  notify-stores = let l = r.live in let o = r.unlimited in ground (arith, kp, kg, new, known, l, o)

  abbrev after : World
  after =
      dispatch fails (row_of new_id p w) address
        (record w { notifications = row_of new_id p w ∷ w.notifications })

  after-keys : (j : Key) → present j after ≡ (opt_key_eq j p.idempotency_key || present j w)
  unfolding check_idempotency new_row
  after-keys j =
      dispatch-keys fails (row_of new_id p w) address
        (record w { notifications = row_of new_id p w ∷ w.notifications }) j
      ∙ ground arith

  pub notify-Later : Later w (notify fails new_id p address w).1
  notify-Later =
      let x = record w { notifications = row_of new_id p w ∷ w.notifications } in
      subst (λ z. Later w z.1) (sym notify-stores)
        (record {
          ready = record {
            live = dispatch-failed fails (row_of new_id p w) address x ∙ r.live;
            unlimited = dispatch-redis fails (row_of new_id p w) address x r.unlimited;
          };
          users = dispatch-users fails (row_of new_id p w) address x;
          keys = λ j h. ground (arith, after-keys j, h);
        })

  pub notify-present : present k (notify fails new_id p address w).1 ≡ true
  notify-present =
      ap (λ z. present k z.1) notify-stores ∙ ground (arith, after-keys k, kp, key_eq_refl k)
