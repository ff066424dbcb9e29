-- ===== src/Notifications/Service/Ends.antt =====
-- How a call of `notify` ends.
use mathlib.Core.Path.{subst}
use spoutbreeze_backend.Prelude.{
  ℕ, ◌≡◌, ap, sym, ◌∙◌, Bool, true, Option, ◌∷◌, String, ◌&&◌, ◌⊎◌, inl, inr, arith, Bool-cases,
  Option-cases,
}
use spoutbreeze_backend.Prelude.Session.{Outcome, ok}
use spoutbreeze_backend.Notifications.Store.{Notification, World, type_name}
use spoutbreeze_backend.Notifications.Service.{
  NotificationCreate, check_rate_limit, store_new, limit_and_store, duplicate_of, notify, new_row,
  get_channels, dispatch, has_key,
}

-- The row that the call would add.
abbrev pub row_of : ℕ → NotificationCreate → World → Notification
row_of new_id p w =
    new_row new_id p (get_channels p.user_id (type_name p.notification_type) w.preferences)

abbrev pub after_limit : NotificationCreate → World → World
after_limit p w = record w { redis = (check_rate_limit p.user_id w.redis).1 }

abbrev pub with_row : ℕ → NotificationCreate → World → World
with_row new_id p w = record (after_limit p w) {
  notifications = row_of new_id p w ∷ w.notifications;
}

-- A call ends without a change, or after the rate limit only, or with the new row dispatched.
pub data Ends (fails : ℕ → Bool) (new_id : ℕ) (p : NotificationCreate) (address : Option String)
    (w : World) (x : Outcome Notification × World) : Type 0 where
  same : x.1 ≡ w → Ends fails new_id p address w x
  limited_only :
      (b : Bool) → x.1 ≡ record (after_limit p w) { failed = b } → Ends fails new_id p address w x
  stored :
      (check_rate_limit p.user_id w.redis).0 ≡ true
      → x
        ≡ (ok (row_of new_id p w), dispatch fails (row_of new_id p w) address (with_row new_id p w))
      → Ends fails new_id p address w x

store_new-cases :
    (fails : ℕ → Bool) (new_id : ℕ) (p : NotificationCreate) (address : Option String) (w : World)
    → let x = store_new fails new_id p address w in
      (x.1 ≡ record w { failed = true })
      ⊎ (x ≡ (
        ok (row_of new_id p w),
        dispatch fails
            (row_of new_id p w)
            address
            (record w { notifications = row_of new_id p w ∷ w.notifications }),
      ))
unfolding store_new
store_new-cases fails new_id p address w = ground arith

limit_and_store-Ends :
    (fails : ℕ → Bool) (new_id : ℕ) (p : NotificationCreate) (address : Option String) (w : World)
    → Ends fails new_id p address w (limit_and_store fails new_id p address w)
unfolding limit_and_store
limit_and_store-Ends fails new_id p address w =
    elim (Bool-cases (check_rate_limit p.user_id w.redis).0) [
      | inr g ↦ limited_only w.failed (ground (arith, g))
      | inl g ↦
          let at : limit_and_store fails new_id p address w
              ≡ store_new fails new_id p address (after_limit p w) =
            ground (arith, g) in
          elim (store_new-cases fails new_id p address (after_limit p w)) [
            | inl q ↦ limited_only true (ap (λ z. z.1) at ∙ q)
            | inr q ↦ stored g (at ∙ q)
          ]
    ]

pub notify-Ends :
    (fails : ℕ → Bool) (new_id : ℕ) (p : NotificationCreate) (address : Option String) (w : World)
    → Ends fails new_id p address w (notify fails new_id p address w)
unfolding notify
notify-Ends fails new_id p address w = elim (Bool-cases (w.failed && has_key p.idempotency_key)) [
  | inl g ↦ same (ground (arith, g))
  | inr g ↦ elim (Option-cases (duplicate_of p.idempotency_key w.notifications)) [
    | inr (n, h) ↦ same (ground (arith, g, h))
    | inl h ↦
        let at : notify fails new_id p address w ≡ limit_and_store fails new_id p address w =
          ground (arith, g, h) in
        subst (Ends fails new_id p address w) (sym at)
          (limit_and_store-Ends fails new_id p address w)
  ]
]
