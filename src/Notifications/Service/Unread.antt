-- ===== src/Notifications/Service/Unread.antt =====
-- The cached unread counter against the rows, under every call of the service.
use mathlib.Core.Path.{subst}
use spoutbreeze_backend.Prelude.{
  ℕ, ◌≡◌, refl, ap, sym, ◌∙◌, Bool, false, Option, none, some, List, ◌∷◌, String, ◌==◌, inl, inr,
  arith, Bool-cases, Option-cases,
}
use spoutbreeze_backend.Prelude.Counting.{count_if-update_where}
use spoutbreeze_backend.Prelude.Dict.{get, put, get-put_self, get-put_ne, get-del_self, get-del_ne}
use spoutbreeze_backend.Notifications.Store.{Notification, Redis, World, DeliveryStatus}
use spoutbreeze_backend.Notifications.Service.Ends.{same, limited_only, stored, row_of, notify-Ends}
use spoutbreeze_backend.Notifications.Service.{
  NotificationCreate, cached, cache_count, invalidate, get_unread_count, unread_of, count_unread,
  set_in_app, push_to_sockets, dispatch_in_app, dispatch, check_rate_limit, notify,
}

-- A counter that is cached is the number of unread rows.
abbrev pub Coherent : Option Redis → List Notification → Type 0
Coherent r rows = (u n : ℕ) → cached u r ≡ some n → n ≡ count_unread u rows

cached-invalidate_self : (u : ℕ) (r : Option Redis) → cached u (invalidate u r) ≡ none
unfolding invalidate
cached-invalidate_self u none = refl
cached-invalidate_self u (some r) = get-del_self u r.unread

cached-invalidate_ne :
    (u v : ℕ) (r : Option Redis) → (v == u) ≡ false → cached v (invalidate u r) ≡ cached v r
unfolding invalidate
cached-invalidate_ne u v none h = refl
cached-invalidate_ne u v (some r) h = get-del_ne u v r.unread h

cached-count_ne :
    (u v n : ℕ) (r : Option Redis) → (v == u) ≡ false → cached v (cache_count u n r) ≡ cached v r
cached-count_ne u v n none h = refl
cached-count_ne u v n (some r) h = get-put_ne u v n r.unread h

-- Counters that agree for the other users, and rows that count the same for them: with the user's
-- counter dropped the rest stays right.
pub invalidate-Coherent :
    (u : ℕ) (r r' : Option Redis) (rows rows' : List Notification)
    → ((v : ℕ) → (v == u) ≡ false → cached v r' ≡ cached v r)
    → ((v : ℕ) → (v == u) ≡ false → count_unread v rows' ≡ count_unread v rows)
    → Coherent r rows
    → Coherent (invalidate u r') rows'
invalidate-Coherent u r r' rows rows' agree counts c v n h = elim (Bool-cases (v == u)) [
  | inl g ↦
      let i : v ≡ u = ground arith in
      let gone : cached v (invalidate u r') ≡ none =
        subst (λ w. cached w (invalidate u r') ≡ none) (sym i) (cached-invalidate_self u r') in
      cc
  | inr g ↦ c v n (sym (agree v g) ∙ sym (cached-invalidate_ne u v r' g) ∙ h) ∙ sym (counts v g)
]

-- Counting and caching the count keeps the counters right.
pub get_unread_count-Coherent :
    (u : ℕ) (w : World)
    → Coherent w.redis w.notifications
    → let (n, w') = get_unread_count u w in
      Coherent w'.redis w'.notifications × (n ≡ count_unread u w.notifications)
unfolding get_unread_count
get_unread_count-Coherent u w c = elim (Option-cases (cached u w.redis)) [
  | inr (n, h) ↦ rw (get_unread_count, h) (c, c u n h)
  | inl h ↦ rw (get_unread_count, h) (stored w.redis c, refl)
]
  where
    stored :
        (r : Option Redis)
        → Coherent r w.notifications
        → Coherent (cache_count u (count_unread u w.notifications) r) w.notifications
    stored none c v n h = cc
    stored (some r) c v n h = elim (Bool-cases (v == u)) [
      | inr g ↦ c v n (sym (cached-count_ne u v (count_unread u w.notifications) (some r) g) ∙ h)
      | inl g ↦
          let i : v ≡ u = ground arith in
          let s = get-put_self u (count_unread u w.notifications) r.unread in
          let h' =
            subst (λ x. get x (put u (count_unread u w.notifications) r.unread) ≡ some n) i h in
          let e : n ≡ count_unread u w.notifications = cc in
          e ∙ ap (λ x. count_unread x w.notifications) (sym i)
    ]

count-set_in_app :
    (v k : ℕ) (st : DeliveryStatus) (rows : List Notification)
    → count_unread v (set_in_app k st rows) ≡ count_unread v rows
count-set_in_app v k st rows =
    count_if-update_where (unread_of v) (λ n. n.id == k) _ (λ n h. refl) rows

-- Dispatching touches the counter of the recipient only, and no count of unread rows.
dispatch_in_app-cached :
    (fails : ℕ → Bool) (n : Notification) (w : World) (v : ℕ)
    → (v == n.user_id) ≡ false
    → cached v (dispatch_in_app fails n w).redis ≡ cached v w.redis
unfolding dispatch_in_app push_to_sockets get_unread_count
dispatch_in_app-cached fails n w v h =
    ground (arith, cached-count_ne n.user_id v (count_unread n.user_id w.notifications) w.redis h)

pub dispatch_in_app-counts :
    (fails : ℕ → Bool) (n : Notification) (w : World) (v : ℕ)
    → count_unread v (dispatch_in_app fails n w).notifications ≡ count_unread v w.notifications
unfolding dispatch_in_app push_to_sockets get_unread_count
dispatch_in_app-counts fails n w v = ground (
  arith,
  count-set_in_app v n.id DeliveryStatus.pending w.notifications,
  count-set_in_app v n.id DeliveryStatus.delivered w.notifications,
)

pub check_rate_limit-cached :
    (u v : ℕ) (r : Option Redis) → cached v (check_rate_limit u r).1 ≡ cached v r
unfolding check_rate_limit
check_rate_limit-cached u v none = refl
check_rate_limit-cached u v (some r) = ground arith

-- A new unread row of the recipient, dispatched.
dispatch-Coherent :
    (fails : ℕ → Bool) (n : Notification) (address : Option String) (w : World)
    → Coherent w.redis w.notifications
    → let w' = dispatch fails n address (record w { notifications = n ∷ w.notifications }) in
      Coherent w'.redis w'.notifications
unfolding dispatch
dispatch-Coherent fails n address w c =
    let x = record w { notifications = n ∷ w.notifications } in
    invalidate-Coherent n.user_id w.redis (dispatch_in_app fails n x).redis w.notifications
      (dispatch_in_app fails n x).notifications (dispatch_in_app-cached fails n x)
      (λ v h. dispatch_in_app-counts fails n x v ∙ ground (arith, h)) c

pub notify-Coherent :
    (fails : ℕ → Bool) (new_id : ℕ) (p : NotificationCreate) (address : Option String) (w : World)
    → Coherent w.redis w.notifications
    → let w' = (notify fails new_id p address w).1 in Coherent w'.redis w'.notifications
notify-Coherent fails new_id p address w c =
    let limited : Coherent (check_rate_limit p.user_id w.redis).1 w.notifications =
      λ v n h. c v n (sym (check_rate_limit-cached p.user_id v w.redis) ∙ h) in
    let x = (notify fails new_id p address w).1 in
    elim (notify-Ends fails new_id p address w) [
      | same r ↦ subst (λ z. Coherent z.redis z.notifications) (sym r) c
      | limited_only e r ↦ subst (λ z. Coherent z.redis z.notifications) (sym r) limited
      | stored g r ↦
          subst (λ z. Coherent z.1.redis z.1.notifications) (sym r)
            (dispatch-Coherent fails (row_of new_id p w) address
              (record w { redis = (check_rate_limit p.user_id w.redis).1 }) limited)
    ]
