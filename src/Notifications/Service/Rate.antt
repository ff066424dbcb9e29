-- ===== src/Notifications/Service/Rate.antt =====
-- The rate limit: how many notifications of a user are stored while the counter lives.
use mathlib.Core.Path.{subst}
use spoutbreeze_backend.Prelude.{
  ℕ, suc, ◌+◌, ◌≤◌, ◌≡◌, refl, ap, sym, ◌∙◌, Bool, true, Option, none, some, List, [], ◌∷◌, String,
  ◌==◌, ◌&&◌, inl, inr, arith, Bool-cases, count_if, if◌then◌else◌, is_some,
}
use spoutbreeze_backend.Prelude.Counting.{count_if-update_where}
use spoutbreeze_backend.Prelude.Dict.{get, put, get-put_self, get-put_ne}
use spoutbreeze_backend.Notifications.Store.{Notification, World, DeliveryStatus, Redis}
use spoutbreeze_backend.Notifications.Service.{
  NotificationCreate, notify, notify_bulk, addressed, dispatch, dispatch_in_app, push_to_sockets,
  get_unread_count, set_in_app, new_row, check_rate_limit, rate_limit_max, or_zero, invalidate,
  cache_count, count_unread,
}
use spoutbreeze_backend.Notifications.Service.Ends.{
  same, limited_only, stored, row_of, with_row, notify-Ends,
}

-- The counter of a user, and the rows of the user.
abbrev pub rate_of : ℕ → Option Redis → ℕ
rate_of u none = 0
rate_of u (some r) = or_zero (get u r.rate)

abbrev pub rows_of : ℕ → List Notification → ℕ
rows_of u rows = count_if (λ n. n.user_id == u) rows

-- Redis is connected, and the user has no more new rows than the counter has grown, since there
-- were `before` rows and the counter was at `used`; the counter is sixty at most.
pub record Limited (u before used : ℕ) (w : World) : Type 0 where
  pub connected : is_some w.redis ≡ true
  pub covered : rows_of u w.notifications + used ≤ before + rate_of u w.redis
  pub bounded : rate_of u w.redis ≤ rate_limit_max

-- Dispatching changes neither.
count-set_in_app :
    (v k : ℕ) (st : DeliveryStatus) (rows : List Notification)
    → rows_of v (set_in_app k st rows) ≡ rows_of v rows
count-set_in_app v k st rows =
    count_if-update_where (λ n. n.user_id == v) (λ n. n.id == k) _ (λ n h. refl) rows

rate-cache_count :
    (u v n : ℕ) (r : Option Redis)
    → (rate_of v (cache_count u n r) ≡ rate_of v r) × (is_some (cache_count u n r) ≡ is_some r)
rate-cache_count u v n none = (refl, refl)
rate-cache_count u v n (some r) = (refl, refl)

rate-invalidate :
    (u v : ℕ) (r : Option Redis)
    → (rate_of v (invalidate u r) ≡ rate_of v r) × (is_some (invalidate u r) ≡ is_some r)
unfolding invalidate
rate-invalidate u v none = (refl, refl)
rate-invalidate u v (some r) = (refl, refl)

dispatch_in_app-rate :
    (fails : ℕ → Bool) (n : Notification) (w : World) (v : ℕ)
    → let w' = dispatch_in_app fails n w in
      (rows_of v w'.notifications ≡ rows_of v w.notifications)
      × (rate_of v w'.redis ≡ rate_of v w.redis)
      × (is_some w'.redis ≡ is_some w.redis)
unfolding dispatch_in_app push_to_sockets get_unread_count
dispatch_in_app-rate fails n w v =
    let (a, b) = rate-cache_count n.user_id v (count_unread n.user_id w.notifications) w.redis in
    (
      ground (
        arith,
        count-set_in_app v n.id DeliveryStatus.pending w.notifications,
        count-set_in_app v n.id DeliveryStatus.delivered w.notifications,
      ),
      ground (arith, a),
      ground (arith, b),
    )

dispatch-rate :
    (fails : ℕ → Bool) (n : Notification) (address : Option String) (w : World) (v : ℕ)
    → let w' = dispatch fails n address w in
      (rows_of v w'.notifications ≡ rows_of v w.notifications)
      × (rate_of v w'.redis ≡ rate_of v w.redis)
      × (is_some w'.redis ≡ is_some w.redis)
unfolding dispatch
dispatch-rate fails n address w v =
    let (a, b, c) = dispatch_in_app-rate fails n w v in
    let (d, e) = rate-invalidate n.user_id v (dispatch_in_app fails n w).redis in (a, d ∙ b, e ∙ c)

-- The limit counts the request that it lets through.
check_rate_limit-rate :
    (v u : ℕ) (r : Option Redis)
    → is_some r ≡ true
    → rate_of u r ≤ rate_limit_max
    → let (allowed, r') = check_rate_limit v r in
      (is_some r' ≡ true)
      × (rate_of u r' ≤ rate_limit_max)
      × (rate_of u r ≤ rate_of u r')
      × (rate_of u r' ≡ (if allowed && v == u then suc (rate_of u r) else rate_of u r))
unfolding check_rate_limit
check_rate_limit-rate v u none h b = cc
check_rate_limit-rate v u (some r) h b = elim (Bool-cases (v == u)) [
  | inl g ↦
      let i : v ≡ u = ground arith in
      let put_self =
        subst
          (λ j.
            get j (put v (suc (or_zero (get v r.rate))) r.rate)
            ≡ some (suc (or_zero (get v r.rate))))
          i (get-put_self v (suc (or_zero (get v r.rate))) r.rate) in
      let same_rate : get v r.rate ≡ get u r.rate = ap (λ j. get j r.rate) i in
      (
        ground (arith, put_self),
        ground (arith, put_self, same_rate),
        ground (arith, put_self, same_rate),
        ground (arith, put_self, same_rate, g),
      )
  | inr g ↦
      let put_ne = get-put_ne v u (suc (or_zero (get v r.rate))) r.rate (ground (arith, g)) in
      (
        ground (arith, put_ne),
        ground (arith, put_ne),
        ground (arith, put_ne),
        ground (arith, put_ne, g),
      )
]

row_of-user :
    (new_id : ℕ) (p : NotificationCreate) (w : World) → (row_of new_id p w).user_id ≡ p.user_id
unfolding new_row
row_of-user new_id p w = refl

notify-Limited :
    (fails : ℕ → Bool) (new_id : ℕ) (p : NotificationCreate) (address : Option String)
    (u before used : ℕ) (w : World)
    → Limited u before used w
    → Limited u before used (notify fails new_id p address w).1
notify-Limited fails new_id p address u before used w l =
    let (on, top, grows, counted) =
      check_rate_limit-rate p.user_id u w.redis l.connected l.bounded in
    let covered = l.covered in
    elim (notify-Ends fails new_id p address w) [
      | same r ↦ subst (Limited u before used) (sym r) l
      | limited_only b r ↦
          subst (Limited u before used) (sym r)
            (record { connected = on; covered = omega (arith, covered, grows); bounded = top })
      | stored g r ↦
          let n = row_of new_id p w in
          let mine = row_of-user new_id p w in
          let x = with_row new_id p w in
          let (rows, rate, some_redis) = dispatch-rate fails n address x u in
          subst (λ z. Limited u before used z.1) (sym r)
            (record {
              connected = some_redis ∙ on;
              covered = ground (arith, mine, rows, rate, g, counted, covered);
              bounded = omega (arith, rate, top);
            })
    ]

notify_bulk-Limited :
    (fails : ℕ → Bool) (us : List (ℕ × ℕ)) (p : NotificationCreate) (u before used : ℕ) (w : World)
    → Limited u before used w
    → Limited u before used (notify_bulk fails us p w).1
unfolding notify_bulk
notify_bulk-Limited fails [] p u before used w l = l
notify_bulk-Limited fails ((v, k) ∷ us) p u before used w l =
    notify_bulk-Limited fails us p u before used (notify fails k (addressed p v) none w).1
      (notify-Limited fails k (addressed p v) none u before used w l)

-- Sixty at most of the notifications of a bulk message reach one user while the user's counter
-- lives, however often the user stands in the list: with Redis connected and the counter at `used`,
-- the user has no more than `60 - used` new rows, and the counter stays at sixty or below.
pub notify_bulk_bounds :
    (fails : ℕ → Bool) (us : List (ℕ × ℕ)) (p : NotificationCreate) (u : ℕ) (w : World)
    → is_some w.redis ≡ true
    → rate_of u w.redis ≤ rate_limit_max
    → let w' = (notify_bulk fails us p w).1 in
      (rows_of u w'.notifications + rate_of u w.redis ≤ rows_of u w.notifications + rate_limit_max)
      × (rate_of u w'.redis ≤ rate_limit_max)
notify_bulk_bounds fails us p u w on top =
    let start : Limited u (rows_of u w.notifications) (rate_of u w.redis) w = record {
      connected = on;
      covered = omega arith;
      bounded = top;
    } in
    let l =
      notify_bulk-Limited fails us p u (rows_of u w.notifications) (rate_of u w.redis) w start in
    let covered = l.covered in let bounded = l.bounded in (omega (arith, covered, bounded), bounded)
