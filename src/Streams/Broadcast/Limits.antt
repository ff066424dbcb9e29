-- ===== src/Streams/Broadcast/Limits.antt =====
-- The limits of a plan at the start of a broadcast.
use spoutbreeze_backend.Prelude.{
  ℕ, ◌≡◌, ap, ◌∙◌, Bool, true, false, Option, some, List, String, arith, ◌==◌, find?, suc, length,
  elem, Bool-cases, inl, inr, ◌≤◌, ◌<◌,
}
use spoutbreeze_backend.Prelude.Session.{ok, raised, http, Session}
use spoutbreeze_backend.Billing.Plan.{
  get_plan_limits, max_quality, max_concurrent_streams, max_stream_duration_hours, is_trial,
}
use spoutbreeze_backend.Billing.Plan.Quality.{clamp_resolution}
use spoutbreeze_backend.Billing.Store.{User, Subscription, Tables}
use spoutbreeze_backend.Billing.Service.{get_user_subscription}
use spoutbreeze_backend.Billing.Guard.{
  forbidden, at_least, check_stream_quality, require_active_subscription,
}
use spoutbreeze_backend.Billing.Guard.Quality.{check_stream_quality-clamp_resolution}
use spoutbreeze_backend.Streams.Tracker.{
  Tracker, add_stream, added, insert, members, store, get_user_streams, get_active_stream_count,
}
use spoutbreeze_backend.Streams.Tracker.Sets.{members-put}
use spoutbreeze_backend.Streams.Tracker.RoundTrip.{choose-write}
use spoutbreeze_backend.Streams.Broadcast.{
  Request, BroadcasterRequest, Answer, started, prepare, subscription_of, start_broadcasting,
  wanted, timed_out, failed, refused, no_stream_id, is_one, platform_of,
}

length-insert : (s : ℕ) (xs : List ℕ) → length (insert s xs) ≤ suc (length xs)
length-insert s xs = elim (Bool-cases (elem s xs)) [
  | inl h ↦ rw h (omega arith)
  | inr h ↦ rw h (omega arith)
]

-- A stream that is added counts once at most.
get_active_stream_count-add_stream :
    (saved : Bool) (u sid : ℕ) (p : Option String) (t : Tracker)
    → get_active_stream_count u (add_stream saved u sid p t) ≤ suc (get_active_stream_count u t)
unfolding get_active_stream_count get_user_streams add_stream
get_active_stream_count-add_stream saved u sid p t =
    let s = store t in
    let after =
      ap (λ x. members u x.user_streams) (choose-write (added u sid p s) t.redis t.fallback)
      ∙ members-put u (insert sid (members u s.user_streams)) s.user_streams in
    rw after (length-insert sid (members u s.user_streams))

-- The request that is made for a user with a subscription.
abbrev pub asked : Request → User → Subscription → BroadcasterRequest
asked q u s = record {
  resolution =
      clamp_resolution (wanted q) (max_quality (get_plan_limits u.unlimited_access s.plan));
  is_basic_plan = is_one (max_stream_duration_hours (get_plan_limits u.unlimited_access s.plan));
}

-- How a start that succeeds ends.
start_broadcasting-ok :
    (new_id now : ℕ) (created : Option String) (saved : Bool) (q : Request) (a : Answer)
    (db : Session Tables) (t : Tracker) {u : User} {s : Subscription} {n sid : ℕ}
    {b : BroadcasterRequest} {db' : Session Tables} {t' : Tracker}
    → find? (λ x. x.id == q.user_id) db.work.users ≡ some u
    → get_user_subscription u db ≡ (ok (some s), db)
    → max_concurrent_streams (get_plan_limits u.unlimited_access s.plan) ≡ some n
    → start_broadcasting new_id now created saved q a db t ≡ (ok (sid, b), (db', t'))
    → (get_active_stream_count q.user_id t < n)
      × (b ≡ asked q u s)
      × (db' ≡ db)
      × (t' ≡ add_stream saved q.user_id sid (platform_of a) t)
unfolding start_broadcasting prepare subscription_of at_least
start_broadcasting-ok new_id now created saved q timed_out db t user sub top h =
    absurd (ground (arith, user, sub, top, h))
start_broadcasting-ok new_id now created saved q failed db t user sub top h =
    absurd (ground (arith, user, sub, top, h))
start_broadcasting-ok new_id now created saved q refused db t user sub top h =
    absurd (ground (arith, user, sub, top, h))
start_broadcasting-ok new_id now created saved q no_stream_id db t user sub top h =
    absurd (ground (arith, user, sub, top, h))
start_broadcasting-ok new_id now created saved q (started i p) db t user sub top h = (
  ground (arith, user, sub, top, h),
  ground (arith, user, sub, top, h),
  ground (arith, user, sub, top, h),
  ground (arith, user, sub, top, h),
)

-- A broadcast that is started by a user with a subscription, whose plan limits the number of
-- streams, leaves the user within that number and is asked for in a resolution that the quality
-- guard accepts, whichever was requested. It adds the stream, with the row of its session if the
-- database takes it, and changes nothing in the tables of users and of billing.
pub start_broadcasting-within_limits :
    (new_id now : ℕ) (created : Option String) (saved : Bool) (q : Request) (a : Answer)
    (db : Session Tables) (t : Tracker) {u : User} {s : Subscription} {n sid : ℕ}
    {b : BroadcasterRequest} {db' : Session Tables} {t' : Tracker}
    → find? (λ x. x.id == q.user_id) db.work.users ≡ some u
    → get_user_subscription u db ≡ (ok (some s), db)
    → max_concurrent_streams (get_plan_limits u.unlimited_access s.plan) ≡ some n
    → start_broadcasting new_id now created saved q a db t ≡ (ok (sid, b), (db', t'))
    → (get_active_stream_count q.user_id t' ≤ n)
      × (check_stream_quality u s b.resolution ≡ ok tt)
      × (t' ≡ add_stream saved q.user_id sid (platform_of a) t)
      × (db' ≡ db)
start_broadcasting-within_limits new_id now created saved q a db t {u} {s} {n} {sid} {b} {db'} {t'}
      user sub top h =
    let (room, request, same, tracked) =
      start_broadcasting-ok new_id now created saved q a db t user sub top h in
    let once = get_active_stream_count-add_stream saved q.user_id sid (platform_of a) t in
    let after = ap (get_active_stream_count q.user_id) tracked in
    (
      omega (arith, room, once, after),
      ap (λ r. check_stream_quality u s r.resolution) request
          ∙ check_stream_quality-clamp_resolution u s (wanted q),
      tracked,
      same,
    )

-- At the limit of the plan a start is refused, whatever the other servers would answer, and nothing
-- changes.
pub start_broadcasting-at_limit :
    (new_id now : ℕ) (created : Option String) (saved : Bool) (q : Request) (a : Answer)
    (db : Session Tables) (t : Tracker) {u : User} {s : Subscription} {n : ℕ}
    → find? (λ x. x.id == q.user_id) db.work.users ≡ some u
    → get_user_subscription u db ≡ (ok (some s), db)
    → max_concurrent_streams (get_plan_limits u.unlimited_access s.plan) ≡ some n
    → n ≤ get_active_stream_count q.user_id t
    → start_broadcasting new_id now created saved q a db t ≡ (raised (http 403), (db, t))
unfolding start_broadcasting prepare subscription_of at_least
start_broadcasting-at_limit new_id now created saved q a db t user sub top h =
    ground (arith, user, sub, top)

-- After the end of its trial a subscription is refused by the subscription guard, and a broadcast
-- of its user is still started, with the plan's resolution, while there is room for one more
-- stream.
pub start_broadcasting-after_trial :
    (new_id now : ℕ) (created : Option String) (saved : Bool) (q : Request) (sid : ℕ)
    (p : Option String) (db : Session Tables) (t : Tracker) {u : User} {s : Subscription} {end : ℕ}
    → find? (λ x. x.id == q.user_id) db.work.users ≡ some u
    → get_user_subscription u db ≡ (ok (some s), db)
    → u.unlimited_access ≡ false
    → is_trial s.status ≡ true
    → s.trial_end ≡ some end
    → end < now
    → at_least
        (max_concurrent_streams (get_plan_limits u.unlimited_access s.plan))
        (get_active_stream_count q.user_id t)
      ≡ false
    → ((require_active_subscription now u s db).0 ≡ raised forbidden)
      × (start_broadcasting new_id now created saved q (started sid p) db t
          ≡ (ok (sid, asked q u s), (db, add_stream saved q.user_id sid p t)))
unfolding start_broadcasting prepare subscription_of require_active_subscription is_trial
start_broadcasting-after_trial new_id now created saved q sid p db t user sub limited trial e late
      room =
    (ground arith, ground (arith, user, sub, room))
