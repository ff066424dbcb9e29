-- ===== src/Streams/Tests.antt =====
-- A user with one stream at most starts and stops a broadcast.
use spoutbreeze_backend.Prelude.{◌≡◌, refl, true, false, none, some, [], ◌∷◌, arith, ◌≤◌}
use spoutbreeze_backend.Prelude.Session.{ok, raised, open_on}
use spoutbreeze_backend.Billing.Plan.{
  Plan, get_plan_limits, max_quality, max_concurrent_streams, max_stream_duration_hours, is_trial,
}
use spoutbreeze_backend.Billing.Plan.Quality.{clamp_resolution, quality_order, known_quality}
use spoutbreeze_backend.Billing.Store.{User, Subscription, Tables, one_or_none}
use spoutbreeze_backend.Billing.Service.{get_user_subscription, trial_subscription}
use spoutbreeze_backend.Billing.Guard.{
  at_least, check_stream_quality, forbidden, require_active_subscription,
}
use spoutbreeze_backend.Streams.Tracker.{
  Store, Tracker, StreamSessionStatus, add_stream, remove_stream, get_user_streams,
  get_active_stream_count,
}
use spoutbreeze_backend.Streams.Broadcast.{
  Request, started, prepare, subscription_of, start_broadcasting, stop_broadcast,
}
use spoutbreeze_backend.Streams.Broadcast.Limits.{
  asked, start_broadcasting-within_limits, start_broadcasting-after_trial,
}

abbrev empty : Store
empty = record { user_streams = []; stream_to_user = []; stream_platforms = [] }

abbrev idle : Tracker
idle = record { redis = some empty; fallback = empty; sessions = [] }

abbrev ana : User
ana = record { id = 7; unlimited_access = false; has_used_free_trial = true }

abbrev trial_row : Subscription
trial_row = record (trial_subscription 1 1000 ana "cus_ana") { trial_end = some 5000 }

abbrev tables : Tables
tables = record {
  users = ana ∷ [];
  subscriptions = trial_row ∷ [];
  transactions = [];
  webhook_events = [];
}

abbrev in_4k : Request
in_4k = record { user_id = 7; requested_resolution = some "4K"; default_resolution = none }

abbrev busy : Tracker
busy = record idle {
  redis = some (record {
    user_streams = record { key = 7; value = 30 ∷ [] } ∷ [];
    stream_to_user = record { key = 30; value = 7 } ∷ [];
    stream_platforms = record { key = 30; value = "twitch" } ∷ [];
  });
  sessions =
      record {
        stream_id = 30;
        user_id = 7;
        platform = some "twitch";
        status = StreamSessionStatus.active;
      }
      ∷ [];
}

add_busy : add_stream true 7 30 (some "twitch") idle ≡ busy
unfolding add_stream
add_busy = refl

stop_busy : get_active_stream_count 7 (stop_broadcast true true 30 busy).1 ≡ 0
unfolding stop_broadcast remove_stream get_active_stream_count
stop_busy = refl

ana_subscribed : get_user_subscription ana (open_on tables) ≡ (ok (some trial_row), open_on tables)
unfolding get_user_subscription one_or_none
ana_subscribed = refl

one_stream : max_concurrent_streams (get_plan_limits false Plan.free) ≡ some 1
unfolding max_concurrent_streams get_plan_limits
one_stream = refl

started_in_720p :
    start_broadcasting 9 2000 none true in_4k (started 30 (some "twitch")) (open_on tables) idle ≡ (
      ok (30, record { resolution = "720p"; is_basic_plan = true }),
      (open_on tables, add_stream true 7 30 (some "twitch") idle),
    )
unfolding start_broadcasting prepare subscription_of get_user_subscription at_least
    max_concurrent_streams get_plan_limits get_active_stream_count clamp_resolution
    max_stream_duration_hours quality_order known_quality max_quality
started_in_720p = refl

start_broadcasting-within_limits_example :
    (get_active_stream_count 7 (add_stream true 7 30 (some "twitch") idle) ≤ 1)
    × (check_stream_quality ana trial_row "720p" ≡ ok tt)
    × (add_stream true 7 30 (some "twitch") idle ≡ add_stream true 7 30 (some "twitch") idle)
    × (open_on tables ≡ open_on tables)
start_broadcasting-within_limits_example =
    start_broadcasting-within_limits 9 2000 none true in_4k (started 30 (some "twitch"))
      (open_on tables) idle {u = ana} {s = trial_row} {n = 1} {sid = 30}
      {b = record { resolution = "720p"; is_basic_plan = true }} {db' = open_on tables}
      {t' = add_stream true 7 30 (some "twitch") idle} refl ana_subscribed one_stream
      started_in_720p

busy_count : 1 ≤ get_active_stream_count 7 busy
unfolding get_active_stream_count get_user_streams
busy_count = omega arith

room_idle :
    at_least
      (max_concurrent_streams (get_plan_limits false Plan.free))
      (get_active_stream_count 7 idle)
    ≡ false
unfolding at_least max_concurrent_streams get_plan_limits get_active_stream_count
room_idle = refl

trial_status : is_trial trial_row.status ≡ true
unfolding is_trial
trial_status = refl

start_broadcasting-after_trial_example :
    ((require_active_subscription 6000 ana trial_row (open_on tables)).0 ≡ raised forbidden)
    × (start_broadcasting 9 6000 none true in_4k (started 30 none) (open_on tables) idle
        ≡ (ok (30, asked in_4k ana trial_row), (open_on tables, add_stream true 7 30 none idle)))
start_broadcasting-after_trial_example =
    start_broadcasting-after_trial 9 6000 none true in_4k 30 none (open_on tables) idle {u = ana}
      {s = trial_row} {end = 5000} refl ana_subscribed refl trial_status refl (omega arith)
      room_idle
