-- ===== src/Streams/Broadcast.antt =====
-- `start_broadcasting` and `stop_broadcast` of app/services/broadcaster_service.py. What the
-- meeting server, the broadcaster and the chat gateway answer is an input. The rows of stream
-- sessions, which `add_stream` inserts, are not in the billing tables but in the tracker.
pub mod Limits
use spoutbreeze_backend.Prelude.{
  ℕ, Bool, true, false, Option, none, some, List, [], ◌∷◌, String, ◌==◌, find?, given,
  if◌then◌else◌,
}
use spoutbreeze_backend.Prelude.Session.{
  Action, Outcome, ok, raised, Error, http, Session, pure, raise, raise_if, gets, ◌>>=◌, ◌>>◌,
}
use spoutbreeze_backend.Billing.Plan.{
  Plan, get_plan_limits, max_quality, max_concurrent_streams, max_stream_duration_hours,
}
use spoutbreeze_backend.Billing.Plan.Quality.{clamp_resolution}
use spoutbreeze_backend.Billing.Store.{User, Subscription, Tables}
use spoutbreeze_backend.Billing.Service.{get_user_subscription, create_free_subscription}
use spoutbreeze_backend.Billing.Guard.{at_least}
use spoutbreeze_backend.Streams.Tracker.{
  Tracker, add_stream, remove_stream, get_active_stream_count,
}

-- The arguments, and the user's `default_resolution`.
pub record Request : Type 0 where
  pub user_id : ℕ
  pub requested_resolution : Option String
  pub default_resolution : Option String

-- The plan's part of the request to the broadcaster.
pub record BroadcasterRequest : Type 0 where
  pub resolution : String
  pub is_basic_plan : Bool

-- How the calls after the checks end: a timeout, another exception, a response without success,
-- one without a stream id, or a stream, with the platform whose chat was connected.
pub data Answer : Type 0 where
  timed_out failed refused no_stream_id : Answer
  started : ℕ → Option String → Answer

abbrev pub platform_of : Answer → Option String
platform_of (started sid p) = p
platform_of _ = none

-- `requested_resolution or user.default_resolution`
abbrev pub wanted : Request → Option String
wanted q = if given q.requested_resolution then q.requested_resolution else q.default_resolution

abbrev pub is_one : Option ℕ → Bool
is_one none = false
is_one (some n) = n == 1

-- The subscription of the user, or a new trial; the user has just been loaded in the session.
unfoldable pub subscription_of : ℕ → ℕ → User → Option String → Action Tables Subscription
subscription_of new_id now u created = do
  found ← get_user_subscription u
  elim found [ some s ↦ pure s | none ↦ create_free_subscription true new_id now u created ]

-- The checks before the first call of another server.
unfoldable pub prepare : ℕ → ℕ → Option String → Request → ℕ → Action Tables BroadcasterRequest
prepare new_id now created q count = do
  found ← gets (λ d. find? (λ u. u.id == q.user_id) d.users)
  elim found [
    | none ↦ raise (http 404)
    | some u ↦ do
      s ← subscription_of new_id now u created
      let limits = get_plan_limits u.unlimited_access s.plan
      raise_if (at_least (max_concurrent_streams limits) count) (http 403)
      pure (record {
        resolution = clamp_resolution (wanted q) (max_quality limits);
        is_basic_plan = is_one (max_stream_duration_hours limits);
      })
  ]

-- `except HTTPException: raise` and `except Exception: HTTP 500`.
abbrev pub with_500 : {A : Type 0} → Outcome A → Outcome A
with_500 (ok a) = ok a
with_500 (raised (http n)) = raised (http n)
with_500 (raised e) = raised (http 500)

abbrev finished :
    Bool
    → Request
    → Answer
    → BroadcasterRequest
    → Tracker
    → Outcome (ℕ × BroadcasterRequest) × Tracker
finished saved q timed_out b t = (raised (http 504), t)
finished saved q failed b t = (raised (http 500), t)
finished saved q refused b t = (raised (http 502), t)
finished saved q no_stream_id b t = (raised (http 502), t)
finished saved q (started sid p) b t = (ok (sid, b), add_stream saved q.user_id sid p t)

-- `start_broadcasting`: the stream and the request that was made for it.
unfoldable pub start_broadcasting :
    ℕ
    → ℕ
    → Option String
    → Bool
    → Request
    → Answer
    → Session Tables
    → Tracker
    → Outcome (ℕ × BroadcasterRequest) × (Session Tables × Tracker)
start_broadcasting new_id now created saved q a db t =
    let (r, db') = prepare new_id now created q (get_active_stream_count q.user_id t) db in
    elim (with_500 r) [
      | raised e ↦ (raised e, (db', t))
      | ok b ↦ let (r', t') = finished saved q a b t in (r', (db', t'))
    ]

-- `stop_broadcast`: with `deleted` the broadcaster has stopped the stream; the answer is the user
-- and the platform to disconnect.
unfoldable pub stop_broadcast :
    Bool → Bool → ℕ → Tracker → Outcome (Option ℕ × Option String) × Tracker
stop_broadcast deleted saved sid t =
    if deleted
    then (let (who, t') = remove_stream saved sid t in (ok who, t'))
    else (raised (http 500), t)
