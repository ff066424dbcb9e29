-- ===== src/Streams/Usage.antt =====
-- `get_usage_stats` of app/services/payment_service.py, over the running streams of the tracker.
use spoutbreeze_backend.Prelude.{ℕ, Bool, ◌-◌, ◌/◌, Option, none, some, String}
use spoutbreeze_backend.Prelude.Session.{Action, pure, ◌>>=◌}
use spoutbreeze_backend.Billing.Plan.{
  Plan, Status, get_plan_limits, max_quality, max_concurrent_streams,
}
use spoutbreeze_backend.Billing.Store.{User, Tables}
use spoutbreeze_backend.Billing.Service.{get_user_with_subscription}
use spoutbreeze_backend.Streams.Tracker.{Tracker, get_active_stream_count}

pub record UsageStats : Type 0 where
  pub active_streams : ℕ
  pub max_concurrent_streams : Option ℕ
  pub current_plan : Plan
  pub plan_status : Status
  pub trial_days_remaining : Option ℕ
  pub max_quality : String

-- Whole days until then, and 0 afterwards.
abbrev days_until : ℕ → Option ℕ → Option ℕ
days_until now none = none
days_until now (some end) = some ((end - now) / 86400)

-- `get_usage_stats`; its first lines are those of `get_user_with_subscription`.
unfoldable pub get_usage_stats :
    Bool → ℕ → ℕ → User → Option String → Tracker → Action Tables UsageStats
unfolding get_user_with_subscription get_plan_limits max_quality max_concurrent_streams
    get_active_stream_count
get_usage_stats attached new_id now u created t = do
  s ← get_user_with_subscription attached new_id now u created
  pure (record {
    active_streams = get_active_stream_count u.id t;
    max_concurrent_streams = max_concurrent_streams (get_plan_limits u.unlimited_access s.plan);
    current_plan = s.plan;
    plan_status = s.status;
    trial_days_remaining = days_until now s.trial_end;
    max_quality = max_quality (get_plan_limits u.unlimited_access s.plan);
  })
