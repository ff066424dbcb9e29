-- ===== src/Billing/Guard.antt =====
-- `SubscriptionGuard` and the route dependencies of app/utils/subscription_middleware.py.
pub mod Quality
pub mod Upgrade
pub mod Expiry
use spoutbreeze_backend.Prelude.{
  ℕ, ◌*◌, Bool, true, false, Option, none, some, String, str_eq, ltb, leb, ◌==◌, ◌&&◌, not,
  update_where, if◌then◌else◌,
}
use spoutbreeze_backend.Prelude.Session.{
  Action, Outcome, ok, raised, Error, http, raise, raise_if, modify, commit, ◌>>◌,
}
use spoutbreeze_backend.Billing.Plan.{
  Limits, Status, get_plan_limits, max_quality, max_concurrent_streams, max_stream_duration_hours,
  is_active, is_trial, is_expired, is_free, is_enterprise,
}
use spoutbreeze_backend.Billing.Plan.Quality.{quality_level}
use spoutbreeze_backend.Billing.Store.{User, Subscription, Tables, save_row}

abbrev pub forbidden : Error
forbidden = http 403

-- A check that reads only the rows: `HTTP 403` or nothing.
abbrev pub Check : Type 0
Check = Outcome (Unit {0})

abbrev pub refuse_if : Bool → Check
refuse_if b = if b then raised forbidden else ok tt

unfoldable pub check_subscription_active : User → Subscription → Check
unfolding is_active
check_subscription_active u s = refuse_if (not u.unlimited_access && not (is_active s.status))

-- The row that an expired trial is changed to, and its user's.
abbrev pub expired_row : Subscription → Subscription
expired_row s = record s { status = Status.expired }

unfoldable pub mark_trial_used : ℕ → Tables → Tables
mark_trial_used uid d = record d {
  users = update_where (λ u. u.id == uid) (λ u. record u { has_used_free_trial = true }) d.users;
}

-- `utcnow() > subscription.trial_end`, for a subscription in its trial.
unfoldable pub trial_is_over : ℕ → Subscription → Bool
unfolding is_trial
trial_is_over now s =
    is_trial s.status && elim s.trial_end [ none ↦ false | some end ↦ ltb end now ]

-- `check_trial_expired` with a database session, as the dependencies call it.
unfoldable pub check_trial_expired : ℕ → User → Subscription → Action Tables (Unit {0})
unfolding trial_is_over is_expired mark_trial_used
check_trial_expired now u s db =
    if u.unlimited_access
    then (ok tt, db)
    else if trial_is_over now s
    then (do
      modify (λ d.
          mark_trial_used u.id
            (record d { subscriptions = save_row (expired_row s) d.subscriptions }))
      commit
      raise forbidden)
        db
    else raise_if (is_expired s.status) forbidden db

unfoldable pub check_stream_quality : User → Subscription → String → Check
check_stream_quality u s requested =
    let top = max_quality (get_plan_limits u.unlimited_access s.plan) in
    refuse_if (not u.unlimited_access && ltb (quality_level top) (quality_level requested))

unfoldable pub at_least : Option ℕ → ℕ → Bool
at_least none n = false
at_least (some m) n = leb m n

unfoldable pub check_concurrent_streams : User → Subscription → ℕ → Check
check_concurrent_streams u s count =
    let top = max_concurrent_streams (get_plan_limits u.unlimited_access s.plan) in
    refuse_if (not u.unlimited_access && at_least top count)

-- A duration in seconds exceeds a limit in hours.
unfoldable pub exceeds_hours : Option ℕ → ℕ → Bool
exceeds_hours none secs = false
exceeds_hours (some h) secs = ltb (h * 3600) secs

unfoldable pub check_stream_duration : User → Subscription → ℕ → Check
check_stream_duration u s secs =
    let top = max_stream_duration_hours (get_plan_limits u.unlimited_access s.plan) in
    refuse_if (not u.unlimited_access && exceeds_hours top secs)

-- `limits.get(feature_map[feature], False)`; `none` is an unknown feature, which is let through.
unfoldable pub feature : Option Limits → String → Option Bool
feature none f =
    if str_eq f "chat_filter"
    then some false
    else if str_eq f "oauth"
    then some false
    else if str_eq f "analytics"
    then some false
    else none
feature (some l) f =
    if str_eq f "chat_filter"
    then some l.chat_filter
    else if str_eq f "oauth"
    then some l.oauth_enabled
    else if str_eq f "analytics"
    then some l.analytics_enabled
    else none

abbrev pub denied : Option Bool → Bool
denied none = false
denied (some granted) = not granted

unfoldable pub check_feature_access : User → Subscription → String → Check
check_feature_access u s f =
    refuse_if
      (not u.unlimited_access && denied (feature (get_plan_limits u.unlimited_access s.plan) f))

unfoldable pub require_paid_plan : User → Subscription → Check
require_paid_plan u s = refuse_if (not u.unlimited_access && is_free s.plan)

unfoldable pub require_enterprise_plan : User → Subscription → Check
require_enterprise_plan u s = refuse_if (not u.unlimited_access && not (is_enterprise s.plan))

-- A check on the rows, run in a session.
abbrev pub run_check : Check → Action Tables (Unit {0})
run_check c s = (c, s)

-- The dependencies, once `get_user_with_subscription` has given the user and the subscription.
unfoldable pub require_active_subscription : ℕ → User → Subscription → Action Tables (Unit {0})
unfolding check_subscription_active check_trial_expired
require_active_subscription now u s = do
  run_check (check_subscription_active u s)
  check_trial_expired now u s

unfoldable pub require_paid_subscription : ℕ → User → Subscription → Action Tables (Unit {0})
unfolding check_subscription_active check_trial_expired require_paid_plan
require_paid_subscription now u s = do
  run_check (check_subscription_active u s)
  check_trial_expired now u s
  run_check (require_paid_plan u s)

unfoldable pub require_enterprise_subscription : ℕ → User → Subscription → Action Tables (Unit {0})
unfolding check_subscription_active check_trial_expired require_enterprise_plan
require_enterprise_subscription now u s = do
  run_check (check_subscription_active u s)
  check_trial_expired now u s
  run_check (require_enterprise_plan u s)
