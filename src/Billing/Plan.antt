-- ===== src/Billing/Plan.antt =====
-- Plans, statuses and plan limits (app/models/payment_models.py), the price table of
-- app/services/payment_service.py, and the quality tables of app/utils/subscription_middleware.py
-- and app/services/broadcaster_service.py. A column holds one of the texts that the enumerations
-- list, or another text, which `other` keeps.
pub mod Quality
use spoutbreeze_backend.Prelude.{
  ℕ, Bool, true, false, Option, none, some, String, str_eq, truthy, if◌then◌else◌,
}

pub data Plan : Type 0 where
  free pro enterprise : Plan
  other : String → Plan

pub data Status : Type 0 where
  active trialing canceled expired incomplete incomplete_expired past_due unpaid : Status
  other : String → Status

-- One row of `PLAN_LIMITS`. `none` is Python's `None`: no limit.
pub record Limits : Type 0 where
  pub max_quality : String
  pub max_concurrent_streams : Option ℕ
  pub max_stream_duration_hours : Option ℕ
  pub support_response_hours : ℕ
  pub chat_support : Bool
  pub chat_filter : Bool
  pub oauth_enabled : Bool
  pub analytics_enabled : Bool

abbrev pub unlimited_limits : Limits
unlimited_limits = record {
  max_quality = "4K";
  max_concurrent_streams = none;
  max_stream_duration_hours = none;
  support_response_hours = 0;
  chat_support = true;
  chat_filter = true;
  oauth_enabled = true;
  analytics_enabled = true;
}

abbrev pub free_limits : Limits
free_limits = record {
  max_quality = "720p";
  max_concurrent_streams = some 1;
  max_stream_duration_hours = some 1;
  support_response_hours = 72;
  chat_support = false;
  chat_filter = false;
  oauth_enabled = false;
  analytics_enabled = false;
}

abbrev pub pro_limits : Limits
pro_limits = record {
  max_quality = "1080p";
  max_concurrent_streams = some 10;
  max_stream_duration_hours = none;
  support_response_hours = 24;
  chat_support = true;
  chat_filter = false;
  oauth_enabled = false;
  analytics_enabled = false;
}

-- `PLAN_LIMITS.get(plan, {})`: an unknown plan has the empty dictionary, `none`.
unfoldable pub plan_limits : Plan → Option Limits
plan_limits Plan.free = some free_limits
plan_limits Plan.pro = some pro_limits
plan_limits Plan.enterprise = some unlimited_limits
plan_limits (Plan.other _) = none

-- `Subscription.get_plan_limits`, given the user's `unlimited_access`.
unfoldable pub get_plan_limits : Bool → Plan → Option Limits
unfolding plan_limits
get_plan_limits unlimited plan = if unlimited then some unlimited_limits else plan_limits plan

-- `limits.get("max_quality", "720p")` and the other reads of the limits.
unfoldable pub max_quality : Option Limits → String
max_quality none = "720p"
max_quality (some l) = l.max_quality

unfoldable pub max_concurrent_streams : Option Limits → Option ℕ
max_concurrent_streams none = none
max_concurrent_streams (some l) = l.max_concurrent_streams

unfoldable pub max_stream_duration_hours : Option Limits → Option ℕ
max_stream_duration_hours none = none
max_stream_duration_hours (some l) = l.max_stream_duration_hours

-- `Subscription.is_active` and `Subscription.is_trial`.
unfoldable pub is_active : Status → Bool
is_active Status.active = true
is_active Status.trialing = true
is_active _ = false

unfoldable pub is_trial : Status → Bool
is_trial Status.trialing = true
is_trial _ = false

unfoldable pub is_expired : Status → Bool
is_expired Status.expired = true
is_expired _ = false

unfoldable pub is_free : Plan → Bool
is_free Plan.free = true
is_free _ = false

unfoldable pub is_enterprise : Plan → Bool
is_enterprise Plan.enterprise = true
is_enterprise _ = false

-- The configured Stripe prices (app/config/settings.py), and the library's conversion of a
-- timestamp to a naive local time.
pub record Settings : Type 0 where
  pub stripe_free_price_id : String
  pub stripe_pro_price_id : String
  pub stripe_enterprise_price_id : String
  pub from_timestamp : ℕ → ℕ

-- `PaymentService._get_plan_from_price_id`.
unfoldable pub get_plan_from_price_id : Settings → String → Plan
get_plan_from_price_id c price =
    if str_eq price c.stripe_pro_price_id
    then Plan.pro
    else if str_eq price c.stripe_enterprise_price_id
    then Plan.enterprise
    else Plan.free

-- `price_id in valid_price_ids`, the configured prices without the empty ones.
unfoldable pub is_valid_price : Settings → String → Bool
is_valid_price c price =
    if truthy price
    then if str_eq price c.stripe_free_price_id
      then true
      else if str_eq price c.stripe_pro_price_id
      then true
      else str_eq price c.stripe_enterprise_price_id
    else false
