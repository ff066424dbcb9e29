-- ===== src/Billing/Guard/Upgrade.antt =====
-- The guards of app/utils/subscription_middleware.py along the order of the plans.
use spoutbreeze_backend.Prelude.{ℕ, ◌≤◌, ◌≡◌, refl, Bool, true, false, String, arith}
use spoutbreeze_backend.Prelude.Session.{ok}
use spoutbreeze_backend.Billing.Plan.{
  Plan, get_plan_limits, max_quality, max_concurrent_streams, max_stream_duration_hours, is_free,
  is_enterprise,
}
use spoutbreeze_backend.Billing.Plan.Quality.{quality_order, quality_level}
use spoutbreeze_backend.Billing.Store.{User, Subscription}
use spoutbreeze_backend.Billing.Guard.{
  Check, check_stream_quality, check_concurrent_streams, check_stream_duration,
  check_feature_access, require_paid_plan, require_enterprise_plan, at_least, exceeds_hours,
  feature, denied,
}

-- What a route can ask of a plan, with the guard that answers.
pub data Demand : Type 0 where
  quality : String → Demand
  streams : ℕ → Demand
  duration : ℕ → Demand
  use_feature : String → Demand
  paid enterprise_only : Demand

abbrev pub check_demand : User → Subscription → Demand → Check
check_demand u s (quality q) = check_stream_quality u s q
check_demand u s (streams n) = check_concurrent_streams u s n
check_demand u s (duration secs) = check_stream_duration u s secs
check_demand u s (use_feature f) = check_feature_access u s f
check_demand u s paid = require_paid_plan u s
check_demand u s enterprise_only = require_enterprise_plan u s

-- The order of the three plans that are sold.
pub data Upgrade : Plan → Plan → Type 0 where
  free_pro : Upgrade Plan.free Plan.pro
  free_enterprise : Upgrade Plan.free Plan.enterprise
  pro_enterprise : Upgrade Plan.pro Plan.enterprise

abbrev quality_top : Bool → Plan → ℕ
quality_top b p = quality_level (max_quality (get_plan_limits b p))

quality_top_mono : (b : Bool) {p q : Plan} → Upgrade p q → quality_top b p ≤ quality_top b q
unfolding get_plan_limits max_quality quality_level quality_order
quality_top_mono true e = omega arith
quality_top_mono false free_pro = omega arith
quality_top_mono false free_enterprise = omega arith
quality_top_mono false pro_enterprise = omega arith

abbrev full : Bool → Plan → ℕ → Bool
full b p n = at_least (max_concurrent_streams (get_plan_limits b p)) n

full_mono : (b : Bool) {p q : Plan} (n : ℕ) → Upgrade p q → full b p n ≡ false → full b q n ≡ false
unfolding get_plan_limits max_concurrent_streams at_least
full_mono true n e h = refl
full_mono false n free_pro h = ground arith
full_mono false n free_enterprise h = refl
full_mono false n pro_enterprise h = refl

abbrev too_long : Bool → Plan → ℕ → Bool
too_long b p n = exceeds_hours (max_stream_duration_hours (get_plan_limits b p)) n

too_long_mono :
    (b : Bool) {p q : Plan} (n : ℕ) → Upgrade p q → too_long b p n ≡ false → too_long b q n ≡ false
unfolding get_plan_limits max_stream_duration_hours exceeds_hours
too_long_mono true n e h = refl
too_long_mono false n free_pro h = refl
too_long_mono false n free_enterprise h = refl
too_long_mono false n pro_enterprise h = refl

abbrev missing : Bool → Plan → String → Bool
missing b p f = denied (feature (get_plan_limits b p) f)

missing_mono :
    (b : Bool) {p q : Plan} (f : String)
    → Upgrade p q
    → missing b p f ≡ false
    → missing b q f ≡ false
unfolding get_plan_limits feature
missing_mono true f e h = h
missing_mono false f free_pro h = h
missing_mono false f free_enterprise h = ground arith
missing_mono false f pro_enterprise h = ground arith

is_free_mono : {p q : Plan} → Upgrade p q → is_free p ≡ false → is_free q ≡ false
unfolding is_free
is_free_mono free_pro h = refl
is_free_mono free_enterprise h = refl
is_free_mono pro_enterprise h = refl

is_enterprise_mono : {p q : Plan} → Upgrade p q → is_enterprise p ≡ true → is_enterprise q ≡ true
unfolding is_enterprise
is_enterprise_mono free_pro h = cc
is_enterprise_mono free_enterprise h = refl
is_enterprise_mono pro_enterprise h = refl

-- Whatever a guard lets a user do on a plan, it lets the same user do on every higher plan: the
-- qualities, the concurrent streams, the durations and the features, known or not, and the two
-- guards on the plan itself.
pub check_demand-Upgrade :
    (u : User) (s : Subscription) (q : Plan) (d : Demand)
    → Upgrade s.plan q
    → check_demand u s d ≡ ok tt
    → check_demand u (record s { plan = q }) d ≡ ok tt
unfolding check_stream_quality check_concurrent_streams check_stream_duration check_feature_access
    require_paid_plan require_enterprise_plan
check_demand-Upgrade u s q (quality r) e h = ground (arith, quality_top_mono u.unlimited_access e)
check_demand-Upgrade u s q (streams n) e h = ground (arith, full_mono u.unlimited_access n e)
check_demand-Upgrade u s q (duration n) e h = ground (arith, too_long_mono u.unlimited_access n e)
check_demand-Upgrade u s q (use_feature f) e h = ground (arith, missing_mono u.unlimited_access f e)
check_demand-Upgrade u s q paid e h = ground (arith, is_free_mono e)
check_demand-Upgrade u s q enterprise_only e h = ground (arith, is_enterprise_mono e)
