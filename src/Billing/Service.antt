-- ===== src/Billing/Service.antt =====
-- `PaymentService` of app/services/payment_service.py, but for its webhooks: customers, checkout,
-- the free trial, cancelling.
pub mod Trial
pub mod Checkout
use spoutbreeze_backend.Prelude.{
  ℕ, ◌+◌, Bool, true, false, Option, none, some, String, str_eq, given, ◌==◌, ◌&&◌, not,
  if◌then◌else◌,
}
use spoutbreeze_backend.Prelude.Session.{
  Action, Outcome, ok, raised, Error, http, Session, pure, raise, raise_if, modify, commit, ◌>>=◌,
  ◌>>◌,
}
use spoutbreeze_backend.Billing.Plan.{Plan, Status, Settings, is_free, is_valid_price}
use spoutbreeze_backend.Billing.Store.{
  User, Subscription, Tables, select_one, one_or_none, commit_subscription, commit_new_subscription,
}
use spoutbreeze_backend.Billing.Guard.{forbidden, mark_trial_used}

abbrev pub bad_request : Error
bad_request = http 400

abbrev pub not_found : Error
not_found = http 404

abbrev pub server_error : Error
server_error = http 500

-- The answer of a call of Stripe: an error is turned into an `HTTP 500`.
abbrev pub from_stripe : {A : Type 0} → Option A → Action Tables A
from_stripe none = raise server_error
from_stripe (some a) = pure a

-- `get_user_subscription`.
unfoldable pub get_user_subscription : User → Action Tables (Option Subscription)
unfolding one_or_none
get_user_subscription u = select_one (λ d. d.subscriptions) (λ s. s.user_id == u.id)

abbrev pub customer_of : Option Subscription → Option String
customer_of none = none
customer_of (some s) = if given (some s.stripe_customer_id) then some s.stripe_customer_id else none

-- `get_or_create_customer`; `created` is the answer to `Customer.create`.
unfoldable pub get_or_create_customer : User → Option String → Action Tables String
get_or_create_customer u created = do
  s ← get_user_subscription u
  elim (customer_of s) [ none ↦ from_stripe created | some c ↦ pure c ]

-- `except HTTPException: raise` and `except Exception: rollback, HTTP 500`.
abbrev pub failing_with_500 : {A : Type 0} → Action Tables A → Action Tables A
failing_with_500 m s =
    let (r, s') = m s in
    elim r [
      | ok a ↦ (ok a, s')
      | raised (http c) ↦ (raised (http c), s')
      | raised e ↦ (raised server_error, record s' { work = s'.durable })
    ]

-- Fourteen days, in seconds.
abbrev pub trial_period : ℕ
trial_period = 1209600

abbrev pub trial_subscription : ℕ → ℕ → User → String → Subscription
trial_subscription new_id now u customer = record {
  id = new_id;
  user_id = u.id;
  stripe_customer_id = customer;
  stripe_subscription_id = none;
  stripe_price_id = none;
  stripe_product_id = none;
  plan = Plan.free;
  status = Status.trialing;
  trial_start = some now;
  trial_end = some (now + trial_period);
  current_period_start = some now;
  current_period_end = some (now + trial_period);
  cancel_at_period_end = false;
  canceled_at = none;
}

-- `create_free_subscription`; `new_id` is the id that the row gets. `attached` is whether the
-- passed user is an object of the session: one that was made from an entry of the cache is not, and
-- what is assigned to it is never stored.
unfoldable pub create_free_subscription :
    Bool → ℕ → ℕ → User → Option String → Action Tables Subscription
create_free_subscription attached new_id now u created = failing_with_500 (do
  raise_if u.has_used_free_trial bad_request
  customer ← get_or_create_customer u created
  if attached then modify (mark_trial_used u.id) else pure tt
  commit_new_subscription (trial_subscription new_id now u customer)
  pure (trial_subscription new_id now u customer))

-- `SubscriptionGuard.get_user_with_subscription`, for an authenticated user.
unfoldable pub get_user_with_subscription :
    Bool → ℕ → ℕ → User → Option String → Action Tables Subscription
get_user_with_subscription attached new_id now u created = do
  found ← get_user_subscription u
  elim found [
    | some s ↦ pure s
    | none ↦ do
      raise_if u.has_used_free_trial forbidden
      create_free_subscription attached new_id now u created
  ]

-- What `create_checkout_session` asks Stripe for.
pub record CheckoutParams : Type 0 where
  pub customer : String
  pub price : String
  pub user_id : ℕ
  pub trial_period_days : Option ℕ

-- `create_checkout_session`: the parameters of the session that is created. `session` is whether
-- Stripe creates it.
unfoldable pub create_checkout_session :
    Settings → User → String → Option String → Bool → Action Tables CheckoutParams
create_checkout_session c u price created session = do
  customer ← get_or_create_customer u created
  existing ← get_user_subscription u
  raise_if (not (is_valid_price c price)) bad_request
  raise_if (str_eq price c.stripe_free_price_id && u.has_used_free_trial) bad_request
  raise_if (not session) server_error
  pure (record {
    customer = customer;
    price = price;
    user_id = u.id;
    trial_period_days = if str_eq price c.stripe_free_price_id then some 14 else none;
  })

-- `create_customer_portal_session`: the customer whose portal is opened.
unfoldable pub create_customer_portal_session : User → Bool → Action Tables String
create_customer_portal_session u session = do
  found ← get_user_subscription u
  customer ← elim (customer_of found) [ none ↦ raise not_found | some k ↦ pure k ]
  raise_if (not session) server_error
  pure customer

-- The commit that `cancel_subscription` ends with. `modified` is whether Stripe accepts the change.
unfoldable pub cancel_at_end : Subscription → Bool → Action Tables Subscription
unfolding commit_subscription
cancel_at_end s modified =
    if given s.stripe_subscription_id
    then (do
      raise_if (not modified) server_error
      commit_subscription (record s { cancel_at_period_end = true })
      pure (record s { cancel_at_period_end = true }))
    else (do commit; pure s)

-- `cancel_subscription`.
unfoldable pub cancel_subscription : User → Bool → Action Tables Subscription
cancel_subscription u modified = do
  found ← get_user_subscription u
  s ← elim found [ none ↦ raise not_found | some s ↦ pure s ]
  raise_if (is_free s.plan) bad_request
  cancel_at_end s modified
