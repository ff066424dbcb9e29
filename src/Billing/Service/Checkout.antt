-- ===== src/Billing/Service/Checkout.antt =====
-- The trial and the price of a checkout (`create_checkout_session`), and what cancelling keeps.
use spoutbreeze_backend.Prelude.{
  ◌≡◌, ◌⊎◌, Bool, true, false, Option, none, some, String, arith, str_eq, eq_iff, truthy,
}
use spoutbreeze_backend.Prelude.Session.{ok, Session}
use spoutbreeze_backend.Billing.Plan.{
  Settings, Plan, is_valid_price, is_free, get_plan_from_price_id,
}
use spoutbreeze_backend.Billing.Store.{User, Tables}
use spoutbreeze_backend.Billing.Service.{
  CheckoutParams, get_or_create_customer, get_user_subscription, create_checkout_session,
}

-- The prices are told apart, and none of them is empty.
pub record DistinctPrices (c : Settings) : Type 0 where
  pub free_pro : str_eq c.stripe_free_price_id c.stripe_pro_price_id ≡ false
  pub free_enterprise : str_eq c.stripe_free_price_id c.stripe_enterprise_price_id ≡ false
  pub free_given : truthy c.stripe_free_price_id ≡ true

-- A checkout session that is created is for a configured price, and changes nothing in the
-- database. It carries a trial, of fourteen days, exactly when the price is that of the free plan,
-- and then the user has not used the trial; a session without a trial is for a paid plan.
pub create_checkout_session-trial :
    (c : Settings) (u : User) (price : String) (created : Option String) (session : Bool)
    (db db' : Session Tables) {p : CheckoutParams}
    → DistinctPrices c
    → create_checkout_session c u price created session db ≡ (ok p, db')
    → (db' ≡ db)
      × (p.price ≡ price)
      × (is_valid_price c price ≡ true)
      × ((p.trial_period_days ≡ some 14)
            × (get_plan_from_price_id c price ≡ Plan.free)
            × (u.has_used_free_trial ≡ false)
          ⊎ (p.trial_period_days ≡ none) × (is_free (get_plan_from_price_id c price) ≡ false))
unfolding create_checkout_session is_valid_price get_plan_from_price_id is_free
    get_or_create_customer get_user_subscription
create_checkout_session-trial c u price created session db db' d h = ground (
  arith,
  eq_iff price c.stripe_free_price_id,
  eq_iff price c.stripe_pro_price_id,
  eq_iff price c.stripe_enterprise_price_id,
)
