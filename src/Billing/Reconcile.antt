-- ===== src/Billing/Reconcile.antt =====
-- `reconcile_subscription_from_stripe` of app/services/payment_service.py. What Stripe lists for
-- the customer is an input, none when the call raises.
pub mod Rows
pub mod Again
use spoutbreeze_backend.Prelude.{
  ℕ, Bool, true, false, Option, none, some, List, [], ◌∷◌, String, ◌==◌, opt_eq, truthy, str_eq,
  ◌&&◌, not, ltb, keep, if◌then◌else◌,
}
use spoutbreeze_backend.Prelude.Session.{Action, pure, ◌>>=◌, ◌>>◌}
use spoutbreeze_backend.Billing.Plan.{Status, Settings, get_plan_from_price_id}
use spoutbreeze_backend.Billing.Store.{User, Subscription, Tables, commit_subscription}
use spoutbreeze_backend.Billing.Stripe.{StripeSubscription}
use spoutbreeze_backend.Billing.Service.{get_user_subscription, get_or_create_customer}
use spoutbreeze_backend.Billing.Rows.{date_or, or_zero}
use spoutbreeze_backend.Billing.Webhook.{require, non_null}

abbrev pub status_text : Status → String
status_text Status.active = "active"
status_text Status.trialing = "trialing"
status_text Status.canceled = "canceled"
status_text Status.expired = "expired"
status_text Status.incomplete = "incomplete"
status_text Status.incomplete_expired = "incomplete_expired"
status_text Status.past_due = "past_due"
status_text Status.unpaid = "unpaid"
status_text (Status.other s) = s

-- Statuses are compared as texts.
abbrev pub same_status : Status → Status → Bool
same_status a b = str_eq (status_text a) (status_text b)

abbrev pub is_canceled : Option Status → Bool
is_canceled none = false
is_canceled (some s) = same_status s Status.canceled

-- `max(candidates, key=...)`: the first of the most recent ones.
unfoldable pub latest_of : StripeSubscription → List StripeSubscription → StripeSubscription
latest_of o [] = o
latest_of o (q ∷ qs) =
    let kept = latest_of o qs in
    let later = latest_of q qs in
    if ltb (or_zero o.created) (or_zero q.created) then later else kept

abbrev pub same_date : Option ℕ → Option ℕ → Bool
same_date none none = true
same_date none (some t) = false
same_date (some t) none = false
same_date (some t) (some q) = t == q

-- The row with what the subscription at Stripe says.
unfoldable pub reconciled_row :
    Settings → StripeSubscription → Subscription → String → Status → Subscription
reconciled_row c o s price status =
    let same = opt_eq s.stripe_price_id (some price) in
    record s {
      stripe_subscription_id = o.id;
      stripe_price_id = some price;
      plan = if same then s.plan else get_plan_from_price_id c price;
      stripe_product_id = o.product_id;
      status = status;
      current_period_start = date_or c o.current_period_start s.current_period_start;
      current_period_end = date_or c o.current_period_end s.current_period_end;
      trial_start = date_or c o.trial_start s.trial_start;
      trial_end = date_or c o.trial_end s.trial_end;
    }

-- `not changed`
unfoldable pub unchanged : Subscription → Subscription → Bool
unchanged s r =
    opt_eq s.stripe_subscription_id r.stripe_subscription_id
    && (opt_eq s.stripe_price_id r.stripe_price_id
        && (opt_eq s.stripe_product_id r.stripe_product_id
            && (same_status s.status r.status
                && (same_date s.current_period_start r.current_period_start
                    && (same_date s.current_period_end r.current_period_end
                        && (same_date s.trial_start r.trial_start
                            && same_date s.trial_end r.trial_end))))))

-- The end of the `try` block, for the most recent subscription.
unfoldable pub apply_latest :
    Settings → StripeSubscription → Subscription → Action Tables (Option Subscription)
unfolding reconciled_row unchanged non_null
apply_latest c o s = do
  price ← require o.price_id
  non_null o.status λ status.
      if unchanged s (reconciled_row c o s price status) then pure (some s) else (do
        commit_subscription (reconciled_row c o s price status)
        pure (some (reconciled_row c o s price status)))

abbrev pub apply_listed :
    Settings → Option (List StripeSubscription) → Subscription → Action Tables (Option Subscription)
apply_listed c none s = pure (some s)
apply_listed c (some os) s = elim (keep (λ o. not (is_canceled o.status)) os) [
  | [] ↦ pure (some s)
  | o ∷ qs ↦ apply_latest c (latest_of o qs) s
]

-- `if not customer_id:`
unfoldable pub with_customer : User → Option String → Subscription → Action Tables Subscription
unfolding get_or_create_customer
with_customer u created s = if truthy s.stripe_customer_id then pure s else (do
  customer ← get_or_create_customer u created
  commit_subscription (record s { stripe_customer_id = customer })
  pure (record s { stripe_customer_id = customer }))

-- `reconcile_subscription_from_stripe`
unfoldable pub reconcile_subscription :
    Settings
    → User
    → Option String
    → Option (List StripeSubscription)
    → Action Tables (Option Subscription)
unfolding get_user_subscription with_customer apply_latest latest_of
reconcile_subscription c u created listed = do
  found ← get_user_subscription u
  elim found [
    | none ↦ pure none
    | some s ↦ do r ← with_customer u created s; apply_listed c listed r
  ]
