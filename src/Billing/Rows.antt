-- ===== src/Billing/Rows.antt =====
-- The rows that the webhook handlers of app/services/payment_service.py write, from the payloads of
-- Stripe.
use Prim.Native.String.{◌++◌ as ◌<>◌}
use spoutbreeze_backend.Prelude.{
  ℕ, Bool, false, Option, none, some, String, opt_eq, given, ◌==◌, if◌then◌else◌,
}
use spoutbreeze_backend.Billing.Plan.{Status, Settings, get_plan_from_price_id}
use spoutbreeze_backend.Billing.Store.{
  User, Subscription, Transaction, TransactionType, Description,
}
use spoutbreeze_backend.Billing.Stripe.{StripeSubscription, Invoice, Charge}

-- An assignment under `if value:`.
abbrev pub date_or : Settings → Option ℕ → Option ℕ → Option ℕ
date_or c none old = old
date_or c (some t) old = if t == 0 then old else some (c.from_timestamp t)

abbrev pub or_text : Option String → String → String
or_text none d = d
or_text (some t) d = t

abbrev pub or_false : Option Bool → Bool
or_false none = false
or_false (some b) = b

-- The row of `_handle_subscription_created` for a user who has one.
abbrev pub renewed_row :
    Settings → StripeSubscription → Subscription → String → String → ℕ → ℕ → Status → Subscription
renewed_row c o s price product start end status = record s {
  stripe_subscription_id = o.id;
  stripe_price_id = some price;
  stripe_product_id = some product;
  plan = get_plan_from_price_id c price;
  status = status;
  current_period_start = some (c.from_timestamp start);
  current_period_end = some (c.from_timestamp end);
  trial_start = date_or c o.trial_start s.trial_start;
  trial_end = date_or c o.trial_end s.trial_end;
}

-- The row of a user before the dates are read. A missing status leaves the old one here; the
-- commit is then refused.
abbrev pub with_status : StripeSubscription → Subscription → Subscription
with_status o s = record s { status = elim o.status [ none ↦ s.status | some t ↦ t ] }

-- The same in `_handle_subscription_created`, with the ids of the payload.
abbrev pub linked_row :
    Settings → StripeSubscription → Subscription → String → String → Subscription
linked_row c o s price product = record (with_status o s) {
  stripe_subscription_id = o.id;
  stripe_price_id = some price;
  stripe_product_id = some product;
  plan = get_plan_from_price_id c price;
}

-- The row of `_handle_subscription_updated` before the price is read.
abbrev pub dated_row : Settings → StripeSubscription → Subscription → ℕ → ℕ → Subscription
dated_row c o s start end = record (with_status o s) {
  current_period_start = some (c.from_timestamp start);
  current_period_end = some (c.from_timestamp end);
  cancel_at_period_end = or_false o.cancel_at_period_end;
  canceled_at = date_or c o.canceled_at s.canceled_at;
}

-- The row of `_handle_subscription_created` for a user who has none.
abbrev pub created_row :
    Settings
    → ℕ
    → User
    → StripeSubscription
    → String
    → String
    → String
    → ℕ
    → ℕ
    → Status
    → Subscription
created_row c new_id u o customer price product start end status = record {
  id = new_id;
  user_id = u.id;
  stripe_customer_id = customer;
  stripe_subscription_id = o.id;
  stripe_price_id = some price;
  stripe_product_id = some product;
  plan = get_plan_from_price_id c price;
  status = status;
  trial_start = date_or c o.trial_start none;
  trial_end = date_or c o.trial_end none;
  current_period_start = some (c.from_timestamp start);
  current_period_end = some (c.from_timestamp end);
  cancel_at_period_end = false;
  canceled_at = none;
}

abbrev pub updated_row :
    Settings → StripeSubscription → Subscription → String → ℕ → ℕ → Status → Subscription
updated_row c o s price start end status =
    let same = opt_eq (some price) s.stripe_price_id in
    record s {
      status = status;
      current_period_start = some (c.from_timestamp start);
      current_period_end = some (c.from_timestamp end);
      cancel_at_period_end = or_false o.cancel_at_period_end;
      canceled_at = date_or c o.canceled_at s.canceled_at;
      stripe_price_id = some price;
      plan = if same then s.plan else get_plan_from_price_id c price;
    }

abbrev pub canceled_row : ℕ → Subscription → Subscription
canceled_row now s = record s { status = Status.canceled; canceled_at = some now }

abbrev pub paid_transaction : Invoice → Subscription → ℕ → String → Transaction
paid_transaction i s amount intent = record {
  subscription_id = s.id;
  stripe_payment_intent_id = intent;
  stripe_invoice_id = i.id;
  amount = amount;
  currency = or_text i.currency "usd";
  transaction_type = TransactionType.payment;
  description = Description.payment_for s.plan;
  receipt_url = i.hosted_invoice_url;
}

-- `payment_intent_id or f"failed_{invoice_id}"`
abbrev pub failed_key : Invoice → String
failed_key i =
    if given i.payment_intent then or_text i.payment_intent "" else "failed_" <> or_text i.id "None"

abbrev pub failed_transaction : Invoice → Subscription → ℕ → Transaction
failed_transaction i s amount = record {
  subscription_id = s.id;
  stripe_payment_intent_id = failed_key i;
  stripe_invoice_id = i.id;
  amount = amount;
  currency = or_text i.currency "usd";
  transaction_type = TransactionType.failed;
  description = Description.failed_for s.plan;
  receipt_url = none;
}

abbrev pub or_zero : Option ℕ → ℕ
or_zero none = 0
or_zero (some n) = n

abbrev pub refund_transaction : Charge → String → Transaction → Transaction
refund_transaction g intent t = record {
  subscription_id = t.subscription_id;
  stripe_payment_intent_id = "refund_" <> (intent <> ("_" <> or_text g.id ""));
  stripe_invoice_id = t.stripe_invoice_id;
  amount = or_zero g.amount_refunded;
  currency = or_text g.currency "usd";
  transaction_type = TransactionType.refund;
  description = Description.refund_for t.description;
  receipt_url = g.receipt_url;
}
