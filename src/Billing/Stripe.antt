-- ===== src/Billing/Stripe.antt =====
-- The objects of the Stripe API that app/services/payment_service.py reads. They are inputs of the
-- model: a key that may be missing is an `Option`, and so is a call that may raise `StripeError`.
use spoutbreeze_backend.Prelude.{ℕ, Bool, Option, String}
use spoutbreeze_backend.Billing.Plan.{Status}

pub record StripeSubscription : Type 0 where
  pub id : Option String
  pub customer : Option String
  -- `metadata.user_id`
  pub user_id : Option ℕ
  -- `items.data[0].price.id` and `.product`
  pub price_id : Option String
  pub product_id : Option String
  pub status : Option Status
  pub created : Option ℕ
  pub current_period_start : Option ℕ
  pub current_period_end : Option ℕ
  pub trial_start : Option ℕ
  pub trial_end : Option ℕ
  pub cancel_at_period_end : Option Bool
  pub canceled_at : Option ℕ

pub data InvoiceStatus : Type 0 where
  paid uncollectible void unpaid_yet : InvoiceStatus

-- `line_description` is that of the first line item.
pub record Invoice : Type 0 where
  pub id : Option String
  pub subscription : Option String
  pub payment_intent : Option String
  pub amount_paid : Option ℕ
  pub amount_due : Option ℕ
  pub currency : Option String
  pub status : InvoiceStatus
  pub line_description : Option String
  pub hosted_invoice_url : Option String

pub record Charge : Type 0 where
  pub id : Option String
  pub payment_intent : Option String
  pub amount_refunded : Option ℕ
  pub currency : Option String
  pub receipt_url : Option String

-- The webhook's event type with the `object` of its data. `checkout_completed` carries the user id
-- of the metadata, `unhandled` its type.
pub data WebhookData : Type 0 where
  checkout_completed : Option ℕ → WebhookData
  subscription_created subscription_updated subscription_deleted : StripeSubscription → WebhookData
  payment_succeeded payment_failed : Invoice → WebhookData
  charge_refunded : Charge → WebhookData
  unhandled : String → WebhookData
