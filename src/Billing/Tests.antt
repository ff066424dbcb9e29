-- ===== src/Billing/Tests.antt =====
-- Runs of the billing code, and its theorems at concrete data.
use spoutbreeze_backend.Prelude.{◌+◌, ◌≡◌, refl, true, false, none, some, [], ◌∷◌, arith}
use spoutbreeze_backend.Prelude.Session.{ok, raised, open_on}
use spoutbreeze_backend.Billing.Plan.{
  Plan, Status, Settings, get_plan_from_price_id, get_plan_limits, max_quality,
  max_concurrent_streams, is_trial,
}
use spoutbreeze_backend.Billing.Plan.Quality.{quality_order, known_quality, clamp_resolution}
use spoutbreeze_backend.Billing.Store.{
  User, Subscription, TransactionType, Tables, one_or_none, clash_in, clashes,
  commit_new_subscription, commit_event, commit_subscription,
}
use spoutbreeze_backend.Billing.Guard.{
  forbidden, check_stream_quality, expired_row, mark_trial_used, require_active_subscription,
  check_concurrent_streams, at_least,
}
use spoutbreeze_backend.Billing.Guard.Quality.{check_stream_quality-clamp_resolution}
use spoutbreeze_backend.Billing.Guard.Upgrade.{
  streams, check_demand, free_pro, check_demand-Upgrade,
}
use spoutbreeze_backend.Billing.Guard.Expiry.{
  subscription_by_id, user_by_id, used, trial_end_is_final,
}
use spoutbreeze_backend.Billing.Reconcile.{
  reconcile_subscription, reconciled_row, with_customer, apply_latest, latest_of, unchanged,
}
use spoutbreeze_backend.Billing.Reconcile.Again.{reconcile_subscription-again}
use spoutbreeze_backend.Billing.Stripe.{StripeSubscription, Invoice, InvoiceStatus, WebhookData}
use spoutbreeze_backend.Billing.Service.{
  bad_request, trial_period, trial_subscription, get_user_subscription, get_or_create_customer,
  create_free_subscription,
}
use spoutbreeze_backend.Billing.Service.Trial.{create_free_subscription-once}
use spoutbreeze_backend.Billing.Webhook.{
  handle_webhook_event, dispatch, handle_payment_failed, commit_both,
}
use spoutbreeze_backend.Billing.Webhook.Once.{handle_webhook_event-once}
use spoutbreeze_backend.Billing.Webhook.Ledger.{
  UniqueIntents, UniqueEvents, Delivered, handle_webhook_event-ledger,
}
use spoutbreeze_backend.Billing.Sync.{
  sync_transactions, commit_all, import_all, import_of, imported, intent_key, mem_text,
  existing_intents,
}
use spoutbreeze_backend.Billing.Sync.Idempotence.{sync_transactions-again}

abbrev ana : User
ana = record { id = 7; unlimited_access = false; has_used_free_trial = false }

abbrev trial_row : Subscription
trial_row = trial_subscription 1 1000 ana "cus_ana"

-- A paying customer, known to Stripe.
abbrev pro_row : Subscription
pro_row = record (trial_subscription 2 0 (record ana { id = 8 }) "cus_bo") {
  stripe_subscription_id = some "sub_bo";
  plan = Plan.pro;
  status = Status.active;
}

abbrev bo : User
bo = record { id = 8; unlimited_access = false; has_used_free_trial = true }

abbrev tables : Tables
tables = record {
  users = ana ∷ bo ∷ [];
  subscriptions = trial_row ∷ pro_row ∷ [];
  transactions = [];
  webhook_events = [];
}

-- Before Ana's first request.
abbrev fresh_tables : Tables
fresh_tables = record tables { subscriptions = pro_row ∷ [] }

abbrev prices : Settings
prices = record {
  stripe_free_price_id = "price_free";
  stripe_pro_price_id = "price_pro";
  stripe_enterprise_price_id = "price_enterprise";
  from_timestamp = λ t. t;
}

abbrev invoice : Invoice
invoice = record {
  id = some "in_1";
  subscription = some "sub_bo";
  payment_intent = some "pi_1";
  amount_paid = some 6900;
  amount_due = some 6900;
  currency = none;
  status = InvoiceStatus.paid;
  line_description = none;
  hosted_invoice_url = none;
}

clamp_4k : clamp_resolution (some "4K") (max_quality (get_plan_limits false Plan.pro)) ≡ "1080p"
unfolding clamp_resolution quality_order known_quality max_quality get_plan_limits
clamp_4k = refl

check_stream_quality-clamp_resolution_example :
    check_stream_quality ana trial_row
      (clamp_resolution (some "4K") (max_quality (get_plan_limits false Plan.free)))
    ≡ ok tt
check_stream_quality-clamp_resolution_example =
    check_stream_quality-clamp_resolution ana trial_row (some "4K")

check_demand-Upgrade_example :
    check_demand ana (record trial_row { plan = Plan.pro }) (streams 0) ≡ ok tt
unfolding check_concurrent_streams at_least get_plan_limits max_concurrent_streams
check_demand-Upgrade_example = check_demand-Upgrade ana trial_row Plan.pro (streams 0) free_pro refl

trial_end_is_final_example :
    let (r, db') = require_active_subscription 1210601 ana trial_row (open_on tables) in
    (r ≡ raised forbidden)
    × (subscription_by_id 1 db'.durable ≡ some (expired_row trial_row))
    × (user_by_id 7 db'.durable ≡ some (used ana))
    × (require_active_subscription 9999999 (used ana) (expired_row trial_row) db'
        ≡ (raised forbidden, db'))
unfolding is_trial
trial_end_is_final_example =
    trial_end_is_final 1210601 9999999 ana trial_row (open_on tables) refl refl refl (omega arith)
      refl refl

create_free_subscription-once_example :
    let db' =
      (create_free_subscription true 1 1000 ana (some "cus_ana") (open_on fresh_tables)).1 in
    (false ≡ false)
    × (is_trial Status.trialing ≡ true)
    × (some (1000 + trial_period) ≡ some (1000 + trial_period))
    × (db'.durable ≡ db'.work)
    × (user_by_id 7 db'.durable ≡ some (used ana))
    × (get_user_subscription (used ana) db' ≡ (ok (some trial_row), db'))
    × (create_free_subscription true 3 2000 (used ana) none db' ≡ (raised bad_request, db'))
unfolding create_free_subscription get_user_subscription get_or_create_customer
    commit_new_subscription clashes mark_trial_used
create_free_subscription-once_example =
    create_free_subscription-once 1 1000 3 2000 ana (some "cus_ana") none (open_on fresh_tables)
      {s = trial_row} refl refl refl

handle_webhook_event-once_example :
    let db' =
      (handle_webhook_event prices 9 0 "evt_1"
        (WebhookData.payment_failed invoice)
        (open_on tables)).1 in
    handle_webhook_event prices 10 5 "evt_1" (WebhookData.payment_succeeded invoice) db'
    ≡ (ok tt, db')
unfolding handle_webhook_event dispatch handle_payment_failed commit_both commit_event
handle_webhook_event-once_example =
    handle_webhook_event-once prices 9 0 10 5 "evt_1" (WebhookData.payment_failed invoice)
      (WebhookData.payment_succeeded invoice) (open_on tables) refl

handle_webhook_event-ledger_example :
    let x =
      handle_webhook_event prices 9 0 "evt_2"
        (WebhookData.payment_succeeded invoice)
        (open_on tables) in
    Delivered
      (record { stripe_event_id = "evt_2"; event_type = "invoice.payment_succeeded" })
      tables
      x
    × UniqueIntents x.1.durable.transactions
    × UniqueEvents x.1.durable.webhook_events
handle_webhook_event-ledger_example =
    handle_webhook_event-ledger prices 9 0 "evt_2" (WebhookData.payment_succeeded invoice) tables tt
      tt

sync_transactions-again_example :
    let db' = (sync_transactions pro_row (some (invoice ∷ [])) (open_on tables)).1 in
    sync_transactions pro_row (some (invoice ∷ [])) db' ≡ (ok [], db')
unfolding sync_transactions import_all import_of intent_key mem_text commit_all existing_intents
sync_transactions-again_example =
    let x = sync_transactions pro_row (some (invoice ∷ [])) (open_on tables) in
    sync_transactions-again pro_row (invoice ∷ []) (open_on tables) x.1
      {made = imported pro_row invoice TransactionType.payment ∷ []} refl

-- Stripe lists a subscription to the Pro plan of Ana.
abbrev bought : StripeSubscription
bought = record {
  id = some "sub_ana";
  customer = some "cus_ana";
  user_id = some 7;
  price_id = some "price_pro";
  product_id = some "prod_pro";
  status = some Status.active;
  created = some 5000;
  current_period_start = some 5000;
  current_period_end = some 7000;
  trial_start = none;
  trial_end = none;
  cancel_at_period_end = some false;
  canceled_at = none;
}

abbrev bought_row : Subscription
bought_row = record trial_row {
  stripe_subscription_id = some "sub_ana";
  stripe_price_id = some "price_pro";
  plan = Plan.pro;
  stripe_product_id = some "prod_pro";
  status = Status.active;
  current_period_start = some 5000;
  current_period_end = some 7000;
}

reconcile_subscription-again_example :
    let s' = (reconcile_subscription prices ana none (some (bought ∷ [])) (open_on tables)).1 in
    reconcile_subscription prices ana none (some (bought ∷ [])) s' ≡ (ok (some bought_row), s')
unfolding reconcile_subscription get_user_subscription with_customer apply_latest latest_of
    reconciled_row get_plan_from_price_id commit_subscription clash_in clashes one_or_none unchanged
reconcile_subscription-again_example =
    reconcile_subscription-again prices ana none none (some (bought ∷ [])) tables bought_row
      (reconcile_subscription prices ana none (some (bought ∷ [])) (open_on tables)).1
      (refl, (refl, tt)) (λ k h. ground (arith, h)) refl
