-- ===== src/Billing/Store.antt =====
-- The tables of app/models/payment_models.py, and the users' columns that billing reads. A row
-- that is added stands in front. Amounts are whole cents, times whole seconds; the time stamps
-- that the database fills in by itself (`created_at`, `updated_at`, `processed_at`) are left out.
use spoutbreeze_backend.Prelude.{
  ℕ, Bool, false, Option, none, some, List, [], ◌∷◌, String, str_eq, opt_eq, ◌==◌, not, ◌&&◌, ◌||◌,
  keep, update_where, if◌then◌else◌,
}
use spoutbreeze_backend.Prelude.Session.{Action, Outcome, ok, raised, integrity_error, value_error}
use spoutbreeze_backend.Billing.Plan.{Plan, Status}

pub record User : Type 0 where
  pub id : ℕ
  pub unlimited_access : Bool
  pub has_used_free_trial : Bool

pub record Subscription : Type 0 where
  pub id : ℕ
  pub user_id : ℕ
  pub stripe_customer_id : String
  pub stripe_subscription_id : Option String
  pub stripe_price_id : Option String
  pub stripe_product_id : Option String
  pub plan : Plan
  pub status : Status
  pub trial_start : Option ℕ
  pub trial_end : Option ℕ
  pub current_period_start : Option ℕ
  pub current_period_end : Option ℕ
  pub cancel_at_period_end : Bool
  pub canceled_at : Option ℕ

pub data TransactionType : Type 0 where
  payment refund failed : TransactionType

-- The texts that the code writes into `Transaction.description`.
pub data Description : Type 0 where
  payment_for failed_for : Plan → Description
  refund_for : Description → Description
  line : String → Description

pub record Transaction : Type 0 where
  pub subscription_id : ℕ
  pub stripe_payment_intent_id : String
  pub stripe_invoice_id : Option String
  pub amount : ℕ
  pub currency : String
  pub transaction_type : TransactionType
  pub description : Description
  pub receipt_url : Option String

pub record WebhookEvent : Type 0 where
  pub stripe_event_id : String
  pub event_type : String

pub record Tables : Type 0 where
  pub users : List User
  pub subscriptions : List Subscription
  pub transactions : List Transaction
  pub webhook_events : List WebhookEvent

-- `scalar_one_or_none()`: more than one row is an error.
unfoldable pub one_or_none : {A : Type 0} → List A → Outcome (Option A)
one_or_none [] = ok none
one_or_none (x ∷ []) = ok (some x)
one_or_none (x ∷ y ∷ r) = raised value_error

abbrev pub select_one : {A : Type 0} → (Tables → List A) → (A → Bool) → Action Tables (Option A)
select_one table p s = (one_or_none (keep p (table s.work)), s)

unfoldable pub has_intent : String → List Transaction → Bool
has_intent k [] = false
has_intent k (t ∷ ts) = str_eq k t.stripe_payment_intent_id || has_intent k ts

unfoldable pub has_event : String → List WebhookEvent → Bool
has_event k [] = false
has_event k (e ∷ es) = str_eq k e.stripe_event_id || has_event k es

-- Another row holds the customer or the Stripe subscription of `s`: both columns are unique, and
-- a missing Stripe subscription clashes with nothing.
unfoldable pub clashes : Subscription → Subscription → Bool
clashes s t =
    not (s.id == t.id)
    && (str_eq s.stripe_customer_id t.stripe_customer_id || elim s.stripe_subscription_id [
      | none ↦ false
      | some k ↦ opt_eq (some k) t.stripe_subscription_id
    ])

unfoldable pub clash_in : Subscription → List Subscription → Bool
unfolding clashes
clash_in s [] = false
clash_in s (t ∷ ts) = clashes s t || clash_in s ts

abbrev pub save_row : Subscription → List Subscription → List Subscription
save_row r = update_where (λ t. t.id == r.id) (λ _. r)

-- A commit that a constraint refuses: what was flushed is dropped.
abbrev pub refuse : {A : Type 0} → Action Tables A
refuse s = (raised integrity_error, record s { work = s.durable })

-- `db.commit()` after the loaded row was changed to `r`.
unfoldable pub commit_subscription : Subscription → Action Tables (Unit {0})
unfolding clash_in
commit_subscription r s =
    let d = s.work in
    let d' = record d { subscriptions = save_row r d.subscriptions } in
    if clash_in r d.subscriptions then refuse s else (ok tt, record { durable = d'; work = d' })

-- `db.add(r)` and `db.commit()`.
unfoldable pub commit_new_subscription : Subscription → Action Tables (Unit {0})
unfolding clash_in
commit_new_subscription r s =
    let d = s.work in
    let d' = record d { subscriptions = r ∷ d.subscriptions } in
    if clash_in r d.subscriptions then refuse s else (ok tt, record { durable = d'; work = d' })

-- `db.add(t)` and `db.commit()`: the payment intent is unique.
unfoldable pub commit_transaction : Transaction → Action Tables (Unit {0})
unfolding has_intent
commit_transaction t s =
    let d = s.work in
    let d' = record d { transactions = t ∷ d.transactions } in
    if has_intent t.stripe_payment_intent_id d.transactions
    then refuse s
    else (ok tt, record { durable = d'; work = d' })

-- `db.add(webhook_record)` and `db.commit()`: the event id is unique.
unfoldable pub commit_event : WebhookEvent → Action Tables (Unit {0})
unfolding has_event
commit_event e s =
    let d = s.work in
    let d' = record d { webhook_events = e ∷ d.webhook_events } in
    if has_event e.stripe_event_id d.webhook_events
    then refuse s
    else (ok tt, record { durable = d'; work = d' })
