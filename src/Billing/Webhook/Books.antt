-- ===== src/Billing/Webhook/Books.antt =====
-- Every webhook handler keeps the books: the rules for its steps, and the handlers in turn.
use spoutbreeze_backend.Prelude.{
  ℕ, ◌≡◌, ◌⊎◌, inl, refl, Bool, true, false, Option, none, some, List, [], ◌∷◌, arith, find?, given,
  ◌==◌, if◌then◌else◌,
}
use spoutbreeze_backend.Prelude.Session.{Action, Outcome, ok, raised, Session, open_on, pure}
use spoutbreeze_backend.Billing.Plan.{Settings}
use spoutbreeze_backend.Billing.Store.{
  User, Subscription, Transaction, Tables, has_intent, commit_subscription, commit_new_subscription,
  commit_transaction, select_one,
}
use spoutbreeze_backend.Billing.Stripe.{StripeSubscription, Invoice, Charge, WebhookData}
use spoutbreeze_backend.Billing.Webhook.{
  Handler, dispatch, save_created, create_for_user, handle_subscription_created,
  handle_subscription_updated, handle_subscription_deleted, handle_payment_succeeded,
  handle_payment_failed, handle_charge_refunded, commit_both, require, non_null, find_subscription,
  refunded,
}

-- At most one transaction was added, in front, and no other has its payment intent.
abbrev pub Grown : List Transaction → List Transaction → Type 0
Grown old [] = old ≡ []
Grown old (t ∷ ts) =
    (t ∷ ts ≡ old) ⊎ (ts ≡ old) × (has_intent t.stripe_payment_intent_id old ≡ false)

pub Grown-refl : (ts : List Transaction) → Grown ts ts
Grown-refl [] = refl
Grown-refl (t ∷ ts) = inl refl

-- The users and the handled events are as they were, and the transactions have grown by one at
-- most.
abbrev pub Kept : Tables → Tables → Type 0
Kept d e =
    (e.users ≡ d.users)
    × (e.webhook_events ≡ d.webhook_events)
    × Grown d.transactions e.transactions

-- What a call that began on the tables `d` has left, in what is pending and in what is stored.
abbrev pub Books : Tables → Session Tables → Type 0
Books d s = Kept d s.work × Kept d s.durable

-- A session in the middle of a call: rows of subscriptions are pending.
abbrev pending : Tables → List Subscription → Session Tables
pending d rows = record { durable = d; work = record d { subscriptions = rows } }

pending-Books : (d : Tables) (rows : List Subscription) → Books d (pending d rows)
pending-Books d rows = let g = Grown-refl d.transactions in ((refl, refl, g), (refl, refl, g))

commit_subscription-Books :
    (r : Subscription) (d : Tables) (rows : List Subscription)
    → Books d (commit_subscription r (pending d rows)).1
unfolding commit_subscription
commit_subscription-Books r d rows = ground (arith, Grown-refl d.transactions)

commit_new_subscription-Books :
    (r : Subscription) (d : Tables) (rows : List Subscription)
    → Books d (commit_new_subscription r (pending d rows)).1
unfolding commit_new_subscription
commit_new_subscription-Books r d rows = ground (arith, Grown-refl d.transactions)

commit_transaction-Books :
    (t : Transaction) (d : Tables) (rows : List Subscription)
    → Books d (commit_transaction t (pending d rows)).1
unfolding commit_transaction
commit_transaction-Books t d rows = ground (arith, Grown-refl d.transactions)

commit_both-Books :
    (r : Subscription) (t : Transaction) (d : Tables) (rows : List Subscription)
    → Books d (commit_both r t (pending d rows)).1
unfolding commit_both
commit_both-Books r t d rows = ground (arith, Grown-refl d.transactions)

-- The rule for a value that is there or not, and what follows it.
require-Books :
    {A B : Type 0} (o : Option A) (d : Tables) (rows : List Subscription)
    (g : A → Outcome B × Session Tables)
    → ((a : A) → Books d (g a).1)
    → Books d
        (elim ((require o (pending d rows)).0) as (λ x. Outcome B × Session Tables) [
          | ok a ↦ g a
          | raised x ↦ (raised x, pending d rows)
        ]).1
require-Books none d rows g h = pending-Books d rows
require-Books (some a) d rows g h = h a

-- The rule for a column that is not nullable.
non_null-Books :
    {A B : Type 0} (o : Option A) (d : Tables) (rows : List Subscription) (f : A → Action Tables B)
    → ((a : A) → Books d (f a (pending d rows)).1)
    → Books d (non_null o f (pending d rows)).1
unfolding non_null
non_null-Books none d rows f h = pending-Books d d.subscriptions
non_null-Books (some a) d rows f h = h a

save_created-Books :
    (c : Settings) (new_id : ℕ) (o : StripeSubscription) (u : User) (found : Option Subscription)
    (d : Tables) (rows : List Subscription)
    → Books d (save_created c new_id o u found (pending d rows)).1
unfolding save_created
save_created-Books c new_id o u none d rows = require-Books o.price_id d rows _ λ price.
    require-Books o.product_id d rows _ λ product.
      require-Books o.current_period_start d rows _ λ start.
        require-Books o.current_period_end d rows _ λ end.
          non_null-Books o.status d rows _ λ status.
            non_null-Books o.customer d rows _ λ customer. commit_new_subscription-Books _ d rows
save_created-Books c new_id o u (some s) d rows = require-Books o.price_id d rows _ λ price.
    require-Books o.product_id d rows _ λ product.
      require-Books o.current_period_start d _ _ λ start.
        require-Books o.current_period_end d _ _
          λ end. non_null-Books o.status d _ _ λ status. commit_subscription-Books _ d _

-- The rule for a query, and for a row that may be missing.
query-Books :
    {A B : Type 0} (r : Outcome A) (d : Tables) (rows : List Subscription)
    (g : A → Outcome B × Session Tables)
    → ((a : A) → Books d (g a).1)
    → Books d
        (elim r as (λ x. Outcome B × Session Tables) [
          | ok a ↦ g a
          | raised x ↦ (raised x, pending d rows)
        ]).1
query-Books (ok a) d rows g h = h a
query-Books (raised e) d rows g h = pending-Books d rows

option-Books :
    {A : Type 0} (o : Option A) (d : Tables) (rows : List Subscription) (g : A → Handler)
    → ((a : A) → Books d (g a (pending d rows)).1)
    → Books d ((elim o as (λ x. Handler) [ none ↦ pure tt | some a ↦ g a ]) (pending d rows)).1
option-Books none d rows g h = pending-Books d rows
option-Books (some a) d rows g h = h a

if-Books :
    (b : Bool) (d : Tables) (rows : List Subscription) (m : Handler)
    → Books d (m (pending d rows)).1
    → Books d ((if b then m else pure tt) (pending d rows)).1
if-Books true d rows m h = h
if-Books false d rows m h = pending-Books d rows

handle_subscription_created-Books :
    (c : Settings) (new_id : ℕ) (o : StripeSubscription) (d : Tables)
    → Books d (handle_subscription_created c new_id o (open_on d)).1
unfolding handle_subscription_created create_for_user
handle_subscription_created-Books c new_id o d =
    let old = d.subscriptions in
    option-Books o.user_id d old _ λ uid.
      option-Books (find? (λ u. u.id == uid) d.users) d old _ λ u.
        query-Books (select_one (λ d. d.subscriptions) (λ s. s.user_id == u.id) (open_on d)).0 d old
          _ λ found. save_created-Books c new_id o u found d old

handle_subscription_updated-Books :
    (c : Settings) (o : StripeSubscription) (d : Tables)
    → Books d (handle_subscription_updated c o (open_on d)).1
unfolding handle_subscription_updated
handle_subscription_updated-Books c o d =
    let old = d.subscriptions in
    query-Books (find_subscription o.id (open_on d)).0 d old _ λ found.
      option-Books found d old _ λ s. require-Books o.current_period_start d _ _ λ start.
        require-Books o.current_period_end d _ _ λ end.
          require-Books o.price_id d _ _
            λ price. non_null-Books o.status d _ _ λ status. commit_subscription-Books _ d _

handle_subscription_deleted-Books :
    (now : ℕ) (o : StripeSubscription) (d : Tables)
    → Books d (handle_subscription_deleted now o (open_on d)).1
unfolding handle_subscription_deleted
handle_subscription_deleted-Books now o d =
    let old = d.subscriptions in
    query-Books (find_subscription o.id (open_on d)).0 d old _
      λ found. option-Books found d old _ λ s. commit_subscription-Books _ d old

handle_payment_succeeded-Books :
    (i : Invoice) (d : Tables) → Books d (handle_payment_succeeded i (open_on d)).1
unfolding handle_payment_succeeded
handle_payment_succeeded-Books i d =
    let old = d.subscriptions in
    if-Books (given i.subscription) d old _ (
      query-Books (find_subscription i.subscription (open_on d)).0 d old _ λ found.
        option-Books found d old _ λ s. require-Books i.amount_paid d old _ λ amount.
          non_null-Books i.payment_intent d old _ λ intent. commit_transaction-Books _ d old)

handle_payment_failed-Books :
    (i : Invoice) (d : Tables) → Books d (handle_payment_failed i (open_on d)).1
unfolding handle_payment_failed
handle_payment_failed-Books i d =
    let old = d.subscriptions in
    if-Books (given i.subscription) d old _ (
      query-Books (find_subscription i.subscription (open_on d)).0 d old _ λ found.
        option-Books found d old _
          λ s. require-Books i.amount_due d _ _ λ amount. commit_both-Books _ _ d _)

handle_charge_refunded-Books :
    (g : Charge) (d : Tables) → Books d (handle_charge_refunded g (open_on d)).1
unfolding handle_charge_refunded
handle_charge_refunded-Books g d =
    let old = d.subscriptions in
    if-Books (given g.payment_intent) d old _ (
      query-Books (refunded g (open_on d)).0 d old _
        λ found. option-Books found d old _ λ t. commit_transaction-Books _ d old)

pub dispatch-Books :
    (c : Settings) (new_id now : ℕ) (o : WebhookData) (d : Tables)
    → Books d (dispatch c new_id now o (open_on d)).1
unfolding dispatch
dispatch-Books c new_id now (WebhookData.checkout_completed _) d = pending-Books d d.subscriptions
dispatch-Books c new_id now (WebhookData.subscription_created o) d =
    handle_subscription_created-Books c new_id o d
dispatch-Books c new_id now (WebhookData.subscription_updated o) d =
    handle_subscription_updated-Books c o d
dispatch-Books c new_id now (WebhookData.subscription_deleted o) d =
    handle_subscription_deleted-Books now o d
dispatch-Books c new_id now (WebhookData.payment_succeeded i) d = handle_payment_succeeded-Books i d
dispatch-Books c new_id now (WebhookData.payment_failed i) d = handle_payment_failed-Books i d
dispatch-Books c new_id now (WebhookData.charge_refunded g) d = handle_charge_refunded-Books g d
dispatch-Books c new_id now (WebhookData.unhandled _) d = pending-Books d d.subscriptions
