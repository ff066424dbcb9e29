-- ===== src/Billing/Webhook.antt =====
-- The Stripe webhooks: `handle_webhook_event` and its handlers in app/services/payment_service.py.
-- Where a handler raises half way through its assignments, those made so far are left pending in
-- the working tables, as nothing rolls back; only a missing status is not put into the pending row.
pub mod Once
pub mod Books
pub mod Ledger
use Prim.Native.String.{◌++◌ as ◌<>◌}
use spoutbreeze_backend.Prelude.{
  ℕ, Bool, true, false, Option, none, some, List, String, str_eq, opt_eq, given, ◌==◌, find?,
  if◌then◌else◌,
}
use spoutbreeze_backend.Prelude.Session.{
  Action, Outcome, ok, raised, Error, value_error, integrity_error, Session, pure, raise, gets,
  modify, ◌>>=◌, ◌>>◌,
}
use spoutbreeze_backend.Billing.Plan.{Plan, Status, Settings, get_plan_from_price_id}
use spoutbreeze_backend.Billing.Store.{
  User, Subscription, Transaction, TransactionType, Description, WebhookEvent, Tables, select_one,
  one_or_none, has_event, refuse, save_row, commit_subscription, commit_new_subscription,
  commit_transaction, commit_event,
}
use spoutbreeze_backend.Billing.Stripe.{StripeSubscription, Invoice, Charge, WebhookData}
use spoutbreeze_backend.Billing.Rows.{
  canceled_row, created_row, date_or, failed_key, failed_transaction, or_false, or_text, or_zero,
  paid_transaction, refund_transaction, renewed_row, updated_row, linked_row, with_status,
  dated_row,
}

abbrev pub Handler : Type 0
Handler = Action Tables (Unit {0})

-- A value, or an exception; the session stays as it is.
abbrev pub or_raise : {A : Type 0} → Option A → Error → Action Tables A
or_raise o e s = (elim o [ none ↦ raised e | some a ↦ ok a ], s)

-- A key or a value that must be there: a `KeyError` or a `TypeError` without it.
abbrev pub require : {A : Type 0} → Option A → Action Tables A
require o = or_raise o value_error

-- A value of a column that is not nullable, and the commit, which is refused without it.
unfoldable pub non_null : {A B : Type 0} → Option A → (A → Action Tables B) → Action Tables B
non_null o f s = elim o [ none ↦ refuse s | some a ↦ f a s ]

-- Assignments to a loaded row, before any commit.
abbrev pub set_row : Subscription → Handler
set_row r = modify (λ d. record d { subscriptions = save_row r d.subscriptions })

abbrev find_subscription : Option String → Action Tables (Option Subscription)
find_subscription k = select_one (λ d. d.subscriptions) (λ s. opt_eq s.stripe_subscription_id k)

unfoldable pub save_created :
    Settings → ℕ → StripeSubscription → User → Option Subscription → Handler
save_created c new_id o u found = do
  price ← require o.price_id
  product ← require o.product_id
  elim found [
    | some s ↦ do
      set_row (linked_row c o s price product)
      start ← require o.current_period_start
      set_row (record (linked_row c o s price product) {
        current_period_start = some (c.from_timestamp start);
      })
      end ← require o.current_period_end
      non_null o.status
          (λ status. commit_subscription (renewed_row c o s price product start end status))
    | none ↦ do
      start ← require o.current_period_start
      end ← require o.current_period_end
      non_null o.status λ status. non_null o.customer λ customer.
          commit_new_subscription (created_row c new_id u o customer price product start end status)
  ]

-- `_handle_subscription_created` once the metadata has given a user id.
unfoldable pub create_for_user : Settings → ℕ → StripeSubscription → ℕ → Handler
unfolding one_or_none
create_for_user c new_id o uid = do
  user ← gets (λ d. find? (λ u. u.id == uid) d.users)
  elim user [
    | none ↦ pure tt
    | some u ↦ do
      found ← select_one (λ d. d.subscriptions) (λ s. s.user_id == u.id)
      save_created c new_id o u found
  ]

-- `_handle_subscription_created`.
unfoldable pub handle_subscription_created : Settings → ℕ → StripeSubscription → Handler
handle_subscription_created c new_id o = elim o.user_id [
  | none ↦ pure tt
  | some uid ↦ create_for_user c new_id o uid
]

-- `_handle_subscription_updated`.
unfoldable pub handle_subscription_updated : Settings → StripeSubscription → Handler
unfolding one_or_none
handle_subscription_updated c o = do
  found ← find_subscription o.id
  elim found [
    | none ↦ pure tt
    | some s ↦ do
      set_row (with_status o s)
      start ← require o.current_period_start
      set_row (record (with_status o s) { current_period_start = some (c.from_timestamp start) })
      end ← require o.current_period_end
      set_row (dated_row c o s start end)
      price ← require o.price_id
      non_null o.status (λ status. commit_subscription (updated_row c o s price start end status))
  ]

-- `_handle_subscription_deleted`.
unfoldable pub handle_subscription_deleted : ℕ → StripeSubscription → Handler
unfolding one_or_none
handle_subscription_deleted now o = do
  found ← find_subscription o.id
  elim found [ none ↦ pure tt | some s ↦ commit_subscription (canceled_row now s) ]

-- `_handle_payment_succeeded`.
unfoldable pub handle_payment_succeeded : Invoice → Handler
unfolding one_or_none
handle_payment_succeeded i =
    if given i.subscription
    then (do
      found ← find_subscription i.subscription
      elim found [
        | none ↦ pure tt
        | some s ↦ do
          amount ← require i.amount_paid
          non_null i.payment_intent
              (λ intent. commit_transaction (paid_transaction i s amount intent))
      ])
    else pure tt

-- `db.commit()` after the row was changed and a transaction was added: both, or nothing.
unfoldable pub commit_both : Subscription → Transaction → Handler
unfolding commit_subscription commit_transaction
commit_both r t s =
    let (o, s') = commit_subscription r s in
    elim o [
      | raised e ↦ (raised e, s')
      | ok _ ↦
          let (o', s'') = commit_transaction t s' in
          elim o' [ ok _ ↦ (ok tt, s'') | raised e ↦ (raised e, record s { work = s.durable }) ]
    ]

-- `_handle_payment_failed`.
unfoldable pub handle_payment_failed : Invoice → Handler
unfolding one_or_none
handle_payment_failed i =
    if given i.subscription
    then (do
      found ← find_subscription i.subscription
      elim found [
        | none ↦ pure tt
        | some s ↦ do
          set_row (record s { status = Status.past_due })
          amount ← require i.amount_due
          commit_both (record s { status = Status.past_due }) (failed_transaction i s amount)
      ])
    else pure tt

abbrev refunded : Charge → Action Tables (Option Transaction)
refunded g =
    select_one (λ d. d.transactions)
      (λ t. str_eq t.stripe_payment_intent_id (or_text g.payment_intent ""))

-- `_handle_charge_refunded`.
unfoldable pub handle_charge_refunded : Charge → Handler
unfolding one_or_none
handle_charge_refunded g =
    if given g.payment_intent
    then (do
      found ← refunded g
      elim found [
        | none ↦ pure tt
        | some t ↦ commit_transaction (refund_transaction g (or_text g.payment_intent "") t)
      ])
    else pure tt

abbrev pub event_type : WebhookData → String
event_type (WebhookData.checkout_completed _) = "checkout.session.completed"
event_type (WebhookData.subscription_created _) = "customer.subscription.created"
event_type (WebhookData.subscription_updated _) = "customer.subscription.updated"
event_type (WebhookData.subscription_deleted _) = "customer.subscription.deleted"
event_type (WebhookData.payment_succeeded _) = "invoice.payment_succeeded"
event_type (WebhookData.payment_failed _) = "invoice.payment_failed"
event_type (WebhookData.charge_refunded _) = "charge.refunded"
event_type (WebhookData.unhandled t) = t

-- The dispatch on the event type. `_handle_checkout_completed` only writes to the log.
unfoldable pub dispatch : Settings → ℕ → ℕ → WebhookData → Handler
dispatch c new_id now (WebhookData.checkout_completed _) = pure tt
dispatch c new_id now (WebhookData.subscription_created o) = handle_subscription_created c new_id o
dispatch c new_id now (WebhookData.subscription_updated o) = handle_subscription_updated c o
dispatch c new_id now (WebhookData.subscription_deleted o) = handle_subscription_deleted now o
dispatch c new_id now (WebhookData.payment_succeeded i) = handle_payment_succeeded i
dispatch c new_id now (WebhookData.payment_failed i) = handle_payment_failed i
dispatch c new_id now (WebhookData.charge_refunded g) = handle_charge_refunded g
dispatch c new_id now (WebhookData.unhandled _) = pure tt

-- `handle_webhook_event`.
unfoldable pub handle_webhook_event : Settings → ℕ → ℕ → String → WebhookData → Handler
unfolding has_event
handle_webhook_event c new_id now event_id o = do
  seen ← gets (λ d. has_event event_id d.webhook_events)
  if seen then pure tt else (do
    dispatch c new_id now o
    commit_event (record { stripe_event_id = event_id; event_type = event_type o }))
