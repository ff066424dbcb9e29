-- ===== src/Billing/Sync.antt =====
-- `sync_transactions_from_stripe` in app/services/payment_service.py: the paid invoices of a
-- customer are added to the transactions. A row that is added stands in front.
pub mod Idempotence
use Prim.Native.String.{◌++◌ as ◌<>◌}
use spoutbreeze_backend.Prelude.{
  ℕ, Bool, true, false, Option, none, some, List, [], ◌∷◌, String, str_eq, given, truthy, ◌==◌,
  ◌||◌, if◌then◌else◌,
}
use spoutbreeze_backend.Prelude.Session.{Action, Outcome, ok, raised, Session}
use spoutbreeze_backend.Billing.Plan.{Plan}
use spoutbreeze_backend.Billing.Store.{
  Subscription, Transaction, TransactionType, Description, Tables, has_intent, refuse,
}
use spoutbreeze_backend.Billing.Stripe.{
  Invoice, InvoiceStatus, paid, uncollectible, void, unpaid_yet,
}
use spoutbreeze_backend.Billing.Rows.{or_text, or_zero}

unfoldable pub mem_text : String → List String → Bool
mem_text k [] = false
mem_text k (x ∷ xs) = str_eq k x || mem_text k xs

-- The payment intents of a subscription's transactions, without empty ones.
unfoldable pub existing_intents : ℕ → List Transaction → List String
existing_intents k [] = []
existing_intents k (t ∷ ts) =
    let rest = existing_intents k ts in
    if t.subscription_id == k
    then if truthy t.stripe_payment_intent_id then t.stripe_payment_intent_id ∷ rest else rest
    else rest

-- `payment_intent_id or f"inv_{invoice_id}"`
unfoldable pub intent_key : Invoice → String
intent_key i =
    if given i.payment_intent then or_text i.payment_intent "" else "inv_" <> or_text i.id ""

-- The type of the transaction; drafts and open invoices have none.
unfoldable pub transaction_type : InvoiceStatus → Option TransactionType
transaction_type paid = some TransactionType.payment
transaction_type uncollectible = some TransactionType.failed
transaction_type void = some TransactionType.failed
transaction_type unpaid_yet = none

unfoldable pub describe : Plan → Option String → Description
describe p none = Description.payment_for p
describe p (some l) = if truthy l then Description.line l else Description.payment_for p

unfoldable pub imported : Subscription → Invoice → TransactionType → Transaction
imported s i t = record {
  subscription_id = s.id;
  stripe_payment_intent_id = intent_key i;
  stripe_invoice_id = some (or_text i.id "");
  amount = or_zero i.amount_paid;
  currency = or_text i.currency "usd";
  transaction_type = t;
  description = describe s.plan i.line_description;
  receipt_url = i.hosted_invoice_url;
}

-- The transaction that an invoice gives, if it has an amount and is settled.
unfoldable pub import_of : Subscription → Invoice → Option Transaction
unfolding transaction_type imported
import_of s i =
    if or_zero i.amount_paid == 0
    then none
    else elim (transaction_type i.status) [ none ↦ none | some t ↦ some (imported s i t) ]

-- The loop over the invoices: `existing` grows with every transaction that is made.
unfoldable pub import_all : Subscription → List String → List Invoice → List Transaction
import_all s existing [] = []
import_all s existing (i ∷ is) = elim (import_of s i) [
  | none ↦ import_all s existing is
  | some t ↦
      let rest = import_all s (intent_key i ∷ existing) is in
      let skip = import_all s existing is in
      if mem_text (intent_key i) existing then skip else t ∷ rest
]

-- The rows with the new ones in front, unless one repeats a payment intent.
unfoldable pub add_all : List Transaction → List Transaction → Option (List Transaction)
unfolding has_intent
add_all [] rows = some rows
add_all (t ∷ ts) rows = elim (add_all ts rows) [
  | none ↦ none
  | some r ↦ if has_intent t.stripe_payment_intent_id r then none else some (t ∷ r)
]

-- `db.add` of each new transaction, and `db.commit()` where there is one.
unfoldable pub commit_all : List Transaction → Action Tables (List Transaction)
unfolding add_all
commit_all [] s = (ok [], s)
commit_all (t ∷ ts) s = elim (add_all (t ∷ ts) s.work.transactions) [
  | none ↦ refuse s
  | some rows ↦
      let d' = record (s.work) { transactions = rows } in
      (ok (t ∷ ts), record { durable = d'; work = d' })
]

-- `sync_transactions_from_stripe`; `invoices` is the answer of Stripe.
unfoldable pub sync_transactions :
    Subscription → Option (List Invoice) → Action Tables (List Transaction)
sync_transactions s none db = (ok [], db)
sync_transactions s (some invoices) db =
    if given (some s.stripe_customer_id)
    then commit_all (import_all s (existing_intents s.id db.work.transactions) invoices) db
    else (ok [], db)
