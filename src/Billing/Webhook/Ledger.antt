-- ===== src/Billing/Webhook/Ledger.antt =====
-- What the webhooks do to the records of payments and of handled events.
use spoutbreeze_backend.Prelude.{
  ℕ, ◌≡◌, ◌⊎◌, inl, inr, refl, true, false, List, [], ◌∷◌, String, Bool-cases, ◌≢◌, sym,
}
use mathlib.Core.Path.{subst}
use spoutbreeze_backend.Prelude.Session.{Outcome, ok, raised, Session, open_on, ◌>>◌}
use spoutbreeze_backend.Billing.Plan.{Settings}
use spoutbreeze_backend.Billing.Store.{
  Transaction, Tables, WebhookEvent, has_event, has_intent, commit_event,
}
use spoutbreeze_backend.Billing.Stripe.{WebhookData}
use spoutbreeze_backend.Billing.Webhook.{handle_webhook_event, dispatch, event_type}
use spoutbreeze_backend.Billing.Webhook.Books.{Grown, Grown-refl, Books, dispatch-Books}

-- No two transactions share a payment intent, and no two handled events an id.
abbrev pub UniqueIntents : List Transaction → Type 0
UniqueIntents [] = Unit
UniqueIntents (t ∷ ts) = (has_intent t.stripe_payment_intent_id ts ≡ false) × UniqueIntents ts

abbrev pub UniqueEvents : List WebhookEvent → Type 0
UniqueEvents [] = Unit
UniqueEvents (e ∷ es) = (has_event e.stripe_event_id es ≡ false) × UniqueEvents es

Grown-UniqueIntents :
    (old new : List Transaction) → Grown old new → UniqueIntents old → UniqueIntents new
Grown-UniqueIntents old [] g u = tt
Grown-UniqueIntents old (t ∷ ts) (inl e) u = subst UniqueIntents (sym e) u
Grown-UniqueIntents old (t ∷ ts) (inr (e, fresh)) u = (rw e fresh, subst UniqueIntents (sym e) u)

-- How an event is recorded: the events so far, with the event in front if it was handled.
abbrev pub Recorded :
    WebhookEvent → List WebhookEvent → Outcome (Unit {0}) → List WebhookEvent → Type 0
Recorded e old r new =
    (new ≡ old) × ((has_event e.stripe_event_id old ≡ true) ⊎ (r ≢ ok tt))
    ⊎ (new ≡ e ∷ old) × (has_event e.stripe_event_id old ≡ false) × (r ≡ ok tt)

-- What a delivery has left that began on `d`.
abbrev pub Delivered : WebhookEvent → Tables → Outcome (Unit {0}) × Session Tables → Type 0
Delivered e d (r, s) =
    ((r ≢ ok tt) ⊎ (s.work ≡ s.durable))
    × (s.durable.users ≡ d.users)
    × Grown d.transactions s.durable.transactions
    × Recorded e d.webhook_events r s.durable.webhook_events

record_after :
    (e : WebhookEvent) (d : Tables) (r : Outcome (Unit {0})) (s : Session Tables)
    → Books d s
    → has_event e.stripe_event_id d.webhook_events ≡ false
    → Delivered e d (elim r as (λ x. Outcome (Unit {0}) × Session Tables) [
      | ok _ ↦ commit_event e s
      | raised x ↦ (raised x, s)
    ])
unfolding commit_event
record_after e d (ok _) s (w, _) new =
    let clear : has_event e.stripe_event_id s.work.webhook_events ≡ false = rw w.1 new in
    rw clear (inr refl, w.0, w.2, inr (rw w.1, new, refl))
record_after e d (raised x) s (_, b) new = (inl (λ p. cc), b.0, b.2, inl (b.1, inr (λ p. cc)))

Recorded-UniqueEvents :
    (e : WebhookEvent) (old : List WebhookEvent) (r : Outcome (Unit {0})) (new : List WebhookEvent)
    → Recorded e old r new
    → UniqueEvents old
    → UniqueEvents new
Recorded-UniqueEvents e old r new (inl (same, _)) u = subst UniqueEvents (sym same) u
Recorded-UniqueEvents e old r new (inr (more, fresh, _)) u =
    subst UniqueEvents (sym more) (fresh, u)

handle_seen :
    (c : Settings) (new_id now : ℕ) (k : String) (o : WebhookData) (d : Tables)
    → has_event k d.webhook_events ≡ true
    → handle_webhook_event c new_id now k o (open_on d) ≡ (ok tt, open_on d)
unfolding handle_webhook_event
handle_seen c new_id now k o d h = rw h

handle_new :
    (c : Settings) (new_id now : ℕ) (k : String) (o : WebhookData) (d : Tables)
    → has_event k d.webhook_events ≡ false
    → handle_webhook_event c new_id now k o (open_on d)
      ≡ ◌>>◌
          (dispatch c new_id now o)
          (commit_event (record { stripe_event_id = k; event_type = event_type o }))
          (open_on d)
unfolding handle_webhook_event
handle_new c new_id now k o d h = rw h

handle_webhook_event-Delivered :
    (c : Settings) (new_id now : ℕ) (k : String) (o : WebhookData) (d : Tables)
    → Delivered
        (record { stripe_event_id = k; event_type = event_type o })
        d
        (handle_webhook_event c new_id now k o (open_on d))
handle_webhook_event-Delivered c new_id now k o d =
    elim (Bool-cases (has_event k d.webhook_events)) [
      | inl seen ↦
          rw (handle_seen c new_id now k o d seen)
            (inr refl, refl, Grown-refl d.transactions, inl (refl, inl seen))
      | inr new ↦
          let x = dispatch c new_id now o (open_on d) in
          rw (handle_new c new_id now k o d new)
            (record_after _ d x.0 x.1 (dispatch-Books c new_id now o d) new)
    ]

-- A webhook, on any outcome, leaves the stored users alone, stores one more transaction at most and
-- removes or changes none; stored payment intents and event ids stay unique. The event is recorded,
-- in front of the events so far, exactly when it is new and was handled without an exception; then
-- nothing is left pending in the session.
pub handle_webhook_event-ledger :
    (c : Settings) (new_id now : ℕ) (k : String) (o : WebhookData) (d : Tables)
    → UniqueIntents d.transactions
    → UniqueEvents d.webhook_events
    → let x = handle_webhook_event c new_id now k o (open_on d) in
      Delivered (record { stripe_event_id = k; event_type = event_type o }) d x
      × UniqueIntents x.1.durable.transactions
      × UniqueEvents x.1.durable.webhook_events
handle_webhook_event-ledger c new_id now k o d ui ue =
    let x = handle_webhook_event c new_id now k o (open_on d) in
    let h = handle_webhook_event-Delivered c new_id now k o d in
    (
      h,
      Grown-UniqueIntents d.transactions _ h.2 ui,
      Recorded-UniqueEvents _ d.webhook_events x.0 _ h.3 ue,
    )
