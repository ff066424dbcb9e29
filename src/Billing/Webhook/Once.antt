-- ===== src/Billing/Webhook/Once.antt =====
-- An event is handled once (`handle_webhook_event`).
use text.Mathlib.TextPositions.{eq_refl}
use spoutbreeze_backend.Prelude.{ℕ, ◌≡◌, true, String, arith}
use spoutbreeze_backend.Prelude.Session.{ok, Session}
use spoutbreeze_backend.Billing.Plan.{Settings}
use spoutbreeze_backend.Billing.Store.{Tables, WebhookEvent, has_event, commit_event}
use spoutbreeze_backend.Billing.Stripe.{WebhookData}
use spoutbreeze_backend.Billing.Webhook.{handle_webhook_event, dispatch, event_type}

commit_event-recorded :
    (e : WebhookEvent) (db : Session Tables)
    → (commit_event e db).0 ≡ ok tt
    → has_event e.stripe_event_id (commit_event e db).1.work.webhook_events ≡ true
unfolding commit_event
commit_event-recorded e db h = ground (arith, eq_refl e.stripe_event_id)

recorded :
    (c : Settings) (new_id now : ℕ) (k : String) (o : WebhookData) (db : Session Tables)
    → (handle_webhook_event c new_id now k o db).0 ≡ ok tt
    → has_event k (handle_webhook_event c new_id now k o db).1.work.webhook_events ≡ true
unfolding handle_webhook_event
recorded c new_id now k o db h = ground (
  arith,
  commit_event-recorded (record { stripe_event_id = k; event_type = event_type o })
      (dispatch c new_id now o db).1,
)

-- Once an event has been handled without an exception, a second delivery under the same event id
-- succeeds and changes nothing, whatever it carries, whenever it comes.
pub handle_webhook_event-once :
    (c : Settings) (new_id now other_id later : ℕ) (k : String) (o o' : WebhookData)
    (db : Session Tables)
    → (handle_webhook_event c new_id now k o db).0 ≡ ok tt
    → let db' = (handle_webhook_event c new_id now k o db).1 in
      handle_webhook_event c other_id later k o' db' ≡ (ok tt, db')
unfolding handle_webhook_event
handle_webhook_event-once c new_id now other_id later k o o' db h =
    ground (arith, recorded c new_id now k o db h)
