-- ===== src/Billing/Service/Trial.antt =====
-- The free trial is given once (`create_free_subscription`, `get_user_with_subscription`).
use spoutbreeze_backend.Prelude.{
  ℕ, ◌+◌, ◌≡◌, refl, ap, true, false, Option, none, some, List, [], ◌∷◌, String, arith, keep, ◌==◌,
  ==-refl,
}
use spoutbreeze_backend.Prelude.Session.{ok, raised, Session}
use spoutbreeze_backend.Billing.Plan.{is_trial}
use spoutbreeze_backend.Billing.Store.{
  User, Subscription, Tables, one_or_none, commit_new_subscription,
}
use spoutbreeze_backend.Billing.Guard.{mark_trial_used}
use spoutbreeze_backend.Billing.Guard.Expiry.{user_by_id, used, find?-mark}
use spoutbreeze_backend.Billing.Service.{
  bad_request, trial_period, trial_subscription, get_user_subscription, get_or_create_customer,
  create_free_subscription,
}

one_or_none-none : {A : Type 0} (rows : List A) → one_or_none rows ≡ ok none → rows ≡ []
unfolding one_or_none
one_or_none-none [] h = refl
one_or_none-none (x ∷ []) h = cc
one_or_none-none (x ∷ y ∷ r) h = cc

-- The customer is found or created without a change of the database.
get_or_create_customer-pure :
    (u : User) (created : Option String) (db : Session Tables)
    → (get_or_create_customer u created db).1 ≡ db
unfolding get_or_create_customer get_user_subscription
get_or_create_customer-pure u created db = ground arith

-- What a successful creation did.
pub create_free_subscription-ok :
    (new_id now : ℕ) (u : User) (created : Option String) (db : Session Tables) {s : Subscription}
    → (create_free_subscription true new_id now u created db).0 ≡ ok s
    → let after = record (mark_trial_used u.id db.work) {
      subscriptions = s ∷ db.work.subscriptions;
    } in
      (u.has_used_free_trial ≡ false)
      × ((create_free_subscription true new_id now u created db).1
          ≡ record { durable = after; work = after })
      × (s ≡ trial_subscription new_id now u s.stripe_customer_id)
unfolding create_free_subscription commit_new_subscription mark_trial_used
create_free_subscription-ok new_id now u created db {s} h =
    ground (arith, get_or_create_customer-pure u created db)

keep-own :
    (rows : List Subscription) (s : Subscription) (u : User)
    → keep (λ t. t.user_id == u.id) rows ≡ []
    → s.user_id ≡ u.id
    → keep (λ t. t.user_id == u.id) (s ∷ rows) ≡ s ∷ []
keep-own rows s u h e = rw (e, ==-refl u.id, h)

no_row :
    (u : User) (db : Session Tables)
    → get_user_subscription u db ≡ (ok none, db)
    → keep (λ t. t.user_id == u.id) db.work.subscriptions ≡ []
unfolding get_user_subscription
no_row u db h = one_or_none-none _ (ap (λ p. p.0) h)

get_user_subscription-own :
    (u : User) (s : Subscription) (rows : List Subscription) (db : Session Tables)
    → keep (λ t. t.user_id == u.id) rows ≡ []
    → s.user_id ≡ u.id
    → db.work.subscriptions ≡ s ∷ rows
    → get_user_subscription (used u) db ≡ (ok (some s), db)
unfolding get_user_subscription one_or_none
get_user_subscription-own u s rows db h e f = rw (f, keep-own rows s u h e)

-- A user without a subscription, loaded in the session, whose free trial is created was never given
-- one before; the stored
-- subscription is in its trial, which ends fourteen days later; from then on the user's
-- subscription is that one, and a second trial is refused, at any later time and whatever Stripe
-- answers, without a change of the database.
pub create_free_subscription-once :
    (new_id now other_id later : ℕ) (u : User) (created answer : Option String)
    (db : Session Tables) {s : Subscription}
    → get_user_subscription u db ≡ (ok none, db)
    → user_by_id u.id db.work ≡ some u
    → (create_free_subscription true new_id now u created db).0 ≡ ok s
    → let db' = (create_free_subscription true new_id now u created db).1 in
      (u.has_used_free_trial ≡ false)
      × (is_trial s.status ≡ true)
      × (s.trial_end ≡ some (now + trial_period))
      × (db'.durable ≡ db'.work)
      × (user_by_id u.id db'.durable ≡ some (used u))
      × (get_user_subscription (used u) db' ≡ (ok (some s), db'))
      × (create_free_subscription true other_id later (used u) answer db'
          ≡ (raised bad_request, db'))
unfolding is_trial
create_free_subscription-once new_id now other_id later u created answer db {s} empty known h =
    let (unused, after, row) = create_free_subscription-ok new_id now u created db {s = s} h in
    (
      unused,
      ap (λ r. is_trial r.status) row,
      ap (λ r. r.trial_end) row,
      rw after,
      rw after (unfold mark_trial_used in find?-mark u.id db.work.users known),
      rw after (
          get_user_subscription-own u s db.work.subscriptions _ (no_row u db empty)
            (ap (λ r. r.user_id) row) refl),
      unfold create_free_subscription in refl,
    )
