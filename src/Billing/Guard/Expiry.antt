-- ===== src/Billing/Guard/Expiry.antt =====
-- The end of the free trial (`check_trial_expired`, and the dependencies that call it).
use spoutbreeze_backend.Prelude.{
  ℕ, ◌≤◌, ◌<◌, ◌≡◌, refl, true, false, Option, some, List, [], ◌∷◌, arith, ◌==◌, find?,
  update_where, inl, inr, Bool-cases, ==-refl,
}
use spoutbreeze_backend.Prelude.Session.{ok, raised, Session}
use spoutbreeze_backend.Billing.Plan.{Plan, is_free, is_enterprise, is_trial}
use spoutbreeze_backend.Billing.Store.{User, Subscription, Tables, save_row}
use spoutbreeze_backend.Billing.Guard.{
  forbidden, expired_row, mark_trial_used, require_active_subscription, require_paid_subscription,
  require_enterprise_subscription,
}

-- The row and the user that a later request loads.
abbrev pub subscription_by_id : ℕ → Tables → Option Subscription
subscription_by_id k d = find? (λ t. t.id == k) d.subscriptions

abbrev pub user_by_id : ℕ → Tables → Option User
user_by_id k d = find? (λ u. u.id == k) d.users

find?-save_row :
    (r : Subscription) (rows : List Subscription) {old : Subscription}
    → find? (λ t. t.id == r.id) rows ≡ some old
    → find? (λ t. t.id == r.id) (save_row r rows) ≡ some r
find?-save_row r [] h = cc
find?-save_row r (t ∷ rows) {old} h = elim (Bool-cases (t.id == r.id)) [
  | inl e ↦ rw e (rw (==-refl r.id))
  | inr e ↦ rw (e, e) (find?-save_row r rows {old = old} (rw e at h))
]

abbrev pub used : User → User
used u = record u { has_used_free_trial = true }

pub find?-mark :
    (k : ℕ) (rows : List User) {u : User}
    → find? (λ u. u.id == k) rows ≡ some u
    → find? (λ u. u.id == k) (update_where (λ u. u.id == k) used rows) ≡ some (used u)
find?-mark k [] h = cc
find?-mark k (v ∷ rows) {u} h = ground (arith, find?-mark k rows {u = u})

-- In its trial a subscription is let through up to the end of the trial, that moment included, and
-- the request changes nothing.
pub require_active_subscription-in_trial :
    (now : ℕ) (u : User) (s : Subscription) {end : ℕ} (db : Session Tables)
    → is_trial s.status ≡ true
    → s.trial_end ≡ some end
    → now ≤ end
    → require_active_subscription now u s db ≡ (ok tt, db)
unfolding require_active_subscription is_trial
require_active_subscription-in_trial now u s {end} db t e h = ground arith

-- After the end of its trial a user with a limited account is refused, and that stays so: the
-- database then holds the subscription as expired and the user as having used the trial, and every
-- later request on the stored row, at any time, is refused and changes nothing.
pub trial_end_is_final :
    (now later : ℕ) (u : User) (s : Subscription) {end : ℕ} (db : Session Tables)
    → u.unlimited_access ≡ false
    → is_trial s.status ≡ true
    → s.trial_end ≡ some end
    → end < now
    → subscription_by_id s.id db.work ≡ some s
    → user_by_id u.id db.work ≡ some u
    → let (r, db') = require_active_subscription now u s db in
      (r ≡ raised forbidden)
      × (subscription_by_id s.id db'.durable ≡ some (expired_row s))
      × (user_by_id u.id db'.durable ≡ some (used u))
      × (require_active_subscription later (used u) (expired_row s) db' ≡ (raised forbidden, db'))
unfolding require_active_subscription is_trial mark_trial_used
trial_end_is_final now later u s {end} db limited t e h row user = (
  ground arith,
  ground (arith, find?-save_row (expired_row s) db.work.subscriptions row),
  ground (arith, find?-mark u.id db.work.users user),
  ground arith,
)

enterprise_is_paid : (p : Plan) → is_enterprise p ≡ true → is_free p ≡ false
unfolding is_free is_enterprise
enterprise_is_paid Plan.enterprise h = refl
enterprise_is_paid Plan.free h = cc
enterprise_is_paid Plan.pro h = refl
enterprise_is_paid (Plan.other _) h = refl

-- A request that passes the guard of a higher plan passes the weaker guards too, with the same
-- effect on the database.
pub require_enterprise-passes_weaker :
    (now : ℕ) (u : User) (s : Subscription) (db db' : Session Tables)
    → require_enterprise_subscription now u s db ≡ (ok tt, db')
    → (require_paid_subscription now u s db ≡ (ok tt, db'))
      × (require_active_subscription now u s db ≡ (ok tt, db'))
      × (db' ≡ db)
unfolding require_active_subscription require_paid_subscription require_enterprise_subscription
require_enterprise-passes_weaker now u s db db' h = ground (arith, enterprise_is_paid s.plan)
