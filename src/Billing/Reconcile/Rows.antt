-- ===== src/Billing/Reconcile/Rows.antt =====
-- The row of a user among the subscriptions, and its change.
use mathlib.Core.Path.{subst}
use spoutbreeze_backend.Prelude.{
  ℕ, ◌≡◌, inl, inr, refl, ap, sym, ◌∙◌, Bool, true, false, none, some, List, [], ◌∷◌, arith, ◌==◌,
  find?, keep, Bool-cases,
}
use spoutbreeze_backend.Prelude.Session.{Session, ok}
use spoutbreeze_backend.Billing.Store.{
  User, Subscription, Tables, save_row, one_or_none, commit_subscription,
}
use spoutbreeze_backend.Billing.Service.{get_user_subscription}

abbrev pub UniqueIds : List Subscription → Type 0
UniqueIds [] = Unit
UniqueIds (t ∷ ts) = (find? (λ s. s.id == t.id) ts ≡ none) × UniqueIds ts

save_row-absent :
    (r : Subscription) (ts : List Subscription)
    → find? (λ s. s.id == r.id) ts ≡ none
    → save_row r ts ≡ ts
save_row-absent r [] h = refl
save_row-absent r (t ∷ ts) h = ground (arith, h, save_row-absent r ts)

-- A row that is kept has not an id that is on no row.
kept-id :
    (p : Subscription → Bool) (k : ℕ) (ts : List Subscription) (x : Subscription)
    → keep p ts ≡ x ∷ []
    → find? (λ s. s.id == k) ts ≡ none
    → (x.id == k) ≡ false
kept-id p k [] x h n = ground (arith, h)
kept-id p k (t ∷ ts) x h n = elim (Bool-cases (p t)) [
  | inl e ↦ ground (arith, h, n, e)
  | inr e ↦ kept-id p k ts x (ground (arith, h, e)) (ground (arith, n))
]

keep-save_row :
    (p : Subscription → Bool) (r x : Subscription) (ts : List Subscription)
    → UniqueIds ts
    → keep p ts ≡ x ∷ []
    → r.id ≡ x.id
    → p r ≡ true
    → keep p (save_row r ts) ≡ r ∷ []
keep-save_row p r x [] u h i q = ground (arith, h)
keep-save_row p r x (t ∷ ts) u h i q = elim (Bool-cases (p t)) [
  | inl e ↦
      let same : t ≡ x = ground (arith, h, e) in
      let none_left : keep p ts ≡ [] = ground (arith, h, e) in
      let j : t.id ≡ r.id = ap (λ s. s.id) same ∙ sym i in
      let rest = save_row-absent r ts (subst (λ k. find? (λ s. s.id == k) ts ≡ none) j u.0) in
      let b : (t.id == r.id) ≡ true = ground (arith, j) in rw b (rw q (rw rest (rw none_left refl)))
  | inr e ↦
      let g : keep p ts ≡ x ∷ [] = ground (arith, h, e) in
      let n = kept-id p t.id ts x g u.0 in
      let b : (t.id == r.id) ≡ false = ground (arith, i, n) in
      rw b (rw e (keep-save_row p r x ts u.1 g i q))
]

absent-save_row :
    (k : ℕ) (r : Subscription) (ts : List Subscription)
    → find? (λ s. s.id == k) ts ≡ none
    → find? (λ s. s.id == k) (save_row r ts) ≡ none
absent-save_row k r [] h = refl
absent-save_row k r (t ∷ ts) h = ground (arith, h, absent-save_row k r ts)

save_row-UniqueIds :
    (r : Subscription) (ts : List Subscription) → UniqueIds ts → UniqueIds (save_row r ts)
save_row-UniqueIds r [] u = tt
save_row-UniqueIds r (t ∷ ts) u = elim (Bool-cases (t.id == r.id)) [
  | inl e ↦
      let h = subst (λ k. find? (λ s. s.id == k) ts ≡ none) (ground (arith, e)) u.0 in
      rw e (absent-save_row r.id r ts h, save_row-UniqueIds r ts u.1)
  | inr e ↦ rw e (absent-save_row t.id r ts u.0, save_row-UniqueIds r ts u.1)
]

-- The session holds this row of the user, and no id twice.
pub record At (u : User) (x : Subscription) (s : Session Tables) : Type 0 where
  pub row : keep (λ t. t.user_id == u.id) s.work.subscriptions ≡ x ∷ []
  pub ids : UniqueIds s.work.subscriptions

pub commit_subscription-At :
    (u : User) (x r : Subscription) (s s' : Session Tables)
    → At u x s
    → r.id ≡ x.id
    → (r.user_id == u.id) ≡ true
    → commit_subscription r s ≡ (ok tt, s')
    → At u r s'
unfolding commit_subscription
commit_subscription-At u x r s s' a i o h =
    let d = record (s.work) { subscriptions = save_row r s.work.subscriptions } in
    let e : record { durable = d; work = d } ≡ s' = ground (arith, h) in
    subst (At u r) e (record {
      row = keep-save_row (λ t. t.user_id == u.id) r x s.work.subscriptions a.ids a.row i o;
      ids = save_row-UniqueIds r s.work.subscriptions a.ids;
    })

pub get_user_subscription-At :
    (u : User) (x : Subscription) (s : Session Tables)
    → At u x s
    → get_user_subscription u s ≡ (ok (some x), s)
unfolding get_user_subscription one_or_none
get_user_subscription-At u x s a = rw (a.row) refl

pub kept-holds :
    (p : Subscription → Bool) (ts : List Subscription) (x : Subscription)
    → keep p ts ≡ x ∷ []
    → p x ≡ true
kept-holds p [] x h = ground (arith, h)
kept-holds p (t ∷ ts) x h = elim (Bool-cases (p t)) [
  | inl e ↦ let same : t ≡ x = ground (arith, h, e) in subst (λ y. p y ≡ true) same e
  | inr e ↦ kept-holds p ts x (ground (arith, h, e))
]

pub committed :
    (z : Subscription) (s : Session Tables) {b : Unit {0}}
    → (commit_subscription z s).0 ≡ ok b
    → commit_subscription z s ≡ (ok tt, (commit_subscription z s).1)
committed z s h = ap (λ o. (o, (commit_subscription z s).1)) h
