-- ===== src/Billing/Reconcile/Again.antt =====
-- A second reconciliation.
use mathlib.Core.Path.{subst}
use text.Mathlib.TextPositions.{eq_refl}
use spoutbreeze_backend.Prelude.{
  ℕ, ◌≡◌, ◌≢◌, ◌⊎◌, inl, inr, refl, ap, sym, Bool, true, not, ◌&&◌, Option, none, some, List, [],
  ◌∷◌, String, arith, ◌==◌, opt_eq, truthy, keep, Bool-cases, Option-cases,
}
use spoutbreeze_backend.Prelude.Session.{Session, ok, open_on, Outcome-cases}
use spoutbreeze_backend.Billing.Plan.{Status, Settings}
use spoutbreeze_backend.Billing.Store.{User, Subscription, Tables, one_or_none, commit_subscription}
use spoutbreeze_backend.Billing.Stripe.{StripeSubscription}
use spoutbreeze_backend.Billing.Service.{get_user_subscription, get_or_create_customer}
use spoutbreeze_backend.Billing.Rows.{date_or}
use spoutbreeze_backend.Billing.Reconcile.{
  status_text, same_date, latest_of, reconciled_row, unchanged, apply_latest, apply_listed,
  with_customer, reconcile_subscription, is_canceled,
}
use spoutbreeze_backend.Billing.Reconcile.Rows.{
  UniqueIds, At, commit_subscription-At, get_user_subscription-At, kept-holds, committed,
}

same_date-date_or :
    (c : Settings) (t old : Option ℕ)
    → same_date (date_or c t old) (date_or c t (date_or c t old)) ≡ true
same_date-date_or c t old = ground arith

both : {a b : Bool} → a ≡ true → b ≡ true → (a && b) ≡ true
both {a} {b} h g = ground (arith, h, g)

opt_eq_refl : (a : Option String) → opt_eq a a ≡ true
opt_eq_refl none = refl
opt_eq_refl (some x) = eq_refl x

-- What Stripe says of a row is what it says again.
unchanged-reconciled_row :
    (c : Settings) (o : StripeSubscription) (s : Subscription) (price : String) (status : Status)
    → let r = reconciled_row c o s price status in
      unchanged r (reconciled_row c o r price status) ≡ true
unfolding unchanged reconciled_row
unchanged-reconciled_row c o s price status = both (opt_eq_refl o.id) (
    both (eq_refl price) (
      both (opt_eq_refl o.product_id) (
        both (eq_refl (status_text status)) (
          both (same_date-date_or c o.current_period_start s.current_period_start) (
            both (same_date-date_or c o.current_period_end s.current_period_end) (
              both (same_date-date_or c o.trial_start s.trial_start)
                (same_date-date_or c o.trial_end s.trial_end)))))))

-- The ids that Stripe gives to new customers are not empty.
abbrev pub Named : Option String → Type 0
Named created = (k : String) → created ≡ some k → truthy k ≡ true

record Customer (u : User) (y : Subscription) (s' : Session Tables) : Type 0 where
  at : At u y s'
  mine : (y.user_id == u.id) ≡ true
  named : truthy y.stripe_customer_id ≡ true

with_customer-At :
    (u : User) (created : Option String) (x y : Subscription) (s s' : Session Tables)
    → At u x s
    → (x.user_id == u.id) ≡ true
    → Named created
    → with_customer u created x s ≡ (ok y, s')
    → Customer u y s'
unfolding with_customer get_or_create_customer
with_customer-At u created x y s s' a o n h = elim (Bool-cases (truthy x.stripe_customer_id)) [
  | inl e ↦
      let q : x ≡ y = ground (arith, h, e) in
      let q' : s ≡ s' = ground (arith, h, e) in
      subst (λ z. Customer u z s') q
        (subst (Customer u x) q' (record { at = a; mine = o; named = e }))
  | inr e ↦ elim (Option-cases created) [
    | inl g ↦ ground (arith, h, e, g, get_user_subscription-At u x s a)
    | inr (k, g) ↦
        let z = record x { stripe_customer_id = k } in
        elim (Outcome-cases (commit_subscription z s).0) [
          | inl (b, f) ↦
              let m : commit_subscription z s ≡ (ok tt, (commit_subscription z s).1) =
                committed z s f in
              let at = commit_subscription-At u x z s (commit_subscription z s).1 a refl o m in
              let got = get_user_subscription-At u x s a in
              let q : z ≡ y = ground (arith, h, e, g, m, got) in
              let q' : (commit_subscription z s).1 ≡ s' = ground (arith, h, e, g, m, got) in
              subst (λ v. Customer u v s') q
                (subst (Customer u z) q' (record { at = at; mine = o; named = n k g }))
          | inr (b, f) ↦ ground (arith, h, e, g, f, get_user_subscription-At u x s a)
        ]
  ]
]

-- The row is as Stripe has it.
apply_latest-settled :
    (c : Settings) (o : StripeSubscription) (r : Subscription) (price : String) (status : Status)
    (s : Session Tables)
    → o.price_id ≡ some price
    → o.status ≡ some status
    → unchanged r (reconciled_row c o r price status) ≡ true
    → apply_latest c o r s ≡ (ok (some r), s)
unfolding apply_latest
apply_latest-settled c o r price status s g f e = ground (arith, g, f, e)

-- What a reconciliation leaves: the same row with the same customer, and settled.
record Settled (c : Settings) (o : StripeSubscription) (u : User) (y r : Subscription)
    (s' : Session Tables) : Type 0 where
  at : At u r s'
  again : apply_latest c o r s' ≡ (ok (some r), s')
  customer : r.stripe_customer_id ≡ y.stripe_customer_id

apply_latest-again :
    (c : Settings) (o : StripeSubscription) (u : User) (y r : Subscription) (s s' : Session Tables)
    → At u y s
    → (y.user_id == u.id) ≡ true
    → apply_latest c o y s ≡ (ok (some r), s')
    → Settled c o u y r s'
unfolding apply_latest reconciled_row
apply_latest-again c o u y r s s' a m h = elim (Option-cases o.price_id) [
  | inl g ↦ ground (arith, h, g)
  | inr (price, g) ↦ elim (Option-cases o.status) [
    | inl f ↦ ground (arith, h, g, f)
    | inr (status, f) ↦
        let z = reconciled_row c o y price status in
        elim (Bool-cases (unchanged y z)) [
          | inl e ↦
              let q : y ≡ r = ground (arith, h, g, f, e) in
              let q' : s ≡ s' = ground (arith, h, g, f, e) in
              subst (λ v. Settled c o u y v s') q
                (subst (Settled c o u y y) q' (record {
                  at = a;
                  again = apply_latest-settled c o y price status s g f e;
                  customer = refl;
                }))
          | inr e ↦ elim (Outcome-cases (commit_subscription z s).0) [
            | inr (b, i) ↦ ground (arith, h, g, f, e, i)
            | inl (b, i) ↦
                let w = commit_subscription z s in
                let k = committed z s i in
                let q : z ≡ r = ground (arith, h, g, f, e, k) in
                let q' : w.1 ≡ s' = ground (arith, h, g, f, e, k) in
                subst (λ v. Settled c o u y v s') q
                  (subst (Settled c o u y z) q' (record {
                    at = commit_subscription-At u y z s w.1 a refl m k;
                    again =
                        apply_latest-settled c o z price status w.1 g f
                          (unchanged-reconciled_row c o y price status);
                    customer = refl;
                  }))
          ]
        ]
  ]
]

apply_listed-again :
    (c : Settings) (listed : Option (List StripeSubscription)) (u : User) (y r : Subscription)
    (s s' : Session Tables)
    → At u y s
    → (y.user_id == u.id) ≡ true
    → apply_listed c listed y s ≡ (ok (some r), s')
    → At u r s'
      × (apply_listed c listed r s' ≡ (ok (some r), s'))
      × (r.stripe_customer_id ≡ y.stripe_customer_id)
apply_listed-again c none u y r s s' a m h =
    let q : y ≡ r = ground (arith, h) in
    let q' : s ≡ s' = ground (arith, h) in
    (subst (λ v. At u v s') q (subst (At u y) q' a), refl, ap (λ v. v.stripe_customer_id) (sym q))
apply_listed-again c (some os) u y r s s' a m h =
    listed_rows (keep (λ o. not (is_canceled o.status)) os) refl
  where
    listed_rows :
        (ks : List StripeSubscription)
        → keep (λ o. not (is_canceled o.status)) os ≡ ks
        → At u r s'
          × (apply_listed c (some os) r s' ≡ (ok (some r), s'))
          × (r.stripe_customer_id ≡ y.stripe_customer_id)
    listed_rows [] g =
        let q : y ≡ r = ground (arith, h, g) in
        let q' : s ≡ s' = ground (arith, h, g) in
        (
          subst (λ v. At u v s') q (subst (At u y) q' a),
          ground (arith, g),
          ap (λ v. v.stripe_customer_id) (sym q),
        )
    listed_rows (o ∷ qs) g =
        let w = apply_latest-again c (latest_of o qs) u y r s s' a m (ground (arith, h, g)) in
        (w.at, ground (arith, g, w.again), w.customer)

with_customer-named :
    (u : User) (created : Option String) (x : Subscription) (s : Session Tables)
    → truthy x.stripe_customer_id ≡ true
    → with_customer u created x s ≡ (ok x, s)
unfolding with_customer
with_customer-named u created x s h = ground (arith, h)

-- The three ways in which the row of a user is looked up.
found-cases :
    (u : User) (s : Session Tables)
    → ((x : Subscription) × (keep (λ t. t.user_id == u.id) s.work.subscriptions ≡ x ∷ []))
      ⊎ ((r : Subscription) → (get_user_subscription u s).0 ≢ ok (some r))
unfolding get_user_subscription one_or_none
found-cases u s = go (keep (λ t. t.user_id == u.id) s.work.subscriptions) refl
  where
    go :
        (xs : List Subscription)
        → keep (λ t. t.user_id == u.id) s.work.subscriptions ≡ xs
        → ((x : Subscription) × (keep (λ t. t.user_id == u.id) s.work.subscriptions ≡ x ∷ []))
          ⊎ ((r : Subscription) → (get_user_subscription u s).0 ≢ ok (some r))
    go [] e = inr (λ r h. ground (arith, e, h))
    go (x ∷ []) e = inl (x, e)
    go (x ∷ y ∷ xs) e = inr (λ r h. ground (arith, e, h))

-- A reconciliation with Stripe that ends with a subscription has settled it: another one, with the
-- same answer of Stripe to the listing, ends with the same subscription and changes nothing. No id
-- stands on two rows, and the id of a customer that Stripe makes is not empty.
pub reconcile_subscription-again :
    (c : Settings) (u : User) (created created' : Option String)
    (listed : Option (List StripeSubscription)) (d : Tables) (r : Subscription)
    (s' : Session Tables)
    → UniqueIds d.subscriptions
    → Named created
    → reconcile_subscription c u created listed (open_on d) ≡ (ok (some r), s')
    → reconcile_subscription c u created' listed s' ≡ (ok (some r), s')
unfolding reconcile_subscription
reconcile_subscription-again c u created created' listed d r s' i n h =
    elim (found-cases u (open_on d)) [
      | inr absent ↦ elim (Outcome-cases (get_user_subscription u (open_on d)).0) [
        | inl (none, g) ↦ ground (arith, h, g)
        | inl (some x, g) ↦ ground (arith, absent x, g)
        | inr (e, g) ↦ ground (arith, h, g)
      ]
      | inl (x, g) ↦
          let a : At u x (open_on d) = record { row = g; ids = i } in
          let o = kept-holds (λ t. t.user_id == u.id) d.subscriptions x g in
          let got = get_user_subscription-At u x (open_on d) a in
          let w = with_customer u created x (open_on d) in
          elim (Outcome-cases w.0) [
            | inr (e, f) ↦ ground (arith, h, got, f)
            | inl (y, f) ↦
                let f' : with_customer u created x (open_on d) ≡ (ok y, w.1) =
                  ap (λ k. (k, w.1)) f in
                let k = with_customer-At u created x y (open_on d) w.1 a o n f' in
                let l : apply_listed c listed y w.1 ≡ (ok (some r), s') =
                  ground (arith, h, got, f') in
                let (b, again, same) = apply_listed-again c listed u y r w.1 s' k.at k.mine l in
                let e = subst (λ t. truthy t ≡ true) (sym same) k.named in
                ground (
                  arith,
                  get_user_subscription-At u r s' b,
                  with_customer-named u created' r s' e,
                  again,
                )
          ]
    ]
