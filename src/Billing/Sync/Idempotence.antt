-- ===== src/Billing/Sync/Idempotence.antt =====
-- A second synchronisation with the same invoices adds nothing.
use Prim.Native.String.{◌++◌ as ◌<>◌}
use mathlib.Core.Option.{some-injective}
use text.Mathlib.TextPositions.{eq_refl}
use text.Mathlib.TextLemmas.{append-eq-nil_iff}
use spoutbreeze_backend.Billing.Rows.{or_text}
use mathlib.Core.Path.{subst}
use spoutbreeze_backend.Prelude.{
  ◌≡◌, inl, inr, refl, ap, sym, true, false, Option, none, some, List, [], ◌∷◌, ◌++◌, String, arith,
  str_eq, given, eq_iff, truthy, Bool-cases, Option-cases,
}
use spoutbreeze_backend.Prelude.Session.{ok, Session}
use spoutbreeze_backend.Billing.Store.{Subscription, Transaction, Tables}
use spoutbreeze_backend.Billing.Stripe.{Invoice}
use spoutbreeze_backend.Billing.Sync.{
  mem_text, existing_intents, intent_key, import_of, import_all, add_all, commit_all,
  sync_transactions,
}

-- Every text of the first list is in the second.
abbrev Covers : List String → List String → Type 0
Covers big [] = Unit
Covers big (k ∷ ks) = (mem_text k big ≡ true) × Covers big ks

mem-Covers :
    (big small : List String) (k : String)
    → Covers big small
    → mem_text k small ≡ true
    → mem_text k big ≡ true
unfolding mem_text
mem-Covers big [] k c h = cc
mem-Covers big (x ∷ small) k c h = ground (arith, eq_iff k x, mem-Covers big small k c.1)

-- The keys of transactions.
abbrev intents : List Transaction → List String
intents [] = []
intents (t ∷ ts) = t.stripe_payment_intent_id ∷ intents ts

import_of-key :
    (s : Subscription) (i : Invoice) {t : Transaction}
    → import_of s i ≡ some t
    → (t.stripe_payment_intent_id ≡ intent_key i) × (t.subscription_id ≡ s.id)
unfolding import_of
import_of-key s i h = ground arith

module _ (s : Subscription) (old : List String) (i : Invoice) (is : List Invoice) where
  import_none : import_of s i ≡ none → import_all s old (i ∷ is) ≡ import_all s old is
  unfolding import_all
  import_none e = ground arith

  import_known :
      mem_text (intent_key i) old ≡ true → import_all s old (i ∷ is) ≡ import_all s old is
  unfolding import_all
  import_known h = ground arith

  import_new :
      {t : Transaction}
      → import_of s i ≡ some t
      → mem_text (intent_key i) old ≡ false
      → import_all s old (i ∷ is) ≡ t ∷ import_all s (intent_key i ∷ old) is
  unfolding import_all
  import_new e h = ground arith

-- Once the known keys cover those known before and those imported, nothing is left to import.
import_all-again :
    (s : Subscription) (old big : List String) (is : List Invoice)
    → Covers big old
    → Covers big (intents (import_all s old is))
    → import_all s big is ≡ []
import_all-again s old big [] c d = unfold import_all in refl
import_all-again s old big (i ∷ is) c d = elim (Option-cases (import_of s i)) [
  | inl e ↦ rw (import_none s big i is e) (
      import_all-again s old big is c
        (subst (λ l. Covers big (intents l)) (import_none s old i is e) d))
  | inr (t, e) ↦ elim (Bool-cases (mem_text (intent_key i) old)) [
    | inl h ↦ rw (import_known s big i is (mem-Covers big old _ c h)) (
        import_all-again s old big is c
          (subst (λ l. Covers big (intents l)) (import_known s old i is h) d))
    | inr h ↦
        let d' = subst (λ l. Covers big (intents l)) (import_new s old i is e h) d in
        let k : mem_text (intent_key i) big ≡ true =
          subst (λ k. mem_text k big ≡ true) (import_of-key s i e).0 d'.0 in
        rw (import_known s big i is k) (import_all-again s (intent_key i ∷ old) big is (k, c) d'.1)
  ]
]

-- A larger list covers what a smaller one does.
mem_self : (k : String) (ks : List String) → mem_text k (k ∷ ks) ≡ true
unfolding mem_text
mem_self k ks = ground (arith, eq_refl k)

Covers-cons : (k : String) (big small : List String) → Covers big small → Covers (k ∷ big) small
Covers-cons k big [] c = tt
Covers-cons k big (x ∷ small) c =
    (unfold mem_text in ground (arith, c.0), Covers-cons k big small c.1)

Covers-self : (ks : List String) → Covers ks ks
Covers-self [] = tt
Covers-self (k ∷ ks) = (mem_self k ks, Covers-cons k ks ks (Covers-self ks))

-- The new transactions belong to the subscription, and have a payment intent that is not empty.
abbrev Own : Subscription → List Transaction → Type 0
Own s [] = Unit
Own s (t ∷ ts) = (t.subscription_id ≡ s.id) × (truthy t.stripe_payment_intent_id ≡ true) × Own s ts

inv_truthy : (x : String) → truthy ("inv_" <> x) ≡ true
inv_truthy x = elim (Bool-cases (str_eq ("inv_" <> x) "")) [
  | inl e ↦
      let p : "inv_" <> x ≡ "" = (eq_iff ("inv_" <> x) "").0 e in
      let q : str_eq "inv_" "" ≡ true = (eq_iff "inv_" "").1 (append-eq-nil_iff.0 p).0 in cc
  | inr e ↦ rw e
]

or_text-truthy : (t : Option String) (d : String) → given t ≡ true → truthy (or_text t d) ≡ true
or_text-truthy none d h = cc
or_text-truthy (some t) d h = h

intent_key-truthy : (i : Invoice) → truthy (intent_key i) ≡ true
unfolding intent_key
intent_key-truthy i = elim (Bool-cases (given i.payment_intent)) [
  | inl h ↦ rw (h, intent_key) (or_text-truthy i.payment_intent "" h)
  | inr h ↦ rw (h, intent_key) (inv_truthy (or_text i.id ""))
]

import_all-Own :
    (s : Subscription) (old : List String) (is : List Invoice) → Own s (import_all s old is)
import_all-Own s old [] = unfold import_all in tt
import_all-Own s old (i ∷ is) = elim (Option-cases (import_of s i)) [
  | inl e ↦ rw (import_none s old i is e) (import_all-Own s old is)
  | inr (t, e) ↦ elim (Bool-cases (mem_text (intent_key i) old)) [
    | inl h ↦ rw (import_known s old i is h) (import_all-Own s old is)
    | inr h ↦
        let (key, own) = import_of-key s i e in
        rw (import_new s old i is e h)
          (own, rw key (intent_key-truthy i), import_all-Own s (intent_key i ∷ old) is)
  ]
]

-- What a successful insertion leaves is known at the next synchronisation.
add_all-existing :
    (s : Subscription) (new rows : List Transaction) {rows' : List Transaction}
    → Own s new
    → add_all new rows ≡ some rows'
    → existing_intents s.id rows' ≡ intents new ++ existing_intents s.id rows
unfolding add_all existing_intents
add_all-existing s [] rows own h = ap (existing_intents s.id) (sym (some-injective _ _ h))
add_all-existing s (t ∷ new) rows {rows'} own h = elim (Option-cases (add_all new rows)) [
  | inl e ↦ ground arith
  | inr (r, e) ↦ ground (arith, add_all-existing s new rows {rows' = r} own.2, own.0, own.1)
]

Covers-append_right : (xs ys : List String) → Covers (xs ++ ys) ys
Covers-append_right [] ys = Covers-self ys
Covers-append_right (x ∷ xs) ys = Covers-cons x (xs ++ ys) ys (Covers-append_right xs ys)

Covers-append_left : (xs ys : List String) → Covers (xs ++ ys) xs
Covers-append_left [] ys = tt
Covers-append_left (x ∷ xs) ys =
    (mem_self x (xs ++ ys), Covers-cons x (xs ++ ys) xs (Covers-append_left xs ys))

commit_all-ok :
    (new : List Transaction) (db db' : Session Tables) {made : List Transaction}
    → commit_all new db ≡ (ok made, db')
    → (made ≡ new) × (add_all new db.work.transactions ≡ some db'.work.transactions)
unfolding commit_all
commit_all-ok [] db db' h = (unfold add_all in ground arith)
commit_all-ok (t ∷ new) db db' h = ground arith

again :
    (s : Subscription) (is : List Invoice) (db db' : Session Tables) {made : List Transaction}
    → commit_all (import_all s (existing_intents s.id db.work.transactions) is) db ≡ (ok made, db')
    → import_all s (existing_intents s.id db'.work.transactions) is ≡ []
again s is db db' h =
    let old = existing_intents s.id db.work.transactions in
    let new = import_all s old is in
    let e =
      add_all-existing s new db.work.transactions (import_all-Own s old is)
        (commit_all-ok new db db' h).1 in
    rw e (
      import_all-again s old (intents new ++ old) is (Covers-append_right (intents new) old)
        (Covers-append_left (intents new) old))

-- After a synchronisation that succeeded, another with the same invoices of Stripe, in the same
-- order, makes no transaction and changes nothing.
pub sync_transactions-again :
    (s : Subscription) (is : List Invoice) (db db' : Session Tables) {made : List Transaction}
    → sync_transactions s (some is) db ≡ (ok made, db')
    → sync_transactions s (some is) db' ≡ (ok [], db')
unfolding sync_transactions
sync_transactions-again s is db db' h = elim (Bool-cases (given (some s.stripe_customer_id))) [
  | inl known ↦
      let h' = rw (known, sync_transactions) at h in
      rw (known, sync_transactions) (rw (again s is db db' h') (unfold commit_all in refl))
  | inr unknown ↦ rw unknown
]
