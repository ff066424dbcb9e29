-- ===== src/Notifications/Reminders/Keys.antt =====
-- The keys of the reminders of a day, and the recipients they are for.
use spoutbreeze_backend.Prelude.{
  ℕ, ◌≡◌, Bool, true, List, [], ◌∷◌, ◌++◌, elem, inl, inr, Bool-cases, keep, All,
}
use spoutbreeze_backend.Events.Store.{Event}
use spoutbreeze_backend.Notifications.Store.{Key, reminder_key}
use spoutbreeze_backend.Notifications.Reminders.{creator_of, collect_recipients, unseen}

abbrev pub keys_of : ℕ → Event → List ℕ → List Key
keys_of day e [] = []
keys_of day e (u ∷ us) = reminder_key e.id u day ∷ keys_of day e us

pub All-append : (P : Key → Type 0) (ks ls : List Key) → All P ks → All P ls → All P (ks ++ ls)
All-append P [] ls a b = b
All-append P (k ∷ ks) ls a b = (a.0, All-append P ks ls a.1 b)

pub All-split : (P : Key → Type 0) (ks ls : List Key) → All P (ks ++ ls) → All P ks × All P ls
All-split P [] ls a = (tt, a)
All-split P (k ∷ ks) ls a = let (b, c) = All-split P ks ls a.1 in ((a.0, b), c)

abbrev pub recipients_of : List ℕ → Event → List ℕ
recipients_of users e =
    collect_recipients (creator_of users e) (keep (λ k. elem k users) e.organizers)

abbrev pub all_keys : ℕ → List ℕ → List Event → List Key
all_keys day users [] = []
all_keys day users (e ∷ es) = keys_of day e (recipients_of users e) ++ all_keys day users es

-- The keys of the events that pass a narrower test.
pub all_keys-keep :
    (P : Key → Type 0) (day : ℕ) (users : List ℕ) (p q : Event → Bool) (es : List Event)
    → All (λ e. p e ≡ true → q e ≡ true) es
    → All P (all_keys day users (keep q es))
    → All P (all_keys day users (keep p es))
all_keys-keep P day users p q [] h a = tt
all_keys-keep P day users p q (e ∷ es) h a =
    let rest = all_keys-keep P day users p q es h.1 in
    elim (Bool-cases (p e)) [
      | inl g ↦
          let a' = rw (h.0 g) at a in
          let (b, c) = All-split P (keys_of day e (recipients_of users e)) _ a' in
          rw g (All-append P (keys_of day e (recipients_of users e)) _ b (rest c))
      | inr g ↦ elim (Bool-cases (q e)) [
        | inl k ↦
            let a' = rw k at a in
            let (b, c) = All-split P (keys_of day e (recipients_of users e)) _ a' in rw g (rest c)
        | inr k ↦ let a' = rw k at a in rw g (rest a')
      ]
    ]

-- The recipients are users.
unseen-All :
    (users seen ks : List ℕ)
    → All (λ u. elem u users ≡ true) ks
    → All (λ u. elem u users ≡ true) (unseen seen ks)
unfolding unseen
unseen-All users seen [] a = tt
unseen-All users seen (k ∷ ks) a = elim (Bool-cases (elem k seen)) [
  | inl g ↦ rw g (unseen-All users seen ks a.1)
  | inr g ↦ rw g (a.0, unseen-All users (k ∷ seen) ks a.1)
]

known-All : (users ks : List ℕ) → All (λ u. elem u users ≡ true) (keep (λ k. elem k users) ks)
known-All users [] = tt
known-All users (k ∷ ks) = elim (Bool-cases (elem k users)) [
  | inl g ↦ rw g (g, known-All users ks)
  | inr g ↦ rw g (known-All users ks)
]

pub recipients-All :
    (users : List ℕ) (e : Event)
    → All
        (λ u. elem u users ≡ true)
        (collect_recipients (creator_of users e) (keep (λ k. elem k users) e.organizers))
unfolding collect_recipients
recipients-All users e = elim (Bool-cases (elem e.creator_id users)) [
  | inl g ↦ rw g (g, unseen-All users (e.creator_id ∷ []) _ (known-All users e.organizers))
  | inr g ↦ rw g (unseen-All users [] _ (known-All users e.organizers))
]
