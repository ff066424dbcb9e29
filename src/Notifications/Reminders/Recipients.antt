-- ===== src/Notifications/Reminders/Recipients.antt =====
-- Who is reminded of an event.
use spoutbreeze_backend.Prelude.{
  ℕ, ◌≡◌, refl, ap, ◌∙◌, Bool, true, false, Option, none, some, List, [], ◌∷◌, arith, ◌==◌, ==-refl,
  ◌||◌, ◌&&◌, not, elem, inl, inr, Bool-cases,
}
use spoutbreeze_backend.Notifications.Reminders.{unseen, collect_recipients}

-- No user twice.
abbrev pub Distinct : List ℕ → Type 0
Distinct [] = Unit
Distinct (k ∷ ks) = (elem k ks ≡ false) × Distinct ks

abbrev pub is_creator : ℕ → Option ℕ → Bool
is_creator u none = false
is_creator u (some c) = u == c

elem-unseen :
    (u : ℕ) (seen ks : List ℕ) → elem u (unseen seen ks) ≡ (elem u ks && not (elem u seen))
unfolding unseen
elem-unseen u seen [] = refl
elem-unseen u seen (k ∷ ks) = elim (Bool-cases (elem k seen)) [
  | inl g ↦ elim (Bool-cases (u == k)) [
    | inl h ↦
        let i : u ≡ k = ground arith in
        let s : elem u seen ≡ true = ap (λ j. elem j seen) i ∙ g in
        rw g (ground (arith, elem-unseen u seen ks, s))
    | inr h ↦ rw g (ground (arith, elem-unseen u seen ks, h))
  ]
  | inr g ↦ elim (Bool-cases (u == k)) [
    | inl h ↦
        let i : u ≡ k = ground arith in
        let s : elem u seen ≡ false = ap (λ j. elem j seen) i ∙ g in rw g (ground (arith, s, h))
    | inr h ↦ rw g (ground (arith, elem-unseen u (k ∷ seen) ks, h))
  ]
]

unseen-Distinct : (seen ks : List ℕ) → Distinct (unseen seen ks)
unfolding unseen
unseen-Distinct seen [] = tt
unseen-Distinct seen (k ∷ ks) = elim (Bool-cases (elem k seen)) [
  | inl g ↦ rw g (unseen-Distinct seen ks)
  | inr g ↦
      rw g (ground (arith, elem-unseen k (k ∷ seen) ks, ==-refl k), unseen-Distinct (k ∷ seen) ks)
]

-- The recipients of a reminder are the creator and the organizers, nobody else, and nobody twice.
pub collect_recipients-Distinct :
    (creator : Option ℕ) (organizers : List ℕ) (u : ℕ)
    → Distinct (collect_recipients creator organizers)
      × (elem u (collect_recipients creator organizers)
          ≡ (is_creator u creator || elem u organizers))
unfolding collect_recipients
collect_recipients-Distinct none ks u = (unseen-Distinct [] ks, ground (arith, elem-unseen u [] ks))
collect_recipients-Distinct (some c) ks u = (
  (ground (arith, elem-unseen c (c ∷ []) ks, ==-refl c), unseen-Distinct (c ∷ []) ks),
  ground (arith, elem-unseen u (c ∷ []) ks),
)
