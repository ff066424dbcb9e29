-- ===== src/Events/Service/Rows.antt =====
-- Rows found by their id, under the changes that the services make to the table of events.
use mathlib.Core.Path.{subst}
use spoutbreeze_backend.Prelude.{
  ℕ, ◌≡◌, refl, sym, true, false, Option, none, some, List, [], ◌∷◌, arith, ◌==◌, not, find?, keep,
  update_where, All, Bool-cases, inl, inr,
}
use spoutbreeze_backend.Events.Store.{Event}

abbrev pub row : ℕ → List Event → Option Event
row k es = find? (λ e. e.id == k) es

abbrev pub change : ℕ → (Event → Event) → List Event → List Event
change k f es = update_where (λ e. e.id == k) f es

abbrev pub remove : ℕ → List Event → List Event
remove k es = keep (λ e. not (e.id == k)) es

-- No id stands twice.
abbrev pub UniqueIds : List Event → Type 0
UniqueIds [] = Unit
UniqueIds (e ∷ es) = (row e.id es ≡ none) × UniqueIds es

abbrev pub map_row : (Event → Event) → Option Event → Option Event
map_row f none = none
map_row f (some e) = some (f e)

module _ (f : Event → Event) (same_id : (e : Event) → (f e).id ≡ e.id) where
  pub row-change_self : (k : ℕ) (es : List Event) → row k (change k f es) ≡ map_row f (row k es)
  row-change_self k [] = refl
  row-change_self k (e ∷ es) = elim (Bool-cases (e.id == k)) [
    | inl h ↦ rw h (rw (same_id e) (rw h))
    | inr h ↦ rw h (rw h (row-change_self k es))
  ]

  pub row-change_ne :
      (j k : ℕ) (es : List Event) → (k == j) ≡ false → row k (change j f es) ≡ row k es
  row-change_ne j k [] h = refl
  row-change_ne j k (e ∷ es) h = elim (Bool-cases (e.id == j)) [
    | inl g ↦ rw g (rw (same_id e) (ground (arith, row-change_ne j k es h)))
    | inr g ↦ rw g (ground (arith, row-change_ne j k es h))
  ]

  row-change-none : (j k : ℕ) (es : List Event) → row k es ≡ none → row k (change j f es) ≡ none
  row-change-none j k es h = elim (Bool-cases (k == j)) [
    | inl g ↦ let e : k ≡ j = ground arith in rw e (rw (row-change_self j es) (rw (← e) (rw h)))
    | inr g ↦ rw (row-change_ne j k es g) h
  ]

  pub change-UniqueIds : (j : ℕ) (es : List Event) → UniqueIds es → UniqueIds (change j f es)
  change-UniqueIds j [] u = tt
  change-UniqueIds j (e ∷ es) u = elim (Bool-cases (e.id == j)) [
    | inl g ↦ rw g (rw (same_id e) (row-change-none j e.id es u.0), change-UniqueIds j es u.1)
    | inr g ↦ rw g (row-change-none j e.id es u.0, change-UniqueIds j es u.1)
  ]

-- A change of an id that no row has changes nothing.
pub change-absent :
    (f : Event → Event) (k : ℕ) (es : List Event) → row k es ≡ none → change k f es ≡ es
change-absent f k [] h = refl
change-absent f k (e ∷ es) h = elim (Bool-cases (e.id == k)) [
  | inl g ↦ absurd (ground arith)
  | inr g ↦ rw g (rw (change-absent f k es (ground arith)))
]

module _ (P : Event → Type 0) (f : Event → Event) where
  pub change-All :
      (k : ℕ) (es : List Event) {e : Event}
      → row k es ≡ some e
      → (P e → P (f e))
      → UniqueIds es
      → All P es
      → All P (change k f es)
  change-All k [] h keeps u a = tt
  change-All k (x ∷ es) {e} h keeps u a = elim (Bool-cases (x.id == k)) [
    | inl g ↦
        let same : x ≡ e = ground arith in
        let rest : change k f es ≡ es = change-absent f k es (unique_rest g) in
        rw g (rw rest (subst (λ y. P (f y)) (sym same) (keeps (subst P same a.0)), a.1))
    | inr g ↦ rw g (a.0, change-All k es {e = e} (ground arith) keeps u.1 a.1)
  ]
    where
      unique_rest : (x.id == k) ≡ true → row k es ≡ none
      unique_rest g = let q : x.id ≡ k = ground arith in subst (λ j. row j es ≡ none) q u.0

pub row-All :
    (P : Event → Type 0) (k : ℕ) (es : List Event) {e : Event} → row k es ≡ some e → All P es → P e
row-All P k [] h a = cc
row-All P k (x ∷ es) {e} h a = elim (Bool-cases (x.id == k)) [
  | inl g ↦ let same : x ≡ e = ground arith in subst P same a.0
  | inr g ↦ row-All P k es {e = e} (ground arith) a.1
]

pub row-remove_self : (k : ℕ) (es : List Event) → row k (remove k es) ≡ none
row-remove_self k [] = refl
row-remove_self k (e ∷ es) = elim (Bool-cases (e.id == k)) [
  | inl g ↦ rw g (row-remove_self k es)
  | inr g ↦ rw g (rw g (row-remove_self k es))
]

pub row-remove_ne : (j k : ℕ) (es : List Event) → (k == j) ≡ false → row k (remove j es) ≡ row k es
row-remove_ne j k [] h = refl
row-remove_ne j k (e ∷ es) h = elim (Bool-cases (e.id == j)) [
  | inl g ↦ rw g (ground (arith, row-remove_ne j k es h))
  | inr g ↦ rw g (ground (arith, row-remove_ne j k es h))
]

row-remove-none : (j k : ℕ) (es : List Event) → row k es ≡ none → row k (remove j es) ≡ none
row-remove-none j k es h = elim (Bool-cases (k == j)) [
  | inl g ↦ let e : k ≡ j = ground arith in rw e (row-remove_self j es)
  | inr g ↦ rw (row-remove_ne j k es g) h
]

pub remove-UniqueIds : (j : ℕ) (es : List Event) → UniqueIds es → UniqueIds (remove j es)
remove-UniqueIds j [] u = tt
remove-UniqueIds j (e ∷ es) u = elim (Bool-cases (e.id == j)) [
  | inl g ↦ rw g (remove-UniqueIds j es u.1)
  | inr g ↦ rw g (row-remove-none j e.id es u.0, remove-UniqueIds j es u.1)
]

pub remove-All : (P : Event → Type 0) (j : ℕ) (es : List Event) → All P es → All P (remove j es)
remove-All P j [] a = tt
remove-All P j (e ∷ es) a = elim (Bool-cases (e.id == j)) [
  | inl g ↦ rw g (remove-All P j es a.1)
  | inr g ↦ rw g (a.0, remove-All P j es a.1)
]
