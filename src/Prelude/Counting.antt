-- ===== src/Prelude/Counting.antt =====
-- Counting the rows that pass a test, under updates and deletions.
use mathlib.Core.Path.{◌≡◌, refl}
use mathlib.Core.Logic.{inl, inr}
use mathlib.Core.Bool.{Bool, true}
use mathlib.Core.List.{List, [], ◌∷◌}
use spoutbreeze_backend.Prelude.Tests.{Bool-cases}
use spoutbreeze_backend.Prelude.Lists.{count_if, keep, update_where}

module _ {ℓ} {A : Type ℓ} (q p : A → Bool) where
  -- An update that does not change what is counted.
  pub count_if-update_where :
      (f : A → A)
      → ((x : A) → p x ≡ true → q (f x) ≡ q x)
      → (xs : List A) → count_if q (update_where p f xs) ≡ count_if q xs
  count_if-update_where f h [] = refl
  count_if-update_where f h (x ∷ xs) = elim (Bool-cases (p x)) [
    | inl g ↦ rw g (rw (h x g) (rw (count_if-update_where f h xs) refl))
    | inr g ↦ rw g (rw (count_if-update_where f h xs) refl)
  ]

  -- A deletion that keeps what is counted.
  pub count_if-keep :
      ((x : A) → q x ≡ true → p x ≡ true) → (xs : List A) → count_if q (keep p xs) ≡ count_if q xs
  count_if-keep h [] = refl
  count_if-keep h (x ∷ xs) = elim (Bool-cases (q x)) [
    | inl g ↦ rw (h x g) (rw g (rw (count_if-keep h xs) refl))
    | inr g ↦ elim (Bool-cases (p x)) [
      | inl k ↦ rw k (rw g (count_if-keep h xs))
      | inr k ↦ rw k (rw g (count_if-keep h xs))
    ]
  ]
