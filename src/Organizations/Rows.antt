-- ===== src/Organizations/Rows.antt =====
-- Looking up a user by id after a change of a row.
use spoutbreeze_backend.Prelude.{
  ℕ, ◌≡◌, inl, inr, refl, true, false, some, List, [], ◌∷◌, arith, ◌==◌, update_where, Bool-cases,
}
use spoutbreeze_backend.Organizations.Store.{User, row}

pub row-id : (k : ℕ) (us : List User) (u : User) → row k us ≡ some u → (u.id == k) ≡ true
row-id k [] u h = ground arith
row-id k (v ∷ us) u h = ground (arith, h, row-id k us u)

module _ (f : User → User) (keeps : (u : User) → (f u).id ≡ u.id) (k : ℕ) where
  pub row-same :
      (us : List User) (u : User)
      → row k us ≡ some u
      → row k (update_where (λ u. u.id == k) f us) ≡ some (f u)
  row-same [] u h = ground arith
  row-same (v ∷ us) u h = ground (arith, h, keeps v, row-same us u)

  -- A row that stands there after the change stood there before it, up to the change.
  pub row-before :
      (us : List User) (v : User)
      → row k (update_where (λ u. u.id == k) f us) ≡ some v
      → (u : User) × ((row k us ≡ some u) × (v ≡ f u))
  row-before [] v h = ground arith
  row-before (w ∷ us) v h = elim (Bool-cases (w.id == k)) [
    | inl g ↦ (w, (rw g refl, ground (arith, g, h, keeps w)))
    | inr g ↦ let (u, q) = row-before us v (ground (arith, g, h)) in (u, ground (arith, g, q))
  ]

  pub row-other :
      (j : ℕ) (us : List User)
      → (j == k) ≡ false
      → row j (update_where (λ u. u.id == k) f us) ≡ row j us
  row-other j [] n = refl
  row-other j (v ∷ us) n = ground (arith, n, keeps v, row-other j us n)
