-- ===== src/Streams/Tracker/Sets.antt =====
-- The streams of a user after a stream is added to or taken from its user's set.
use spoutbreeze_backend.Prelude.{
  ℕ, ◌≡◌, refl, ap, sym, true, false, some, List, [], ◌∷◌, arith, ◌==◌, ==-refl, Bool-cases, inl,
  inr, elem,
}
use spoutbreeze_backend.Prelude.Dict.{
  Entry, put, get-put_self, get-put_ne, get-del_self, get-del_ne,
}
use spoutbreeze_backend.Streams.Tracker.{listed, members, insert, discard, put_members, without}

pub members-put : (u : ℕ) (xs : List ℕ) (d : List (Entry (List ℕ))) → members u (put u xs d) ≡ xs
members-put u xs d = ap listed (get-put_self u xs d)

pub members-put_ne :
    (u v : ℕ) (xs : List ℕ) (d : List (Entry (List ℕ)))
    → (v == u) ≡ false
    → members v (put u xs d) ≡ members v d
members-put_ne u v xs d h = ap listed (get-put_ne u v xs d h)

pub members-put_members :
    (u : ℕ) (xs : List ℕ) (d : List (Entry (List ℕ))) → members u (put_members u xs d) ≡ xs
members-put_members u [] d = ap listed (get-del_self u d)
members-put_members u (x ∷ xs) d = ap listed (get-put_self u (x ∷ xs) d)

pub members-put_members_ne :
    (u v : ℕ) (xs : List ℕ) (d : List (Entry (List ℕ)))
    → (v == u) ≡ false
    → members v (put_members u xs d) ≡ members v d
members-put_members_ne u v [] d h = ap listed (get-del_ne u v d h)
members-put_members_ne u v (x ∷ xs) d h = ap listed (get-put_ne u v (x ∷ xs) d h)

pub discard-absent : (s : ℕ) (xs : List ℕ) → elem s xs ≡ false → discard s xs ≡ xs
discard-absent s [] h = refl
discard-absent s (x ∷ xs) h = ground (arith, discard-absent s xs)

pub discard-insert : (s : ℕ) (xs : List ℕ) → elem s xs ≡ false → discard s (insert s xs) ≡ xs
discard-insert s xs h = rw h (rw (==-refl s) (discard-absent s xs h))

pub elem-insert : (s : ℕ) (xs : List ℕ) → elem s (insert s xs) ≡ true
elem-insert s xs = elim (Bool-cases (elem s xs)) [
  | inl h ↦ rw h h
  | inr h ↦ rw h (rw (==-refl s) refl)
]

-- The set of a stream's user loses the stream.
pub members-without_self :
    (u sid : ℕ) (d : List (Entry (List ℕ)))
    → members u (without (some u) sid d) ≡ discard sid (members u d)
members-without_self u sid d = elim (Bool-cases (elem sid (members u d))) [
  | inl h ↦ rw h (members-put_members u (discard sid (members u d)) d)
  | inr h ↦ rw h (sym (discard-absent sid (members u d) h))
]

pub members-without_ne :
    (u v sid : ℕ) (d : List (Entry (List ℕ)))
    → (v == u) ≡ false
    → members v (without (some u) sid d) ≡ members v d
members-without_ne u v sid d h = elim (Bool-cases (elem sid (members u d))) [
  | inl g ↦ rw g (members-put_members_ne u v (discard sid (members u d)) d h)
  | inr g ↦ rw g refl
]
