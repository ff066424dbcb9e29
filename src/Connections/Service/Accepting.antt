-- ===== src/Connections/Service/Accepting.antt =====
-- A save is accepted where no key stands twice, and leaves it so.
use mathlib.Core.Path.{subst}
use spoutbreeze_backend.Prelude.{
  ℕ, ◌≡◌, inl, inr, refl, ap, sym, Bool, true, false, Option, none, some, List, [], ◌∷◌, String,
  arith, ◌==◌, str_eq, elem, find?, Bool-cases, Option-cases, eq_iff, All,
}
use spoutbreeze_backend.Prelude.Session.{Session, ok}
use spoutbreeze_backend.Connections.Store.{
  Fernet, Connection, Tables, of_account, coalesce, index_refuses,
}
use spoutbreeze_backend.Connections.Service.{
  TokenData, Account, or_kept, saved_row, first_row, save_existing, save_first, save_connection,
}
use spoutbreeze_backend.Connections.Service.Keys.{
  Apart, differ, index_accepts, key_of, keys, keys-changed, named, others_accept, str_eq_sym,
}

-- A row that is not of the account differs from one that is.
row_differs :
    (u : ℕ) (p : String) (o : Option String) (c d : Connection)
    → c.user_id ≡ u
    → c.provider ≡ p
    → c.provider_user_id ≡ o
    → named o ≡ true
    → (d.id == c.id) ≡ false
    → of_account u p o d ≡ false
    → differ (key_of d) (key_of c) ≡ true
row_differs u p none c d g h e n i f = ground (arith, g, h, e, i, f)
row_differs u p (some a) c d g h e n i f = elim (Option-cases d.provider_user_id) [
  | inl q ↦ ground (arith, g, h, e, i, f, n, q, str_eq_sym a "")
  | inr (b, q) ↦ ground (arith, g, h, e, i, f, q)
]

-- A row for an account without one differs from all.
first_differs :
    (u : ℕ) (p : String) (o : Option String) (c : Connection) (cs : List Connection)
    → c.user_id ≡ u
    → c.provider ≡ p
    → c.provider_user_id ≡ o
    → named o ≡ true
    → find? (λ d. d.id == c.id) cs ≡ none
    → find? (of_account u p o) cs ≡ none
    → All (λ j. differ j (key_of c) ≡ true) (keys cs)
first_differs u p o c [] g h e n f k = tt
first_differs u p o c (d ∷ ds) g h e n f k = (
  row_differs u p o c d g h e n (ground (arith, f)) (ground (arith, k)),
  first_differs u p o c ds g h e n (ground (arith, f)) (ground (arith, k)),
)

kept_account :
    (u : ℕ) (p : String) (o : Option String) (x : Connection)
    → of_account u p o x ≡ true
    → coalesce (or_kept o x.provider_user_id) ≡ coalesce x.provider_user_id
kept_account u p none x h = refl
kept_account u p (some a) x h = elim (Option-cases x.provider_user_id) [
  | inl g ↦ ground (arith, h, g)
  | inr (b, g) ↦ let e : str_eq b a ≡ true = ground (arith, h, g) in rw g (sym ((eq_iff b a).0 e))
]

-- The row of an account keeps its key when it is saved.
saved_key :
    (fernet : Fernet) (now : ℕ) (a : Account) (t : TokenData) (access scopes : String)
    (x : Connection)
    → of_account a.user_id a.provider a.provider_user_id x ≡ true
    → key_of (saved_row fernet now a t access scopes x) ≡ key_of x
saved_key fernet now a t access scopes x h =
    ap (λ s. record { id = x.id; user_id = x.user_id; provider = x.provider; account = s })
      (kept_account a.user_id a.provider a.provider_user_id x h)

find?-passes :
    (q : Connection → Bool) (cs : List Connection) (x : Connection)
    → find? q cs ≡ some x
    → q x ≡ true
find?-passes q [] x h = ground (arith, h)
find?-passes q (c ∷ cs) x h = elim (Bool-cases (q c)) [
  | inl e ↦ let same : c ≡ x = ground (arith, h, e) in subst (λ y. q y ≡ true) same e
  | inr e ↦ find?-passes q cs x (ground (arith, h, e))
]

module _ (fernet : Fernet) (now : ℕ) (a : Account) (t : TokenData) (scopes access : String)
    (s : Session Tables) where
  existing_accepted :
      (x : Connection)
      → Apart (keys s.work.connections)
      → find? (of_account a.user_id a.provider a.provider_user_id) s.work.connections ≡ some x
      → let (r, s') = save_existing fernet now a t access scopes x s in
        ((c : Connection) × (r ≡ ok c)) × Apart (keys s'.durable.connections)
  unfolding save_existing
  existing_accepted x p f =
      let q = of_account a.user_id a.provider a.provider_user_id in
      let y = saved_row fernet now a t access scopes x in
      let k = saved_key fernet now a t access scopes x (find?-passes q s.work.connections x f) in
      let free : index_refuses y s.work.connections ≡ false =
        index_accepts q x y s.work.connections p f k in
      let same =
        keys-changed q (saved_row fernet now a t access scopes) x s.work.connections p f k in
      rw free ((y, refl), subst Apart (sym same) p)

  first_accepted :
      (new_id : ℕ)
      → elem a.user_id s.work.users ≡ true
      → find? (λ c. c.id == new_id) s.work.connections ≡ none
      → named a.provider_user_id ≡ true
      → Apart (keys s.work.connections)
      → find? (of_account a.user_id a.provider a.provider_user_id) s.work.connections ≡ none
      → let (r, s') = save_first fernet now new_id a t access scopes s in
        ((c : Connection) × (r ≡ ok c)) × Apart (keys s'.durable.connections)
  unfolding save_first
  first_accepted new_id u i n p f =
      let y = first_row fernet now new_id a t access scopes in
      let apart =
        first_differs a.user_id a.provider a.provider_user_id y s.work.connections refl refl refl n
          i f in
      let free = others_accept y s.work.connections apart in
      rw u (rw i (rw free ((y, refl), (apart, p))))

-- A save for a known user, under an id that is on no row, is accepted, and no two rows get the same
-- key.
pub save_accepted :
    (fernet : Fernet) (now new_id : ℕ) (a : Account) (t : TokenData) (scopes access : String)
    (s : Session Tables)
    → t.access_token ≡ some access
    → elem a.user_id s.work.users ≡ true
    → find? (λ c. c.id == new_id) s.work.connections ≡ none
    → named a.provider_user_id ≡ true
    → Apart (keys s.work.connections)
    → let (r, s') = save_connection fernet now new_id a t scopes s in
      ((c : Connection) × (r ≡ ok c)) × Apart (keys s'.durable.connections)
unfolding save_connection
save_accepted fernet now new_id a t scopes access s k u i n p =
    elim (Option-cases
      (find? (of_account a.user_id a.provider a.provider_user_id) s.work.connections)) [
        | inl f ↦ rw k (rw f (first_accepted fernet now a t scopes access s new_id u i n p f))
        | inr (x, f) ↦ rw k (rw f (existing_accepted fernet now a t scopes access s x p f))
      ]

-- A save that is not accepted leaves the durable rows.
pub save_kept :
    (fernet : Fernet) (now new_id : ℕ) (a : Account) (t : TokenData) (scopes : String)
    (s : Session Tables)
    → named a.provider_user_id ≡ true
    → Apart (keys s.work.connections)
    → Apart (keys s.durable.connections)
    → Apart (keys (save_connection fernet now new_id a t scopes s).1.durable.connections)
unfolding save_connection save_first
save_kept fernet now new_id a t scopes s n p d = elim (Option-cases t.access_token) [
  | inl g ↦ rw g d
  | inr (access, g) ↦
      elim (Option-cases
        (find? (of_account a.user_id a.provider a.provider_user_id) s.work.connections)) [
          | inr (x, f) ↦ rw g (rw f (existing_accepted fernet now a t scopes access s x p f).1)
          | inl f ↦ elim (Bool-cases (elem a.user_id s.work.users)) [
            | inr u ↦ rw g (rw f (rw u d))
            | inl u ↦ elim (Option-cases (find? (λ c. c.id == new_id) s.work.connections)) [
              | inr (x, i) ↦ rw g (rw f (rw u (rw i d)))
              | inl i ↦ (save_accepted fernet now new_id a t scopes access s g u i n p).1
            ]
          ]
        ]
]
