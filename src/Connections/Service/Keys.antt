-- ===== src/Connections/Service/Keys.antt =====
-- What tells connections apart, so that the unique index refuses none.
use mathlib.Core.Path.{subst}
use spoutbreeze_backend.Prelude.{
  ℕ, ◌≡◌, inl, inr, refl, ap, ◌∙◌, sym, Bool, true, false, not, ◌&&◌, Option, none, some, List, [],
  ◌∷◌, String, arith, ◌==◌, ==-refl, str_eq, given, is_some, find?, update_where, Bool-cases,
  eq_iff, All,
}
use spoutbreeze_backend.Connections.Store.{Connection, is_active, coalesce, index_refuses}

-- What tells a row from the others: its id, and what the index is on.
pub record Key : Type 0 where
  pub id : ℕ
  pub user_id : ℕ
  pub provider : String
  pub account : String

abbrev pub key_of : Connection → Key
key_of c = record {
  id = c.id;
  user_id = c.user_id;
  provider = c.provider;
  account = coalesce c.provider_user_id;
}

abbrev pub keys : List Connection → List Key
keys [] = []
keys (c ∷ cs) = key_of c ∷ keys cs

-- Neither the id nor the rest is the same.
abbrev pub differ : Key → Key → Bool
differ j k =
    not (j.id == k.id)
    && not (j.user_id == k.user_id && (str_eq j.provider k.provider && str_eq j.account k.account))

abbrev pub Apart : List Key → Type 0
Apart [] = Unit
Apart (k ∷ ks) = All (λ j. differ j k ≡ true) ks × Apart ks

-- The id of the account at the platform is not the empty text.
abbrev pub named : Option String → Bool
named none = true
named (some a) = given (some a)

pub str_eq_sym : (a b : String) → str_eq a b ≡ str_eq b a
str_eq_sym a b = ground (arith, eq_iff a b, eq_iff b a)

differ_sym : (j k : Key) → differ j k ≡ differ k j
differ_sym j k = ground (arith, str_eq_sym j.provider k.provider, str_eq_sym j.account k.account)

-- A predicate of all keys holds of a row that is found.
all_found :
    (P : Key → Type 0) (q : Connection → Bool) (cs : List Connection) (x : Connection)
    → All P (keys cs)
    → find? q cs ≡ some x
    → P (key_of x)
all_found P q [] x h g = ground (arith, g)
all_found P q (c ∷ cs) x h g = elim (Bool-cases (q c)) [
  | inl e ↦ let same : c ≡ x = ground (arith, g, e) in subst (λ y. P (key_of y)) same h.0
  | inr e ↦ all_found P q cs x h.1 (ground (arith, g, e))
]

-- Rows that differ from a key are not refused for it.
pub others_accept :
    (x : Connection) (cs : List Connection)
    → All (λ j. differ j (key_of x) ≡ true) (keys cs)
    → index_refuses x cs ≡ false
unfolding index_refuses
others_accept x [] h = refl
others_accept x (c ∷ cs) h =
    ground (arith, h.0, others_accept x cs h.1, str_eq_sym c.provider x.provider)

abbrev refuses_for : Key → List Connection → Bool
refuses_for k cs = is_some (
    find?
      (λ d.
        (not (d.id == k.id) && is_active d)
        && ((d.user_id == k.user_id && str_eq d.provider k.provider)
            && str_eq (coalesce d.provider_user_id) k.account))
      cs)

-- Nor is a row for itself.
accepts_itself :
    (q : Connection → Bool) (x : Connection) (cs : List Connection)
    → Apart (keys cs)
    → find? q cs ≡ some x
    → index_refuses x cs ≡ false
unfolding index_refuses
accepts_itself q x [] a g = refl
accepts_itself q x (c ∷ cs) a g = elim (Bool-cases (q c)) [
  | inl e ↦
      let same : c ≡ x = ground (arith, g, e) in
      let rest =
        others_accept x cs
          (subst (λ y. All (λ j. differ j (key_of y) ≡ true) (keys cs)) same a.0) in
      let i : (c.id == x.id) ≡ true = subst (λ y. (c.id == y.id) ≡ true) same (==-refl c.id) in
      ground (arith, i, rest)
  | inr e ↦
      let g' : find? q cs ≡ some x = ground (arith, g, e) in
      let apart = all_found (λ j. differ j (key_of c) ≡ true) q cs x a.0 g' in
      ground (arith, apart, differ_sym (key_of x) (key_of c), accepts_itself q x cs a.1 g')
]

pub index_accepts :
    (q : Connection → Bool) (x y : Connection) (cs : List Connection)
    → Apart (keys cs)
    → find? q cs ≡ some x
    → key_of y ≡ key_of x
    → index_refuses y cs ≡ false
unfolding index_refuses
index_accepts q x y cs a g k = ap (λ j. refuses_for j cs) k ∙ accepts_itself q x cs a g

update_none :
    (k : ℕ) (f : Connection → Connection) (x : Connection) (cs : List Connection)
    → (x.id == k) ≡ true
    → All (λ j. differ j (key_of x) ≡ true) (keys cs)
    → update_where (λ c. c.id == k) f cs ≡ cs
update_none k f x [] i h = refl
update_none k f x (c ∷ cs) i h = ground (arith, i, h.0, update_none k f x cs i h.1)

-- A change of a row that is found, and that keeps its key, keeps all keys.
pub keys-changed :
    (q : Connection → Bool) (f : Connection → Connection) (x : Connection) (cs : List Connection)
    → Apart (keys cs)
    → find? q cs ≡ some x
    → key_of (f x) ≡ key_of x
    → keys (update_where (λ c. c.id == x.id) f cs) ≡ keys cs
keys-changed q f x [] a g k = refl
keys-changed q f x (c ∷ cs) a g k = elim (Bool-cases (q c)) [
  | inl e ↦
      let same : c ≡ x = ground (arith, g, e) in
      let rest =
        update_none x.id f x cs (==-refl x.id)
          (subst (λ y. All (λ j. differ j (key_of y) ≡ true) (keys cs)) same a.0) in
      let i : (c.id == x.id) ≡ true = subst (λ y. (c.id == y.id) ≡ true) same (==-refl c.id) in
      let h : key_of (f c) ≡ key_of c = subst (λ y. key_of (f y) ≡ key_of y) (sym same) k in
      rw i (rw rest (rw h refl))
  | inr e ↦
      let g' : find? q cs ≡ some x = ground (arith, g, e) in
      let apart = all_found (λ j. differ j (key_of c) ≡ true) q cs x a.0 g' in
      let i : (c.id == x.id) ≡ false = ground (arith, apart, differ_sym (key_of x) (key_of c)) in
      rw i (ap (◌∷◌ (key_of c)) (keys-changed q f x cs a.1 g' k))
]

-- A change that keeps the key of every row keeps all keys.
pub keys-update_where :
    (q : Connection → Bool) (f : Connection → Connection) (cs : List Connection)
    → ((c : Connection) → key_of (f c) ≡ key_of c)
    → keys (update_where q f cs) ≡ keys cs
keys-update_where q f [] h = refl
keys-update_where q f (c ∷ cs) h = elim (Bool-cases (q c)) [
  | inl e ↦ rw e (rw (h c) (ap (◌∷◌ (key_of c)) (keys-update_where q f cs h)))
  | inr e ↦ rw e (ap (◌∷◌ (key_of c)) (keys-update_where q f cs h))
]
