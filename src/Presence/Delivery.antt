-- ===== src/Presence/Delivery.antt =====
-- What a message does to the connections of its user, and what a disconnection does to a user with
-- connections on another process.
use spoutbreeze_backend.Prelude.{
  ℕ, All, ◌≡◌, refl, ap, sym, ◌∙◌, Bool, true, false, List, [], ◌∷◌, arith, ◌==◌, ==-refl, not,
  Bool-cases, Option-cases, inl, inr, keep,
}
use spoutbreeze_backend.Presence.{
  Presence, disconnect, disconnect_all, send_to_user, settle, or_empty, remove_first, any_ok,
}
use spoutbreeze_backend.Prelude.Dict.{get, get-put_self, get-put_ne, get-del_self, get-del_ne}

abbrev pub is_empty : List ℕ → Bool
is_empty [] = true
is_empty (w ∷ ws) = false

-- The sockets of a user.
abbrev pub sockets : ℕ → Presence → List ℕ
sockets u p = or_empty (get u p.connections)

sockets-settle : (u : ℕ) (ws : List ℕ) (p : Presence) → sockets u (settle u ws p) ≡ ws
sockets-settle u [] p = ap or_empty (get-del_self u p.connections)
sockets-settle u (w ∷ ws) p = ap or_empty (get-put_self u (w ∷ ws) p.connections)

sockets-settle_ne :
    (u v : ℕ) (ws : List ℕ) (p : Presence)
    → (v == u) ≡ false
    → sockets v (settle u ws p) ≡ sockets v p
sockets-settle_ne u v [] p h = ap or_empty (get-del_ne u v p.connections h)
sockets-settle_ne u v (w ∷ ws) p h = ap or_empty (get-put_ne u v (w ∷ ws) p.connections h)

sockets-disconnect :
    (u w : ℕ) (p : Presence) → sockets u (disconnect u w p) ≡ remove_first w (sockets u p)
unfolding disconnect remove_first
sockets-disconnect u w p = elim (Option-cases (get u p.connections)) [
  | inl h ↦ rw (disconnect, h) (rw h refl)
  | inr (old, h) ↦ rw (disconnect, h) (sockets-settle u (remove_first w old) p)
]

sockets-disconnect_ne :
    (u v w : ℕ) (p : Presence) → (v == u) ≡ false → sockets v (disconnect u w p) ≡ sockets v p
unfolding disconnect
sockets-disconnect_ne u v w p h = elim (Option-cases (get u p.connections)) [
  | inl g ↦ rw (disconnect, g) refl
  | inr (old, g) ↦ rw (disconnect, g) (sockets-settle_ne u v (remove_first w old) p h)
]

-- Removing one socket after the other.
abbrev remove_all : List ℕ → List ℕ → List ℕ
remove_all [] xs = xs
remove_all (w ∷ ws) xs = remove_all ws (remove_first w xs)

sockets-disconnect_all :
    (u : ℕ) (ws : List ℕ) (p : Presence)
    → sockets u (disconnect_all u ws p) ≡ remove_all ws (sockets u p)
unfolding disconnect_all
sockets-disconnect_all u [] p = refl
sockets-disconnect_all u (w ∷ ws) p =
    sockets-disconnect_all u ws (disconnect u w p) ∙ ap (remove_all ws) (sockets-disconnect u w p)

sockets-disconnect_all_ne :
    (u v : ℕ) (ws : List ℕ) (p : Presence)
    → (v == u) ≡ false
    → sockets v (disconnect_all u ws p) ≡ sockets v p
unfolding disconnect_all
sockets-disconnect_all_ne u v [] p h = refl
sockets-disconnect_all_ne u v (w ∷ ws) p h =
    sockets-disconnect_all_ne u v ws (disconnect u w p) h ∙ sockets-disconnect_ne u v w p h

remove_first_self : (x : ℕ) (xs : List ℕ) → remove_first x (x ∷ xs) ≡ xs
unfolding remove_first
remove_first_self x xs = rw (==-refl x) refl

module _ (fails : ℕ → Bool) where
  abbrev fine : ℕ → Bool
  fine w = not (fails w)

  keep-All : (ws : List ℕ) → All (λ w. fails w ≡ true) (keep fails ws)
  keep-All [] = tt
  keep-All (w ∷ ws) = elim (Bool-cases (fails w)) [
    | inl h ↦ rw h (h, keep-All ws)
    | inr h ↦ rw h (keep-All ws)
  ]

  remove_all-fine :
      (ws xs : List ℕ) (x : ℕ)
      → All (λ w. fails w ≡ true) ws
      → fails x ≡ false
      → remove_all ws (x ∷ xs) ≡ x ∷ remove_all ws xs
  unfolding remove_first
  remove_all-fine [] xs x a h = refl
  remove_all-fine (w ∷ ws) xs x a h = elim (Bool-cases (x == w)) [
    | inl g ↦ let q : x ≡ w = ground arith in let f : fails x ≡ true = rw q a.0 in cc
    | inr g ↦ rw g (remove_all-fine ws (remove_first w xs) x a.1 h)
  ]

  remove_all-keep : (xs : List ℕ) → remove_all (keep fails xs) xs ≡ keep fine xs
  unfolding remove_first
  remove_all-keep [] = refl
  remove_all-keep (x ∷ xs) = elim (Bool-cases (fails x)) [
    | inl h ↦ rw h (ap (remove_all (keep fails xs)) (remove_first_self x xs) ∙ remove_all-keep xs)
    | inr h ↦ rw h (
        remove_all-fine (keep fails xs) xs x (keep-All xs) h
        ∙ ap (λ ys. x ∷ ys) (remove_all-keep xs))
  ]

  any_ok-keep : (ws : List ℕ) → any_ok fails ws ≡ not (is_empty (keep fine ws))
  any_ok-keep [] = refl
  any_ok-keep (w ∷ ws) = elim (Bool-cases (fails w)) [
    | inl h ↦ rw h (any_ok-keep ws)
    | inr h ↦ rw h refl
  ]

-- A message to a user leaves the user with exactly the connections that did not fail, in order, is
-- reported as delivered exactly when one of them is left, and leaves the connections of every
-- other user as they were.
pub sockets-send_to_user :
    (fails : ℕ → Bool) (u v : ℕ) (p : Presence)
    → (v == u) ≡ false
    → let (delivered, p') = send_to_user fails u p in
      (sockets u p' ≡ keep (λ w. not (fails w)) (sockets u p))
      × (delivered ≡ not (is_empty (sockets u p')))
      × (sockets v p' ≡ sockets v p)
unfolding send_to_user
sockets-send_to_user fails u v p h =
    let ws = sockets u p in
    let left = sockets-disconnect_all u (keep fails ws) p ∙ remove_all-keep fails ws in
    (
      left,
      any_ok-keep fails ws ∙ ap (λ xs. not (is_empty xs)) (sym left),
      sockets-disconnect_all_ne u v (keep fails ws) p h,
    )
