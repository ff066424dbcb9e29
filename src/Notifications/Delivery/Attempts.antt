-- ===== src/Notifications/Delivery/Attempts.antt =====
-- The attempts of a delivery.
use mathlib.Core.Path.{subst}
use spoutbreeze_backend.Prelude.{
  ℕ, zero, suc, ◌≤◌, ◌≡◌, ◌⊎◌, inl, inr, refl, sym, Bool, true, false, ◌||◌, ◌&&◌, not, ◌-◌, arith,
  Bool-cases,
}
use spoutbreeze_backend.Notifications.Delivery.{
  Send, is_sent, Delivery, deliver, deliver_from, max_retries,
}

-- No attempt up to this one sends.
abbrev pub none_up_to : ℕ → (ℕ → Send) → Bool
none_up_to zero send = true
none_up_to (suc n) send = not (is_sent (send (suc n))) && none_up_to n send

-- What is promised of a delivery.
abbrev pub Promised : (ℕ → Send) → Delivery → Type 0
Promised send d =
    (1 ≤ d.attempts)
    × (d.attempts ≤ max_retries)
    × (d.waited ≤ 6)
    × (d.success ≡ (is_sent (send 1) || (is_sent (send 2) || is_sent (send 3))))
    × (is_sent (send d.attempts) ≡ d.success)
    × (none_up_to (d.attempts - 1) send ≡ true)

-- A delivery that is known to end so.
ends_so :
    (send : ℕ → Send) (s : Bool) (n k : ℕ)
    → deliver send ≡ record { success = s; attempts = n; waited = k }
    → Promised send (record { success = s; attempts = n; waited = k })
    → Promised send (deliver send)
ends_so send s n k q h = subst (Promised send) (sym q) h

-- A delivery makes between one and three attempts and waits six seconds at most. It succeeds
-- exactly when one of the first three attempts sends; no attempt before the last one has sent, and
-- the last one has exactly when the delivery succeeds.
pub deliver_bounds : (send : ℕ → Send) → Promised send (deliver send)
unfolding deliver deliver_from
deliver_bounds send = elim (Bool-cases (is_sent (send 1))) [
  | inl a ↦
      ends_so send true 1 0 (ground (arith, a))
        (omega arith, omega arith, omega arith, ground (arith, a), a, refl)
  | inr a ↦ elim (Bool-cases (is_sent (send 2))) [
    | inl b ↦
        ends_so send true 2 2 (ground (arith, a, b))
          (omega arith, omega arith, omega arith, ground (arith, b), b, ground (arith, a))
    | inr b ↦ last a b (Bool-cases (is_sent (send 3)))
  ]
]
  where
    last :
        is_sent (send 1) ≡ false
        → is_sent (send 2) ≡ false
        → (is_sent (send 3) ≡ true) ⊎ (is_sent (send 3) ≡ false)
        → Promised send (deliver send)
    last a b (inl c) =
        ends_so send true 3 6 (ground (arith, a, b, c))
          (omega arith, omega arith, omega arith, ground (arith, c), c, ground (arith, a, b))
    last a b (inr c) =
        ends_so send false 3 6 (ground (arith, a, b, c))
          (omega arith, omega arith, omega arith, ground (arith, a, b, c), c, ground (arith, a, b))
