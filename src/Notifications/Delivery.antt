-- ===== src/Notifications/Delivery.antt =====
-- `deliver` of the two backends in app/services/notification_delivery.py: up to three attempts with
-- growing waits between them. How each attempt ends is an input.
pub mod Attempts
use spoutbreeze_backend.Prelude.{ℕ, zero, suc, ◌+◌, ◌*◌, Bool, true, false, ltb, if◌then◌else◌}

abbrev pub max_retries : ℕ
max_retries = 3

abbrev pub base_backoff_seconds : ℕ
base_backoff_seconds = 2

-- How `_send` ends.
pub data Send : Type 0 where
  sent not_sent raises : Send

abbrev pub is_sent : Send → Bool
is_sent Send.sent = true
is_sent _ = false

-- The answer, and the seconds of waiting.
pub record Delivery : Type 0 where
  pub success : Bool
  pub attempts : ℕ
  pub waited : ℕ

-- `base ** n`
abbrev pub power : ℕ → ℕ → ℕ
power b zero = 1
power b (suc n) = b * power b n

-- `if attempt < MAX_RETRIES: await asyncio.sleep(BASE_BACKOFF_SECONDS**attempt)`
abbrev pub wait_after : ℕ → ℕ
wait_after attempt = if ltb attempt max_retries then power base_backoff_seconds attempt else 0

-- The rounds that are left of the loop, from this attempt on.
unfoldable pub deliver_from : ℕ → ℕ → (ℕ → Send) → ℕ → Delivery
deliver_from zero attempt send waited = record {
  success = false;
  attempts = max_retries;
  waited = waited;
}
deliver_from (suc left) attempt send waited = elim (is_sent (send attempt)) [
  | true ↦ record { success = true; attempts = attempt; waited = waited }
  | false ↦ deliver_from left (suc attempt) send (waited + wait_after attempt)
]

-- `deliver`
unfoldable pub deliver : (ℕ → Send) → Delivery
unfolding deliver_from
deliver send = deliver_from max_retries 1 send 0
