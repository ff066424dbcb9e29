-- ===== src/Presence.antt =====
-- `NotificationWSManager` of app/config/notification_ws_manager.py: the connections of one process,
-- and the set of online users in Redis, which every process shares, with its life time. Which
-- sockets fail at a send is an input.
pub mod InStep
pub mod Delivery
mod Tests
use spoutbreeze_backend.Prelude.{
  ℕ, Bool, true, false, Option, none, some, List, [], ◌∷◌, ◌++◌, ◌==◌, ◌||◌, not, is_some, elem,
  ltb, ◌+◌, keep, if◌then◌else◌, suc, map,
}
use spoutbreeze_backend.Prelude.Dict.{Entry, get, put, del}

-- The connections of this process by user, and the shared set, none while Redis is not connected.
pub record Presence : Type 0 where
  pub connections : List (Entry (List ℕ))
  pub online : Option (List ℕ)
  -- the time, and when the set runs out
  pub clock : ℕ
  pub runs_out : ℕ

-- `cache.sadd`, `cache.srem` and `cache.smembers` of app/config/redis_config.py on the set.
unfoldable pub sadd : ℕ → Option (List ℕ) → Option (List ℕ)
sadd u none = none
sadd u (some us) = some (if elem u us then us else u ∷ us)

unfoldable pub srem : ℕ → Option (List ℕ) → Option (List ℕ)
srem u none = none
srem u (some us) = some (keep (λ v. not (v == u)) us)

unfoldable pub smembers : Option (List ℕ) → List ℕ
smembers none = []
smembers (some us) = us

-- `_ONLINE_SET_TTL`
abbrev pub online_set_ttl : ℕ
online_set_ttl = 3600

abbrev pub emptied : Option (List ℕ) → Option (List ℕ)
emptied none = none
emptied (some us) = some []

-- The set as Redis has it: once its life time is over it is gone.
abbrev pub stored_set : Presence → Option (List ℕ)
stored_set p = if ltb p.clock p.runs_out then p.online else emptied p.online

abbrev pub or_empty : Option (List ℕ) → List ℕ
or_empty none = []
or_empty (some ws) = ws

-- `connect`
unfoldable pub connect : ℕ → ℕ → Presence → Presence
unfolding sadd
connect u ws p = record {
  connections = put u (or_empty (get u p.connections) ++ (ws ∷ [])) p.connections;
  online = sadd u (stored_set p);
  clock = p.clock;
  runs_out = p.clock + online_set_ttl;
}

-- `list.remove` under `suppress(ValueError)`: the first occurrence, if there is one.
unfoldable pub remove_first : ℕ → List ℕ → List ℕ
remove_first w [] = []
remove_first w (x ∷ xs) = let rest = remove_first w xs in if x == w then xs else x ∷ rest

-- The connections that are left are stored; with none left the user is taken out.
abbrev pub settle : ℕ → List ℕ → Presence → Presence
settle u [] p = record p { connections = del u p.connections; online = srem u p.online }
settle u (w ∷ ws) p = record p { connections = put u (w ∷ ws) p.connections }

-- `disconnect`
unfoldable pub disconnect : ℕ → ℕ → Presence → Presence
unfolding remove_first srem
disconnect u ws p = elim (get u p.connections) [
  | none ↦ p
  | some old ↦ settle u (remove_first ws old) p
]

-- `is_user_online`
unfoldable pub is_user_online : ℕ → Presence → Bool
unfolding smembers
is_user_online u p = elem u (smembers (stored_set p))

-- `is_user_connected_locally`
unfoldable pub is_user_connected_locally : ℕ → Presence → Bool
is_user_connected_locally u p = is_some (get u p.connections)

-- The loop over the broken connections.
unfoldable pub disconnect_all : ℕ → List ℕ → Presence → Presence
disconnect_all u [] p = p
disconnect_all u (w ∷ ws) p = disconnect_all u ws (disconnect u w p)

abbrev pub any_ok : (ℕ → Bool) → List ℕ → Bool
any_ok fails [] = false
any_ok fails (w ∷ ws) = not (fails w) || any_ok fails ws

-- `send_to_user`: whether a connection received the message.
unfoldable pub send_to_user : (ℕ → Bool) → ℕ → Presence → Bool × Presence
send_to_user fails u p =
    let ws = or_empty (get u p.connections) in (any_ok fails ws, disconnect_all u (keep fails ws) p)

abbrev pub send_to_each : (ℕ → Bool) → List ℕ → Presence → ℕ × Presence
send_to_each fails [] p = (0, p)
send_to_each fails (u ∷ us) p =
    let (got, p') = send_to_user fails u p in
    let (n, p'') = send_to_each fails us p' in (if got then suc n else n, p'')

-- `broadcast`: how many users received the message.
unfoldable pub broadcast : (ℕ → Bool) → Presence → ℕ × Presence
broadcast fails p = send_to_each fails (map (λ e. e.key) p.connections) p
