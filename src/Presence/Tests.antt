-- ===== src/Presence/Tests.antt =====
-- Two tabs of a user, and another process.
use spoutbreeze_backend.Prelude.{ℕ, ◌≡◌, refl, Bool, false, ltb, ◌&&◌, some, List, [], ◌∷◌, ◌==◌}
use spoutbreeze_backend.Presence.{
  Presence, connect, disconnect, send_to_user, is_user_online, is_user_connected_locally, sadd,
  disconnect_all, broadcast, remove_first, smembers,
}
use spoutbreeze_backend.Presence.InStep.{
  Call, opens, sends, run, waits, beginning, is_user_online-run,
}

abbrev start : Presence
start = beginning 100

abbrev tabs : List Call
tabs = opens 1 10 ∷ opens 1 11 ∷ opens 2 20 ∷ []

abbrev second_fails : ℕ → Bool
second_fails w = w == 11

abbrev two_tabs : Presence
two_tabs = record {
  connections = record { key = 1; value = 10 ∷ 11 ∷ [] } ∷ record { key = 2; value = 20 ∷ [] } ∷ [];
  online = some (2 ∷ 1 ∷ []);
  clock = 100;
  runs_out = 3700;
}

run-tabs : run tabs start ≡ two_tabs
unfolding connect sadd
run-tabs = refl

broadcast_two : (broadcast second_fails two_tabs).0 ≡ 2
unfolding broadcast send_to_user disconnect_all disconnect
broadcast_two = refl

abbrev hour : List Call
hour = opens 1 10 ∷ waits 600 ∷ opens 1 11 ∷ sends second_fails 1 ∷ waits 3600 ∷ []

-- Nobody connects for an hour.
is_user_online-run_example :
    let p = run hour start in
    is_user_online 1 p ≡ (ltb p.clock p.runs_out && is_user_connected_locally 1 p)
unfolding connect send_to_user
is_user_online-run_example = is_user_online-run hour 1 100 (refl, (refl, tt))

-- The user is still connected.
offline_after_hour : is_user_online 1 (run hour start) ≡ false
unfolding is_user_online connect send_to_user disconnect_all disconnect remove_first smembers
offline_after_hour = refl
