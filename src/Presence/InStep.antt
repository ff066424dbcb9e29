-- ===== src/Presence/InStep.antt =====
-- The shared set of online users against the connections, while one process serves all users.
use mathlib.Core.Path.{subst}
use spoutbreeze_backend.Prelude.{
  ℕ, ◌≡◌, ◌≢◌, refl, ap, Option-cases, ◌∙◌, sym, Bool, true, false, Option, none, some, List, [],
  ◌∷◌, ◌++◌, arith, ◌==◌, ==-refl, if◌then◌else◌, not, Bool-cases, inl, inr, elem, keep, is_some,
  map, ltb, ◌+◌, ◌&&◌,
}
use spoutbreeze_backend.Presence.{
  Presence, connect, disconnect, disconnect_all, send_to_user, broadcast, settle, or_empty,
  remove_first, sadd, srem, smembers, is_user_online, is_user_connected_locally, send_to_each,
  stored_set, emptied, online_set_ttl,
}
use spoutbreeze_backend.Prelude.Dict.{
  Entry, get, put, del, get-put_self, get-put_ne, get-del_self, get-del_ne,
}

-- The users of the shared set are those with a connection, and no user has an empty list.
pub record InStep (p : Presence) : Type 0 where
  pub available : is_some p.online ≡ true
  pub same : (u : ℕ) → elem u (smembers p.online) ≡ is_some (get u p.connections)
  pub nonempty : (u : ℕ) → get u p.connections ≢ some []

elem-sadd :
    (u v : ℕ) (o : Option (List ℕ))
    → is_some o ≡ true
    → elem v (smembers (sadd u o)) ≡ (if v == u then true else elem v (smembers o))
unfolding sadd smembers
elem-sadd u v none h = cc
elem-sadd u v (some us) h = elim (Bool-cases (v == u)) [
  | inl g ↦ let q : v ≡ u = ground arith in rw q (ground (arith, ==-refl u))
  | inr g ↦ ground arith
]

elem-keep :
    (u v : ℕ) (us : List ℕ)
    → elem v (keep (λ w. not (w == u)) us) ≡ (if v == u then false else elem v us)
elem-keep u v [] = ground arith
elem-keep u v (w ∷ us) = ground (arith, elem-keep u v us)

pub elem-srem :
    (u v : ℕ) (o : Option (List ℕ))
    → elem v (smembers (srem u o)) ≡ (if v == u then false else elem v (smembers o))
unfolding srem smembers
elem-srem u v none = ground arith
elem-srem u v (some us) = elem-keep u v us

append_nonempty : (ws : List ℕ) (w : ℕ) → ws ++ (w ∷ []) ≢ []
append_nonempty [] w h = cc
append_nonempty (x ∷ ws) w h = cc

-- The lists after an assignment, and after a deletion.
put-nonempty :
    (u v : ℕ) (ws : List ℕ) (es : List (Entry (List ℕ)))
    → ws ≢ []
    → get v es ≢ some []
    → get v (put u ws es) ≢ some []
put-nonempty u v ws es h n q = elim (Bool-cases (v == u)) [
  | inl g ↦
      let i : v ≡ u = ground arith in
      let s = get-put_self u ws es in
      let q' : get u (put u ws es) ≡ some [] = subst (λ j. get j (put u ws es) ≡ some []) i q in
      let e : ws ≡ [] = cc in h e
  | inr g ↦ n (sym (get-put_ne u v ws es g) ∙ q)
]

del-nonempty :
    (u v : ℕ) (es : List (Entry (List ℕ))) → get v es ≢ some [] → get v (del u es) ≢ some []
del-nonempty u v es n q = elim (Bool-cases (v == u)) [
  | inl g ↦
      let i : v ≡ u = ground arith in
      let s = get-del_self u es in
      let q' : get u (del u es) ≡ some [] = subst (λ j. get j (del u es) ≡ some []) i q in cc
  | inr g ↦ n (sym (get-del_ne u v es g) ∙ q)
]

is_some-put :
    (u v : ℕ) (ws : List ℕ) (es : List (Entry (List ℕ)))
    → is_some (get v (put u ws es)) ≡ (if v == u then true else is_some (get v es))
is_some-put u v ws es = elim (Bool-cases (v == u)) [
  | inl g ↦ let i : v ≡ u = ground arith in rw g (rw i (rw (get-put_self u ws es) refl))
  | inr g ↦ rw g (rw (get-put_ne u v ws es g) refl)
]

is_some-del :
    (u v : ℕ) (es : List (Entry (List ℕ)))
    → is_some (get v (del u es)) ≡ (if v == u then false else is_some (get v es))
is_some-del u v es = elim (Bool-cases (v == u)) [
  | inl g ↦ let i : v ≡ u = ground arith in rw g (rw i (rw (get-del_self u es) refl))
  | inr g ↦ rw g (rw (get-del_ne u v es g) refl)
]

is_some-sadd : (u : ℕ) (o : Option (List ℕ)) → is_some (sadd u o) ≡ is_some o
unfolding sadd
is_some-sadd u none = refl
is_some-sadd u (some us) = refl

is_some-srem : (u : ℕ) (o : Option (List ℕ)) → is_some (srem u o) ≡ is_some o
unfolding srem
is_some-srem u none = refl
is_some-srem u (some us) = refl

connect-InStep :
    (u w : ℕ) (p : Presence) → ltb p.clock p.runs_out ≡ true → InStep p → InStep (connect u w p)
unfolding connect
connect-InStep u w p alive i =
    let at : stored_set p ≡ p.online = rw alive refl in
    let ws = or_empty (get u p.connections) ++ (w ∷ []) in
    record {
      available = ap (λ o. is_some (sadd u o)) at ∙ is_some-sadd u p.online ∙ i.available;
      same = λ v.
          ap (λ o. elem v (smembers (sadd u o))) at
          ∙ elem-sadd u v p.online i.available
          ∙ ap (λ b. if v == u then true else b) (i.same v)
          ∙ sym (is_some-put u v ws p.connections);
      nonempty = λ v.
          put-nonempty u v ws p.connections (append_nonempty (or_empty (get u p.connections)) w)
            (i.nonempty v);
    }

settle-InStep :
    (u : ℕ) (ws : List ℕ) (p : Presence)
    → is_user_connected_locally u p ≡ true
    → InStep p
    → InStep (settle u ws p)
unfolding is_user_connected_locally
settle-InStep u [] p c i = record {
  available = is_some-srem u p.online ∙ i.available;
  same = λ v.
      elem-srem u v p.online
      ∙ ap (λ b. if v == u then false else b) (i.same v)
      ∙ sym (is_some-del u v p.connections);
  nonempty = λ v. del-nonempty u v p.connections (i.nonempty v);
}
settle-InStep u (w ∷ ws) p c i = record {
  available = i.available;
  same = λ v. i.same v ∙ stored v ∙ sym (is_some-put u v (w ∷ ws) p.connections);
  nonempty = λ v. put-nonempty u v (w ∷ ws) p.connections (λ h. cc) (i.nonempty v);
}
  where
    stored :
        (v : ℕ)
        → is_some (get v p.connections) ≡ (if v == u then true else is_some (get v p.connections))
    stored v = elim (Bool-cases (v == u)) [
      | inl g ↦ let q : v ≡ u = ground arith in rw g (ap (λ j. is_some (get j p.connections)) q ∙ c)
      | inr g ↦ rw g refl
    ]

disconnect-InStep : (u w : ℕ) (p : Presence) → InStep p → InStep (disconnect u w p)
unfolding disconnect
disconnect-InStep u w p i = elim (Option-cases (get u p.connections)) [
  | inl h ↦ rw (disconnect, h) i
  | inr (old, h) ↦
      rw (disconnect, h)
        (settle-InStep u (remove_first w old) p (unfold is_user_connected_locally in ap is_some h)
          i)
]

disconnect_all-InStep :
    (u : ℕ) (ws : List ℕ) (p : Presence) → InStep p → InStep (disconnect_all u ws p)
unfolding disconnect_all
disconnect_all-InStep u [] p i = i
disconnect_all-InStep u (w ∷ ws) p i =
    disconnect_all-InStep u ws (disconnect u w p) (disconnect-InStep u w p i)

send_to_user-InStep :
    (fails : ℕ → Bool) (u : ℕ) (p : Presence) → InStep p → InStep (send_to_user fails u p).1
unfolding send_to_user
send_to_user-InStep fails u p i =
    disconnect_all-InStep u (keep fails (or_empty (get u p.connections))) p i

send_to_each-InStep :
    (fails : ℕ → Bool) (us : List ℕ) (p : Presence) → InStep p → InStep (send_to_each fails us p).1
send_to_each-InStep fails [] p i = i
send_to_each-InStep fails (u ∷ us) p i =
    send_to_each-InStep fails us (send_to_user fails u p).1 (send_to_user-InStep fails u p i)

-- What may happen to the manager.
pub data Call : Type 0 where
  opens closes : ℕ → ℕ → Call
  sends : (ℕ → Bool) → ℕ → Call
  broadcasts : (ℕ → Bool) → Call
  waits : ℕ → Call

abbrev pub run : List Call → Presence → Presence
run [] p = p
run (opens u w ∷ cs) p = run cs (connect u w p)
run (closes u w ∷ cs) p = run cs (disconnect u w p)
run (sends fails u ∷ cs) p = run cs (send_to_user fails u p).1
run (broadcasts fails ∷ cs) p = run cs (broadcast fails p).1
run (waits n ∷ cs) p = run cs (record p { clock = p.clock + n })

-- The set is there whenever a user connects.
abbrev pub Timely : List Call → Presence → Type 0
Timely [] p = Unit
Timely (opens u w ∷ cs) p = (ltb p.clock p.runs_out ≡ true) × Timely cs (connect u w p)
Timely (closes u w ∷ cs) p = Timely cs (disconnect u w p)
Timely (sends fails u ∷ cs) p = Timely cs (send_to_user fails u p).1
Timely (broadcasts fails ∷ cs) p = Timely cs (broadcast fails p).1
Timely (waits n ∷ cs) p = Timely cs (record p { clock = p.clock + n })

run-InStep : (cs : List Call) (p : Presence) → Timely cs p → InStep p → InStep (run cs p)
unfolding broadcast
run-InStep [] p h i = i
run-InStep (opens u w ∷ cs) p h i = run-InStep cs (connect u w p) h.1 (connect-InStep u w p h.0 i)
run-InStep (closes u w ∷ cs) p h i = run-InStep cs (disconnect u w p) h (disconnect-InStep u w p i)
run-InStep (sends fails u ∷ cs) p h i =
    run-InStep cs (send_to_user fails u p).1 h (send_to_user-InStep fails u p i)
run-InStep (broadcasts fails ∷ cs) p h i =
    run-InStep cs (broadcast fails p).1 h
      (send_to_each-InStep fails (map (λ e. e.key) p.connections) p i)
run-InStep (waits n ∷ cs) p h i =
    run-InStep cs (record p { clock = p.clock + n }) h
      (record { available = i.available; same = i.same; nonempty = i.nonempty })

-- No connection yet, and a set that lasts for an hour.
abbrev pub beginning : ℕ → Presence
beginning now = record {
  connections = [];
  online = some [];
  clock = now;
  runs_out = now + online_set_ttl;
}

smembers-emptied : (o : Option (List ℕ)) → smembers (emptied o) ≡ []
unfolding smembers
smembers-emptied none = refl
smembers-emptied (some us) = refl

-- While one process serves all users and Redis answers, a user is online exactly when the process
-- has a connection of that user and less than an hour has passed since anyone last connected: after
-- any connections, disconnections, messages, broadcasts and waiting from an empty start, whichever
-- sockets fail, if whoever connects does so within the hour of the connection before.
pub is_user_online-run :
    (cs : List Call) (u now : ℕ)
    → Timely cs (beginning now)
    → let p = run cs (beginning now) in
      is_user_online u p ≡ (ltb p.clock p.runs_out && is_user_connected_locally u p)
unfolding is_user_online is_user_connected_locally smembers
is_user_online-run cs u now h =
    let p = run cs (beginning now) in
    let same = (run-InStep cs (beginning now) h empty_InStep).same u in
    elim (Bool-cases (ltb p.clock p.runs_out)) [
      | inl e ↦ rw e same
      | inr e ↦ rw e (ap (elem u) (smembers-emptied p.online))
    ]
  where
    empty_InStep : InStep (beginning now)
    empty_InStep = record { available = refl; same = λ v. refl; nonempty = λ v h. cc }
