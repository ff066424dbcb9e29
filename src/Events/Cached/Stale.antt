-- ===== src/Events/Cached/Stale.antt =====
-- How long an answer stands in the cache.
use spoutbreeze_backend.Prelude.{
  ℕ, ◌≡◌, refl, ap, sym, ◌∙◌, Bool, true, false, some, List, [], ◌∷◌, arith, All,
}
use text.Mathlib.TextPositions.{eq_refl}
use spoutbreeze_backend.Prelude.Session.{ok}
use spoutbreeze_backend.Cache.Through.{World, Request, on_session, hit, cached}
use spoutbreeze_backend.Cache.Through.Hits.{
  Holds, on_session-Holds, cached-Holds, drop_keys-Holds, then_drop-Holds, cached-hit,
  cached-stored,
}
use spoutbreeze_backend.Events.Store.{EventStatus, Event, Tables}
use spoutbreeze_backend.Events.Cached.{
  Key, same, Answer, event, events, is_value, read, once_cached, read_cached, drops, Write, write,
  write_cached, Call, asks, writes, expires, perform_cached,
}
use spoutbreeze_backend.Events.Cached.Refines.{same_sound, text_of}

abbrev pub drops_of : Call → Key → Bool
drops_of (asks j) k = false
drops_of (writes c) k = drops c k
drops_of (expires p) k = p k

abbrev pub after : List Call → World Tables Key Answer → World Tables Key Answer
after [] w = w
after (c ∷ cs) w = after cs (perform_cached c w).1

-- The request before the last cache of a key.
abbrev behind : Key → Request Tables Key Answer Answer
behind (Key.events_upcoming u) = once_cached (Key.events_status EventStatus.scheduled u)
behind (Key.events_past u) = once_cached (Key.events_status EventStatus.ended u)
behind (Key.events_live u) = once_cached (Key.events_status EventStatus.live u)
behind k = on_session (read k)

read_cached-behind : (k : Key) → read_cached k ≡ cached same is_value k (behind k)
read_cached-behind (Key.events_upcoming u) = refl
read_cached-behind (Key.events_past u) = refl
read_cached-behind (Key.events_live u) = refl
read_cached-behind Key.events_all = refl
read_cached-behind (Key.events_status st u) = refl
read_cached-behind (Key.events_by_id k) = refl
read_cached-behind (Key.events_channel k) = refl
read_cached-behind (Key.events_join k name) = refl
read_cached-behind (Key.channels_user u) = refl
read_cached-behind (Key.channels_by_id k) = refl
read_cached-behind (Key.channels_by_name name u) = refl

same_refl : (k : Key) → same k k ≡ true
same_refl k = ground (arith, eq_refl (text_of k))

module _ (k : Key) (a : Answer) where
  abbrev Stays : Request Tables Key Answer Answer → Type 0
  Stays = Holds same same_sound is_value k a

  once-Stays : (j : Key) → Stays (once_cached j)
  once-Stays j =
      cached-Holds same same_sound is_value k a j (on_session (read j))
        (on_session-Holds same same_sound is_value k a (read j))

  behind-Stays : (j : Key) → Stays (behind j)
  behind-Stays (Key.events_upcoming u) w h =
      once-Stays (Key.events_status EventStatus.scheduled u) w h
  behind-Stays (Key.events_past u) w h = once-Stays (Key.events_status EventStatus.ended u) w h
  behind-Stays (Key.events_live u) w h = once-Stays (Key.events_status EventStatus.live u) w h
  behind-Stays Key.events_all w h = h
  behind-Stays (Key.events_status st u) w h = h
  behind-Stays (Key.events_by_id j) w h = h
  behind-Stays (Key.events_channel j) w h = h
  behind-Stays (Key.events_join j name) w h = h
  behind-Stays (Key.channels_user u) w h = h
  behind-Stays (Key.channels_by_id j) w h = h
  behind-Stays (Key.channels_by_name name u) w h = h

  perform-Stays :
      (c : Call) (w : World Tables Key Answer)
      → drops_of c k ≡ false
      → hit same is_value k w.entries ≡ some a
      → hit same is_value k (perform_cached c w).1.entries ≡ some a
  unfolding write_cached
  perform-Stays (asks j) w n h =
      rw (ap (λ f. f w) (read_cached-behind j))
        (cached-Holds same same_sound is_value k a j (behind j) (behind-Stays j) w h)
  perform-Stays (writes c) w n h =
      then_drop-Holds same same_sound is_value k a (write c) (drops c) n w h
  perform-Stays (expires p) w n h = drop_keys-Holds same same_sound is_value k a p w n h

  after-Stays :
      (cs : List Call) (w : World Tables Key Answer)
      → All (λ c. drops_of c k ≡ false) cs
      → hit same is_value k w.entries ≡ some a
      → hit same is_value k (after cs w).entries ≡ some a
  after-Stays [] w n h = h
  after-Stays (c ∷ cs) w n h = after-Stays cs (perform_cached c w).1 n.1 (perform-Stays c w n.0 h)

  -- An answer that is a value stays through calls that do not drop its key.
  read_cached-after :
      (cs : List Call) (w : World Tables Key Answer)
      → is_value a ≡ true
      → (read_cached k w).0 ≡ ok a
      → All (λ c. drops_of c k ≡ false) cs
      → (read_cached k (after cs (read_cached k w).1)).0 ≡ ok a
  read_cached-after cs w v h n =
      let f = behind k in
      let b = read_cached-behind k in
      let s : hit same is_value k (read_cached k w).1.entries ≡ some a = rw (ap (λ f. f w) b) (
        cached-stored same same_sound is_value k a f w (same_refl k) v
          (sym (ap (λ g. (g w).0) b) ∙ h)) in
      let w' = after cs (read_cached k w).1 in
      let t = after-Stays cs (read_cached k w).1 n s in
      ap (λ g. (g w').0) b ∙ ap (λ r. r.0) (cached-hit same is_value k f w' a t)

-- No entry runs out.
abbrev pub IsLasting : Call → Type 0
IsLasting (expires p) = false ≡ true
IsLasting c = Unit

-- The deletion of a channel, or a request.
abbrev pub IsChannelEnd : Call → Type 0
IsChannelEnd (asks k) = Unit
IsChannelEnd (writes (Write.delete_channel_of k u)) = Unit
IsChannelEnd c = false ≡ true

by_id-kept : (c : Call) (k : ℕ) → IsLasting c → drops_of c (Key.events_by_id k) ≡ false
by_id-kept c k h = ground (arith, h)

all-kept : (c : Call) → IsChannelEnd c → drops_of c Key.events_all ≡ false
all-kept c h = ground (arith, h)

All-kept :
    (k : Key) (P : Call → Type 0)
    → ((c : Call) → P c → drops_of c k ≡ false)
    → (cs : List Call) → All P cs
    → All (λ c. drops_of c k ≡ false) cs
All-kept k P h [] a = tt
All-kept k P h (c ∷ cs) a = (h c a.0, All-kept k P h cs a.1)

-- An event that was answered by its id is answered again with the same row after any calls of the
-- event and channel services while no entry runs out, also after its change, its end and its
-- deletion.
pub get_event_by_id-stale :
    (k : ℕ) (e : Event) (cs : List Call) (w : World Tables Key Answer)
    → (read_cached (Key.events_by_id k) w).0 ≡ ok (event e)
    → All IsLasting cs
    → (read_cached (Key.events_by_id k) (after cs (read_cached (Key.events_by_id k) w).1)).0
      ≡ ok (event e)
get_event_by_id-stale k e cs w h a =
    let key = Key.events_by_id k in
    read_cached-after key (event e) cs w refl h
      (All-kept key IsLasting (λ c l. by_id-kept c k l) cs a)

-- The list of all events is answered as before after any deletions of channels, with which their
-- events are deleted, and any requests, while no entry runs out.
pub read_cached-stale_events :
    (es : List Event) (cs : List Call) (w : World Tables Key Answer)
    → (read_cached Key.events_all w).0 ≡ ok (events es)
    → All IsChannelEnd cs
    → (read_cached Key.events_all (after cs (read_cached Key.events_all w).1)).0 ≡ ok (events es)
read_cached-stale_events es cs w h a =
    read_cached-after Key.events_all (events es) cs w refl h
      (All-kept Key.events_all IsChannelEnd all-kept cs a)
