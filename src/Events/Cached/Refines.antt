-- ===== src/Events/Cached/Refines.antt =====
-- The cache before the events does not show, but for single events.
use spoutbreeze_backend.Prelude.{
  ℕ, ◌≡◌, inl, inr, refl, Bool, true, false, ◌&&◌, Option, List, [], String, eq_iff, arith, ◌∙◌,
  ◌==◌, find?, Option-cases,
}
use spoutbreeze_backend.Prelude.Session.{Outcome, open_on}
use spoutbreeze_backend.Cache.Through.{World, Request, on_session, cached}
use spoutbreeze_backend.Cache.Through.Serving.{Serves, Coherent, on_session-Serves, cached-Serves}
use spoutbreeze_backend.Cache.Through.Runs.{
  Undone, Undone-answered, run_through, run_plain, Along, Matches, Serves-Matches, write-Matches,
  drop_keys-Matches, run_through-run_plain,
}
use spoutbreeze_backend.Events.Store.{EventStatus, same_status, Tables, event_by_id}
use spoutbreeze_backend.Events.Channels.{
  get_channel_by_id, get_channels_by_user_id, get_channel_by_name,
}
use spoutbreeze_backend.Events.Forms.{EventUpdate}
use spoutbreeze_backend.Events.Meetings.{end_meeting}
use spoutbreeze_backend.Events.Service.{end_event, update_event, delete_event}
use spoutbreeze_backend.Events.Queries.{
  get_events_by_status, get_event_by_id, get_all_events, get_events_by_channel_id, join_event,
}
use spoutbreeze_backend.Events.Cached.{
  Key, same, same_user, Answer, is_value, read, once_cached, read_cached, drops, Write, create_of,
  start_of, end_of, update_of, delete_of, create_channel_of, update_channel_of, delete_channel_of,
  write, write_cached, Call, asks, writes, expires, perform, perform_cached,
}

update-Undone : (k : ℕ) (c : EventUpdate) (u : ℕ) (d : Tables) → Undone (update_event k c u) d
unfolding update_event
update-Undone k c u d e h =
    elim (Option-cases (find? (λ e. e.id == k && e.creator_id == u) d.events)) [
      | inl g ↦ ground (arith, g, h)
      | inr (x, g) ↦ ground (arith, g, h)
    ]

delete-Undone : (k u : ℕ) (d : Tables) → Undone (delete_event k u) d
unfolding delete_event
delete-Undone k u d e h = elim (Option-cases (event_by_id k d)) [
  | inl g ↦ ground (arith, g, h)
  | inr (x, g) ↦ ground (arith, g, h)
]

end-Undone : (now k u : ℕ) (a : Option Bool) (d : Tables) → Undone (end_event now k u a) d
unfolding end_event end_meeting
end-Undone now k u a d e h =
    elim (Option-cases (find? (λ e. e.id == k && e.creator_id == u) d.events)) [
      | inl g ↦ ground (arith, g, h)
      | inr (x, g) ↦ ground (arith, g, h)
    ]

same_status_sound : (s t : EventStatus) → same_status s t ≡ true → s ≡ t
same_status_sound s t h = ground (arith, h)

same_user_sound : (u v : Option ℕ) → same_user u v ≡ true → u ≡ v
same_user_sound u v h = ground (arith, h)

-- The text in a key.
abbrev pub text_of : Key → String
text_of (Key.events_join k name) = name
text_of (Key.channels_by_name name u) = name
text_of _ = ""

pub same_sound : (j k : Key) → same j k ≡ true → j ≡ k
same_sound j k h = ground (arith, h, eq_iff (text_of j) (text_of k))

abbrev pub truth : Key → Tables → Outcome Answer
truth k d = (read k (open_on d)).0

-- Reads leave the tables as they are.
read_keeps : (k : Key) (d : Tables) → (read k (open_on d)).1.durable ≡ d
unfolding get_events_by_status get_event_by_id get_all_events get_events_by_channel_id join_event
    get_channel_by_id get_channels_by_user_id get_channel_by_name
read_keeps k d = ground arith

module _ (dropped : Key → Bool) where
  abbrev Right : Request Tables Key Answer Answer → Key → Type 0
  Right = Serves same same_sound truth dropped

  once-Right : (k : Key) → Right (once_cached k) k
  once-Right k =
      cached-Serves same same_sound truth dropped is_value k (on_session (read k))
        (on_session-Serves same same_sound truth dropped (read k) k (λ d. refl) (read_keeps k))

  -- What serves a key serves another that stands for the same.
  twice-Right :
      (j k : Key)
      → ((d : Tables) → truth j d ≡ truth k d)
      → (dropped k ≡ true → dropped j ≡ true)
      → Right (cached same is_value k (once_cached j)) k
  twice-Right j k t h =
      let s = once-Right j in
      cached-Serves same same_sound truth dropped is_value k (once_cached j) (record {
        answers = λ w c p. s.answers w c (h p) ∙ t w.tables;
        keeps_tables = s.keeps_tables;
        keeps_cache = s.keeps_cache;
      })

-- The requests about events other than the one for a single event by its id.
abbrev pub is_listed : Key → Bool
is_listed Key.events_all = true
is_listed (Key.events_status st u) = true
is_listed (Key.events_upcoming u) = true
is_listed (Key.events_past u) = true
is_listed (Key.events_live u) = true
is_listed (Key.events_channel k) = true
is_listed (Key.events_join k name) = true
is_listed (Key.events_by_id k) = false
is_listed (Key.channels_user u) = false
is_listed (Key.channels_by_id k) = false
is_listed (Key.channels_by_name name u) = false

read_cached-Right : (k : Key) → Right is_listed (read_cached k) k
read_cached-Right (Key.events_upcoming u) =
    twice-Right is_listed (Key.events_status EventStatus.scheduled u) (Key.events_upcoming u)
      (λ d. refl) (λ p. refl)
read_cached-Right (Key.events_past u) =
    twice-Right is_listed (Key.events_status EventStatus.ended u) (Key.events_past u) (λ d. refl)
      (λ p. refl)
read_cached-Right (Key.events_live u) =
    twice-Right is_listed (Key.events_status EventStatus.live u) (Key.events_live u) (λ d. refl)
      (λ p. refl)
read_cached-Right Key.events_all = once-Right is_listed Key.events_all
read_cached-Right (Key.events_status st u) = once-Right is_listed (Key.events_status st u)
read_cached-Right (Key.events_by_id k) = once-Right is_listed (Key.events_by_id k)
read_cached-Right (Key.events_channel k) = once-Right is_listed (Key.events_channel k)
read_cached-Right (Key.events_join k name) = once-Right is_listed (Key.events_join k name)
read_cached-Right (Key.channels_user u) = once-Right is_listed (Key.channels_user u)
read_cached-Right (Key.channels_by_id k) = once-Right is_listed (Key.channels_by_id k)
read_cached-Right (Key.channels_by_name name u) = once-Right is_listed (Key.channels_by_name name u)

-- The calls of events, but for asking for one by its id. A creation and a start that raise have
-- left the tables as they were.
abbrev pub Covered : Call → Tables → Type 0
Covered (asks k) d = is_listed k ≡ true
Covered (writes (create_of f e u)) d = Undone (write (create_of f e u)) d
Covered (writes (start_of now k u g a)) d = Undone (write (start_of now k u g a)) d
Covered (writes (end_of now k u a)) d = Unit
Covered (writes (update_of k c u)) d = Unit
Covered (writes (delete_of k u)) d = Unit
Covered (writes c) d = false ≡ true
Covered (expires p) d = Unit

Covered-Undone : (c : Write) (d : Tables) → Covered (writes c) d → Undone (write c) d
Covered-Undone (create_of f e u) d h = h
Covered-Undone (start_of now k u g a) d h = h
Covered-Undone (end_of now k u a) d h =
    Undone-answered _ (end_event now k u a) d (end-Undone now k u a d)
Covered-Undone (update_of k c u) d h =
    Undone-answered _ (update_event k c u) d (update-Undone k c u d)
Covered-Undone (delete_of k u) d h = Undone-answered _ (delete_event k u) d (delete-Undone k u d)
Covered-Undone (create_channel_of k name u) d h = ground (arith, h)
Covered-Undone (update_channel_of k name u) d h = ground (arith, h)
Covered-Undone (delete_channel_of k u) d h = ground (arith, h)

Covered-drops :
    (c : Write) (d : Tables)
    → Covered (writes c) d
    → (k : Key) → is_listed k ≡ true
    → drops c k ≡ true
Covered-drops c d h k e = ground (arith, h, e)

perform-Matches :
    (c : Call) (w : World Tables Key Answer)
    → Covered c w.tables
    → Coherent same same_sound truth is_listed w
    → Matches same same_sound truth is_listed (perform_cached c w) (perform c w.tables)
unfolding write_cached
perform-Matches (asks k) w p h =
    Serves-Matches same same_sound truth is_listed (read_cached k) k w (read_cached-Right k) p h
perform-Matches (writes c) w p h =
    write-Matches same same_sound truth is_listed (drops c) (write c) w (Covered-drops c w.tables p)
      (Covered-Undone c w.tables p) h
perform-Matches (expires p) w u h = drop_keys-Matches same same_sound truth is_listed _ p w h

-- Any calls of the event service, but those that ask for one event by its id, are answered through
-- the cache, empty at first, as without it: lists by status, time and channel and the requests to
-- join, with changes, and entries that run out, between them. The creations and starts among them
-- that raise leave the tables as they were.
pub perform_cached-run_plain :
    (cs : List Call) (d : Tables)
    → Along perform Covered cs d
    → run_through perform_cached cs (record { tables = d; entries = [] }) ≡ run_plain perform cs d
perform_cached-run_plain cs d p =
    run_through-run_plain same same_sound truth is_listed perform_cached perform Covered
      perform-Matches cs (record { tables = d; entries = [] }) d refl p tt
