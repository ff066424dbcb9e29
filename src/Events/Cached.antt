-- ===== src/Events/Cached.antt =====
-- `EventServiceCached` of app/services/cached/event_service_cached.py and `ChannelsServiceCached`
-- of app/services/cached/channels_service_cached.py, which share one cache. Joining is for a given
-- name; the listing of all channels and the recordings are left out.
pub mod Refines
pub mod Stale
use spoutbreeze_backend.Prelude.{
  ℕ, Bool, true, false, Option, none, some, List, [], ◌∷◌, String, ◌==◌, ◌&&◌, ◌||◌, str_eq,
  is_some,
}
use spoutbreeze_backend.Prelude.Session.{Action, Outcome, ok, raised, open_on}
use spoutbreeze_backend.Cache.Through.{
  World, Request, answered, on_session, then_drop, drop_keys, cached,
}
use spoutbreeze_backend.Cache.Through.Runs.{request}
use spoutbreeze_backend.Events.Store.{EventStatus, same_status, Event, Channel, Tables}
use spoutbreeze_backend.Events.Channels.{
  ChannelResponse, create_channel, get_channel_by_name, get_channels_by_user_id, get_channel_by_id,
  update_channel, delete_channel,
}
use spoutbreeze_backend.Events.Forms.{EventCreate, EventUpdate, Fresh}
use spoutbreeze_backend.Events.Meetings.{JoinRequest}
use spoutbreeze_backend.Events.Service.{
  create_event, start_event, end_event, update_event, delete_event,
}
use spoutbreeze_backend.Events.Queries.{
  get_events_by_status, get_upcoming_events, get_past_events, get_live_events, get_event_by_id,
  get_all_events, get_events_by_channel_id, join_event,
}

-- The keys: a prefix and the arguments.
pub data Key : Type 0 where
  events_all : Key
  events_status : EventStatus → Option ℕ → Key
  events_upcoming : Option ℕ → Key
  events_past : Option ℕ → Key
  events_live : Option ℕ → Key
  events_by_id : ℕ → Key
  events_channel : ℕ → Key
  events_join : ℕ → String → Key
  channels_user : ℕ → Key
  channels_by_id : ℕ → Key
  channels_by_name : String → ℕ → Key

abbrev pub same_user : Option ℕ → Option ℕ → Bool
same_user none none = true
same_user (some u) (some v) = u == v
same_user _ _ = false

abbrev pub same : Key → Key → Bool
same Key.events_all Key.events_all = true
same (Key.events_status s u) (Key.events_status t v) = same_status s t && same_user u v
same (Key.events_upcoming u) (Key.events_upcoming v) = same_user u v
same (Key.events_past u) (Key.events_past v) = same_user u v
same (Key.events_live u) (Key.events_live v) = same_user u v
same (Key.events_by_id k) (Key.events_by_id j) = k == j
same (Key.events_channel k) (Key.events_channel j) = k == j
same (Key.events_join k x) (Key.events_join j y) = k == j && str_eq x y
same (Key.channels_user u) (Key.channels_user v) = u == v
same (Key.channels_by_id k) (Key.channels_by_id j) = k == j
same (Key.channels_by_name x u) (Key.channels_by_name y v) = str_eq x y && u == v
same _ _ = false

pub data Answer : Type 0 where
  events : List Event → Answer
  event : Event → Answer
  urls : JoinRequest × JoinRequest → Answer
  channels : List ChannelResponse → Answer
  channel : Option ChannelResponse → Answer
  named : Option Channel → Answer
  created : Event × List ℕ → Answer
  started : JoinRequest → Answer
  updated : List ℕ → Answer
  deleted : Bool → Answer
  done : Answer

-- None is no hit.
abbrev pub is_value : Answer → Bool
is_value (channel c) = is_some c
is_value (named c) = is_some c
is_value _ = true

-- The reads of the services that are inherited from.
abbrev pub read : Key → Action Tables Answer
read Key.events_all = answered events get_all_events
read (Key.events_status st u) = answered events (get_events_by_status st u)
read (Key.events_upcoming u) = answered events (get_upcoming_events u)
read (Key.events_past u) = answered events (get_past_events u)
read (Key.events_live u) = answered events (get_live_events u)
read (Key.events_by_id k) = answered event (get_event_by_id k)
read (Key.events_channel k) = answered events (get_events_by_channel_id k)
read (Key.events_join k name) = answered urls (join_event k name)
read (Key.channels_user u) = answered channels (get_channels_by_user_id u)
read (Key.channels_by_id k) = answered channel (get_channel_by_id k)
read (Key.channels_by_name name u) = answered named (get_channel_by_name name u)

abbrev pub once_cached : Key → Request Tables Key Answer Answer
once_cached k = cached same is_value k (on_session (read k))

-- The lists by time ask the cached list by status.
abbrev pub read_cached : Key → Request Tables Key Answer Answer
read_cached (Key.events_upcoming u) =
    cached same is_value (Key.events_upcoming u)
      (once_cached (Key.events_status EventStatus.scheduled u))
read_cached (Key.events_past u) =
    cached same is_value (Key.events_past u) (once_cached (Key.events_status EventStatus.ended u))
read_cached (Key.events_live u) =
    cached same is_value (Key.events_live u) (once_cached (Key.events_status EventStatus.live u))
read_cached k = once_cached k

-- `_invalidate_after_change` of the events. The pattern for an id matches no key: the id stands in
-- a key only inside a hash.
abbrev pub drops_events : Key → Bool
drops_events (Key.events_by_id k) = false
drops_events (Key.channels_user u) = false
drops_events (Key.channels_by_id k) = false
drops_events (Key.channels_by_name name u) = false
drops_events _ = true

-- `_invalidate_after_change` of the channels
abbrev pub drops_channels : Key → Bool
drops_channels (Key.channels_user u) = true
drops_channels (Key.channels_by_id k) = true
drops_channels (Key.channels_by_name name u) = true
drops_channels _ = false

pub data Write : Type 0 where
  create_of : Fresh → EventCreate → ℕ → Write
  start_of : ℕ → ℕ → ℕ → String → Option String → Write
  end_of : ℕ → ℕ → ℕ → Option Bool → Write
  update_of : ℕ → EventUpdate → ℕ → Write
  delete_of : ℕ → ℕ → Write
  create_channel_of : ℕ → String → ℕ → Write
  update_channel_of : ℕ → Option String → ℕ → Write
  delete_channel_of : ℕ → ℕ → Write

abbrev pub write : Write → Action Tables Answer
write (create_of f e u) = answered created (create_event f e u)
write (start_of now k u g a) = answered started (start_event now k u g a)
write (end_of now k u a) = answered (λ x. done) (end_event now k u a)
write (update_of k c u) = answered updated (update_event k c u)
write (delete_of k u) = answered (λ x. done) (delete_event k u)
write (create_channel_of k name u) = answered (λ c. channel (some c)) (create_channel k name u)
write (update_channel_of k name u) = answered channel (update_channel k name u)
write (delete_channel_of k u) = answered deleted (delete_channel k u)

-- The keys that a write drops when it ends well; a new event drops those of channels too.
abbrev pub drops : Write → Key → Bool
drops (create_of f e u) k = drops_events k || drops_channels k
drops (create_channel_of j name u) k = drops_channels k
drops (update_channel_of j name u) k = drops_channels k
drops (delete_channel_of j u) k = drops_channels k
drops _ k = drops_events k

-- The writes of the cached services.
unfoldable pub write_cached : Write → Request Tables Key Answer Answer
write_cached c = then_drop (on_session (write c)) (drops c)

-- What may happen: a read, a write, and that entries run out.
pub data Call : Type 0 where
  asks : Key → Call
  writes : Write → Call
  expires : (Key → Bool) → Call

-- A call with the cache, and one of the services that are inherited from.
abbrev pub perform_cached : Call → Request Tables Key Answer Answer
perform_cached (asks k) w = read_cached k w
perform_cached (writes c) w = write_cached c w
perform_cached (expires p) w = (ok done, drop_keys p w)

abbrev pub perform : Call → Tables → Outcome Answer × Tables
perform (asks k) d = ((read k (open_on d)).0, d)
perform (writes c) d = request (write c) d
perform (expires p) d = (ok done, d)
