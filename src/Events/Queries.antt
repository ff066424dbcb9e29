-- ===== src/Events/Queries.antt =====
-- The calls of `EventService` in app/services/event_service.py that read events. A response is the
-- row of the event; the order of rows is that of the table.
pub mod Join
pub mod Lists
use spoutbreeze_backend.Prelude.{
  ℕ, Bool, true, false, Option, none, some, List, [], ◌∷◌, String, ◌==◌, ◌&&◌, ◌||◌, not, given,
  elem, find?, keep, if◌then◌else◌, is_some,
}
use spoutbreeze_backend.Prelude.Session.{
  Action, Outcome, ok, raised, Error, value_error, Session, pure, raise, raise_if, gets, ◌>>=◌,
  ◌>>◌,
}
use spoutbreeze_backend.Events.Store.{EventStatus, is_live, same_status, Event, Tables, event_by_id}
use spoutbreeze_backend.Events.Channels.{ChannelResponse, get_channel_by_id}
use spoutbreeze_backend.Events.Meetings.{JoinRequest, text_or, require_row}

-- The user is the creator or an organizer.
abbrev pub takes_part : Option ℕ → Event → Bool
takes_part none e = true
takes_part (some u) e = e.creator_id == u || elem u e.organizers

-- `get_events_by_status`
unfoldable pub get_events_by_status : EventStatus → Option ℕ → Action Tables (List Event)
get_events_by_status st user_id =
    gets (λ d. keep (λ e. same_status e.status st && takes_part user_id e) d.events)

-- `get_upcoming_events`, `get_past_events` and `get_live_events`
abbrev pub get_upcoming_events : Option ℕ → Action Tables (List Event)
get_upcoming_events = get_events_by_status EventStatus.scheduled

abbrev pub get_past_events : Option ℕ → Action Tables (List Event)
get_past_events = get_events_by_status EventStatus.ended

abbrev pub get_live_events : Option ℕ → Action Tables (List Event)
get_live_events = get_events_by_status EventStatus.live

-- `get_event_by_id`
unfoldable pub get_event_by_id : ℕ → Action Tables Event
get_event_by_id k = do found ← gets (event_by_id k); require_row found value_error

abbrev pub some_rows : List Event → Action Tables (List Event)
some_rows [] = raise value_error
some_rows (e ∷ es) = pure (e ∷ es)

-- `get_all_events`
unfoldable pub get_all_events : Action Tables (List Event)
get_all_events = gets (λ d. d.events) >>= some_rows

abbrev pub is_open : EventStatus → Bool
is_open EventStatus.scheduled = true
is_open EventStatus.live = true
is_open _ = false

-- `get_events_by_channel_id`
unfoldable pub get_events_by_channel_id : ℕ → Action Tables (List Event)
get_events_by_channel_id k = do
  channel ← get_channel_by_id k
  raise_if (not (is_some channel)) value_error
  es ← gets (λ d. keep (λ e. e.channel_id == k && is_open e.status) d.events)
  some_rows es

-- `join_event`, for a given name: the requests for the URLs of an attendee and of a moderator.
unfoldable pub join_event : ℕ → String → Action Tables (JoinRequest × JoinRequest)
join_event k full_name = do
  found ← gets (event_by_id k)
  e ← require_row found value_error
  raise_if (not (given e.meeting_id && (given e.attendee_pw && given e.moderator_pw))) value_error
  pure (
    record {
      meeting_id = text_or e.meeting_id "";
      password = text_or e.attendee_pw "";
      full_name = full_name;
    },
    record {
      meeting_id = text_or e.meeting_id "";
      password = text_or e.moderator_pw "";
      full_name = full_name;
    },
  )
