-- ===== src/Events/Service.antt =====
-- `EventService` of app/services/event_service.py: the calls that change events. What the
-- BigBlueButton server answers, and what `uuid` and `secrets` draw, are inputs.
pub mod Rows
pub mod Effects
pub mod Step
pub mod Created
pub mod Lifecycle
pub mod Credentials
pub mod Permission
use Prim.Native.String.{◌++◌ as ◌<>◌}
use spoutbreeze_backend.Prelude.{
  ℕ, Bool, true, false, Option, none, some, List, [], ◌∷◌, ◌++◌, map, String, ◌==◌, str_eq, ◌&&◌,
  ◌||◌, not, given, is_some, elem, find?, keep, update_where, if◌then◌else◌,
}
use spoutbreeze_backend.Prelude.Session.{
  Action, Outcome, ok, raised, Error, http, value_error, permission_error, integrity_error,
  remote_error, Session, pure, raise, raise_if, gets, modify, commit, rolling_back, ◌>>=◌, ◌>>◌,
}
use spoutbreeze_backend.Events.Store.{
  EventStatus, is_live, Datetime, User, Channel, Meeting, Event, Tables, event_by_id,
  event_by_title, user_by_id, change_event,
}
use spoutbreeze_backend.Events.Channels.{
  ChannelResponse, create_channel, get_channel_by_name, one_or_none,
}
use spoutbreeze_backend.Events.Forms.{
  EventCreate, EventUpdate, Fresh, add_organizers, ensure_timezone_aware, existing_users,
  new_organizer_list, prepare_event_data, set_or, set_some, updated, with_credentials,
}
use spoutbreeze_backend.Events.Meetings.{
  JoinRequest, create_bbb_meeting, end_meeting, meeting_key, require_row, text_or,
}

-- `_get_or_create_channel`: the channel's id.
unfoldable pub get_or_create_channel : ℕ → String → ℕ → Action Tables ℕ
get_or_create_channel new_id name user_id = do
  found ← get_channel_by_name name user_id
  elim found [
    | some c ↦ pure c.id
    | none ↦ do r ← create_channel new_id name user_id; pure r.channel.id
  ]

-- The loop that collects the organizers: a user who does not exist is an error.
unfoldable pub all_exist : List ℕ → List User → Bool
all_exist [] us = true
all_exist (k ∷ ks) us = is_some (find? (λ u. u.id == k) us) && all_exist ks us

unfoldable pub has_twice : List ℕ → Bool
has_twice [] = false
has_twice (k ∷ ks) = elem k ks || has_twice ks

-- The step of `create_event` under `if organizers:`. An event and a user are the key of a row of
-- `user_event_association`, so the commit refuses an organizer who is named twice.
unfoldable pub attach_organizers : ℕ → List ℕ → Action Tables (Unit {0})
attach_organizers k [] = pure tt
attach_organizers k (o ∷ os) = do
  raise_if (has_twice (o ∷ os)) integrity_error
  modify (change_event k (add_organizers (o ∷ os)))
  commit

-- `_notify_organizers_added`: the users that are notified.
unfoldable pub notified : ℕ → List ℕ → List ℕ
notified creator = keep (λ k. not (k == creator))

-- The part of `create_event` after the channel and the organizers are known.
unfoldable pub store_event : Fresh → EventCreate → ℕ → ℕ → Action Tables Event
unfolding prepare_event_data attach_organizers
store_event f e user_id channel_id = do
  modify (λ d. record d { events = prepare_event_data e f.event_id user_id channel_id ∷ d.events })
  commit
  modify (change_event f.event_id (with_credentials f))
  attach_organizers f.event_id e.organizer_ids
  found ← gets (event_by_id f.event_id)
  require_row found value_error

-- `create_event`: the event of the response, and the organizers that are notified.
unfoldable pub create_event : Fresh → EventCreate → ℕ → Action Tables (Event × List ℕ)
unfolding notified
create_event f e user_id = rolling_back (do
  existing ← gets (event_by_title e.title)
  raise_if (is_some existing) value_error
  channel_id ← get_or_create_channel f.channel_id e.channel_name user_id
  known ← gets (λ d. all_exist e.organizer_ids d.users)
  raise_if (not known) value_error
  made ← store_event f e user_id channel_id
  pure (made, notified user_id e.organizer_ids))

abbrev pub go_live : ℕ → Event → Event
go_live now e = record e {
  meeting_created = true;
  status = EventStatus.live;
  actual_start_time = some now;
}

-- The step of `start_event` under `if not event.meeting_created:`.
unfoldable pub open_meeting : ℕ → Event → String → Option String → Action Tables (Unit {0})
open_meeting now e generated answer = if e.meeting_created then pure tt else (do
  create_bbb_meeting e generated answer
  modify (change_event e.id (go_live now))
  commit)

-- The end of `start_event`: the request for the moderator's URL.
unfoldable pub moderator_request : Option Event → List User → Action Tables JoinRequest
moderator_request found us = do
  e ← require_row found value_error
  raise_if (not (given e.meeting_id && given e.moderator_pw)) value_error
  creator ← require_row (find? (λ u. u.id == e.creator_id) us) value_error
  pure (record {
    meeting_id = text_or e.meeting_id "";
    password = text_or e.moderator_pw "";
    full_name = creator.first_name;
  })

-- `start_event`
unfoldable pub start_event : ℕ → ℕ → ℕ → String → Option String → Action Tables JoinRequest
start_event now event_id user_id generated answer = rolling_back (do
  found ← gets (event_by_id event_id)
  e ← require_row found value_error
  raise_if (not (e.creator_id == user_id)) permission_error
  open_meeting now e generated answer
  again ← gets (event_by_id event_id)
  us ← gets (λ d. d.users)
  moderator_request again us)

abbrev pub finish : ℕ → Event → Event
finish now e = record e { status = EventStatus.ended; actual_end_time = some now }

-- `end_event`
unfoldable pub end_event : ℕ → ℕ → ℕ → Option Bool → Action Tables (Unit {0})
unfolding end_meeting
end_event now event_id user_id answer = rolling_back (do
  found ← gets (λ d. find? (λ e. e.id == event_id && e.creator_id == user_id) d.events)
  e ← require_row found value_error
  raise_if (not (is_live e.status)) value_error
  if given e.meeting_id && given e.moderator_pw
      then end_meeting (text_or e.meeting_id "") answer
      else pure tt
  modify (change_event event_id (finish now))
  commit)

-- The title of another event: the column is unique.
unfoldable pub title_taken : ℕ → Option String → List Event → Bool
title_taken k none es = false
title_taken k (some t) es = is_some (find? (λ e. str_eq e.title t && not (e.id == k)) es)

-- The channel does not exist: the column is a foreign key.
unfoldable pub channel_missing : Option ℕ → List Channel → Bool
channel_missing none cs = false
channel_missing (some k) cs = not (is_some (find? (λ c. c.id == k) cs))

-- `update_event`: the new organizers that are notified, those who were none before.
unfoldable pub update_event : ℕ → EventUpdate → ℕ → Action Tables (List ℕ)
unfolding title_taken channel_missing notified
update_event event_id u user_id = do
  found ← gets (λ d. find? (λ e. e.id == event_id && e.creator_id == user_id) d.events)
  e ← require_row found value_error
  rolling_back (do
    taken ← gets (λ d. title_taken event_id u.title d.events)
    raise_if taken integrity_error
    missing ← gets (λ d. channel_missing u.channel_id d.channels)
    raise_if missing integrity_error
    us ← gets (λ d. d.users)
    modify (change_event event_id (updated u us))
    commit
    pure (
        notified e.creator_id
          (keep (λ k. not (elem k e.organizers)) (new_organizer_list u.organizer_ids us []))))

-- `delete_event`
unfoldable pub delete_event : ℕ → ℕ → Action Tables (Unit {0})
delete_event event_id user_id = rolling_back (do
  found ← gets (event_by_id event_id)
  e ← require_row found value_error
  raise_if (not (e.creator_id == user_id)) permission_error
  modify (λ d. record d { events = keep (λ r. not (r.id == event_id)) d.events })
  commit)
