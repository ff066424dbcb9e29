-- ===== src/Events/Service/Effects.antt =====
-- What each call of the service does to the durable table of events, on every path.
use mathlib.Core.Path.{subst}
use spoutbreeze_backend.Prelude.{
  ℕ, ◌≡◌, ◌⊎◌, refl, sym, Bool, true, false, Option, none, some, List, [], ◌∷◌, String, arith, ◌==◌,
  ◌&&◌, find?, inl, inr, Bool-cases, if◌then◌else◌,
}
use spoutbreeze_backend.Prelude.Session.{
  Outcome, ok, raised, Session, Action, open_on, gets, ◌>>=◌, ◌>>◌, value_error,
}
use spoutbreeze_backend.Events.Store.{is_live, User, Event, Tables, change_event, event_by_id}
use spoutbreeze_backend.Events.Service.{
  create_event, start_event, end_event, update_event, delete_event, store_event, open_meeting,
  moderator_request, attach_organizers, has_twice, go_live, finish, get_or_create_channel,
}
use spoutbreeze_backend.Events.Meetings.{create_bbb_meeting, end_meeting, require_row}
use spoutbreeze_backend.Events.Forms.{
  Fresh, EventCreate, EventUpdate, prepare_event_data, with_credentials, add_organizers, updated,
}
use spoutbreeze_backend.Events.Channels.{get_channel_by_name, create_channel}
use spoutbreeze_backend.Events.Service.Rows.{row, change, remove, change-absent}

-- The durable events, after a call on a new session.
abbrev pub events_after : {A : Type 0} → Outcome A × Session Tables → List Event
events_after (r, s) = s.durable.events

-- Making the request for the moderator leaves the session as it is.
moderator_request-pure :
    (found : Option Event) (us : List User) (s : Session Tables)
    → (moderator_request found us s).1 ≡ s
unfolding moderator_request
moderator_request-pure found us s = ground arith

open_meeting-events :
    (now : ℕ) (e : Event) (g : String) (answer : Option String) (d : Tables)
    → let (r, s) = open_meeting now e g answer (open_on d) in
      (s.durable.events ≡ d.events)
      ⊎ (e.meeting_created ≡ false) × (s.durable.events ≡ change e.id (go_live now) d.events)
unfolding open_meeting create_bbb_meeting
open_meeting-events now e g answer d = ground arith

-- `start_event` changes nothing, or takes an event live that had no meeting yet.
pub start_event-events :
    (now k user_id : ℕ) (g : String) (answer : Option String) (d : Tables) {e : Event}
    → row k d.events ≡ some e
    → let es = events_after (start_event now k user_id g answer (open_on d)) in
      (es ≡ d.events)
      ⊎ (e.meeting_created ≡ false)
        × (e.creator_id ≡ user_id)
        × (es ≡ change e.id (go_live now) d.events)
unfolding start_event
start_event-events now k user_id g answer d {e} h =
    let s = (open_meeting now e g answer (open_on d)).1 in
    ground (
      arith,
      h,
      open_meeting-events now e g answer d,
      moderator_request-pure (row k s.work.events) s.work.users s,
    )

pub start_event-missing :
    (now k user_id : ℕ) (g : String) (answer : Option String) (d : Tables)
    → row k d.events ≡ none
    → events_after (start_event now k user_id g answer (open_on d)) ≡ d.events
unfolding start_event
start_event-missing now k user_id g answer d h = ground arith

-- `end_event` changes nothing, or ends an event of the user that is live.
pub end_event-events :
    (now k user_id : ℕ) (answer : Option Bool) (d : Tables) {e : Event}
    → find? (λ e. e.id == k && e.creator_id == user_id) d.events ≡ some e
    → let es = events_after (end_event now k user_id answer (open_on d)) in
      (es ≡ d.events) ⊎ (is_live e.status ≡ true) × (es ≡ change k (finish now) d.events)
unfolding end_event end_meeting
end_event-events now k user_id answer d h = ground arith

pub end_event-missing :
    (now k user_id : ℕ) (answer : Option Bool) (d : Tables)
    → find? (λ e. e.id == k && e.creator_id == user_id) d.events ≡ none
    → events_after (end_event now k user_id answer (open_on d)) ≡ d.events
unfolding end_event
end_event-missing now k user_id answer d h = ground arith

-- `update_event` changes nothing, or the columns of the update in an event of the user.
pub update_event-events :
    (k user_id : ℕ) (u : EventUpdate) (d : Tables)
    → let es = events_after (update_event k u user_id (open_on d)) in
      (es ≡ d.events) ⊎ (es ≡ change k (updated u d.users) d.events)
unfolding update_event
update_event-events k user_id u d = ground arith

pub update_event-missing :
    (k user_id : ℕ) (u : EventUpdate) (d : Tables)
    → find? (λ e. e.id == k && e.creator_id == user_id) d.events ≡ none
    → events_after (update_event k u user_id (open_on d)) ≡ d.events
unfolding update_event
update_event-missing k user_id u d h = ground arith

-- `delete_event` changes nothing, or removes an event of the user.
pub delete_event-events :
    (k user_id : ℕ) (d : Tables) {e : Event}
    → row k d.events ≡ some e
    → let es = events_after (delete_event k user_id (open_on d)) in
      (es ≡ d.events) ⊎ (e.creator_id ≡ user_id) × (es ≡ remove k d.events)
unfolding delete_event
delete_event-events k user_id d h = ground (arith, h)

pub delete_event-missing :
    (k user_id : ℕ) (d : Tables)
    → row k d.events ≡ none
    → events_after (delete_event k user_id (open_on d)) ≡ d.events
unfolding delete_event
delete_event-missing k user_id d h = ground arith

-- The channel is found or made without a change of the events.
pub get_or_create_channel-events :
    (new_id user_id : ℕ) (name : String) (d : Tables)
    → let (r, s) = get_or_create_channel new_id name user_id (open_on d) in
      (s.work.events ≡ d.events) × (s.durable.events ≡ d.events)
unfolding get_or_create_channel get_channel_by_name create_channel
get_or_create_channel-events new_id user_id name d = ground arith

-- The row that `create_event` has made durable: with organizers its second commit saves the
-- credentials, without organizers there is no second commit, and one that names an organizer twice
-- is refused.
abbrev pub organized : List ℕ → Fresh → Event → Event
organized [] f e = e
organized (o ∷ os) f e =
    if has_twice (o ∷ os) then e else add_organizers (o ∷ os) (with_credentials f e)

attach_organizers-events :
    (ks : List ℕ) (f : Fresh) (e : Event) (d : Tables)
    → e.id ≡ f.event_id
    → row f.event_id d.events ≡ none
    → let made = record d { events = e ∷ d.events } in
      let s : Session Tables = record {
        durable = made;
        work = change_event f.event_id (with_credentials f) made;
      } in
      let last : Action Tables Event =
        attach_organizers f.event_id ks
        >> (gets (event_by_id f.event_id) >>= λ found. require_row found value_error) in
      (last s).1.durable.events ≡ organized ks f e ∷ d.events
unfolding attach_organizers
attach_organizers-events [] f e d same fresh = refl
attach_organizers-events (o ∷ os) f e d same fresh =
    let here : (e.id == f.event_id) ≡ true = ground arith in
    elim (Bool-cases (has_twice (o ∷ os))) [
      | inl twice ↦ rw twice
      | inr once ↦ rw once (
          rw here (
            rw here (
              rw (change-absent (with_credentials f) f.event_id d.events fresh)
                (rw (change-absent (add_organizers (o ∷ os)) f.event_id d.events fresh)))))
    ]

pub store_event-events :
    (f : Fresh) (e : EventCreate) (user_id channel_id : ℕ) (s : Session Tables)
    → row f.event_id s.work.events ≡ none
    → let made = prepare_event_data e f.event_id user_id channel_id in
      (store_event f e user_id channel_id s).1.durable.events
      ≡ organized e.organizer_ids f made ∷ s.work.events
unfolding store_event prepare_event_data
store_event-events f e user_id channel_id s fresh =
    attach_organizers-events e.organizer_ids f (prepare_event_data e f.event_id user_id channel_id)
      s.work refl fresh

abbrev pub channel_of : Outcome ℕ → ℕ
channel_of (ok k) = k
channel_of (raised e) = 0

-- `create_event` changes nothing, or adds the new event.
pub create_event-events :
    (f : Fresh) (e : EventCreate) (user_id : ℕ) (d : Tables)
    → row f.event_id d.events ≡ none
    → let found = get_or_create_channel f.channel_id e.channel_name user_id (open_on d) in
      let made = prepare_event_data e f.event_id user_id (channel_of found.0) in
      let es = events_after (create_event f e user_id (open_on d)) in
      (es ≡ d.events) ⊎ (es ≡ organized e.organizer_ids f made ∷ d.events)
unfolding create_event
create_event-events f e user_id d fresh =
    let (r, s) = get_or_create_channel f.channel_id e.channel_name user_id (open_on d) in
    let (work, durable) = get_or_create_channel-events f.channel_id user_id e.channel_name d in
    let stored =
      store_event-events f e user_id (channel_of r) s
        (subst (λ es. row f.event_id es ≡ none) (sym work) fresh) in
    ground (arith, work, durable, stored)
