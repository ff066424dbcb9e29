-- ===== src/Events/Forms.antt =====
-- What a user sends to make or change an event (app/models/event/event_schemas.py), and the row of
-- the event that comes of it (app/utils/event_helpers.py and app/services/event_service.py).
use Prim.Native.String.{◌++◌ as ◌<>◌}
use spoutbreeze_backend.Prelude.{
  ℕ, false, Option, none, some, List, [], ◌++◌, String, ◌==◌, is_some, find?, keep,
}
use spoutbreeze_backend.Events.Store.{EventStatus, Datetime, User, Event}

-- `EventCreate`
pub record EventCreate : Type 0 where
  pub title : String
  pub description : Option String
  pub occurs : String
  pub start_date : Datetime
  pub end_date : Datetime
  pub start_time : Datetime
  pub timezone : String
  pub organizer_ids : List ℕ
  pub channel_name : String

-- `EventUpdate`
pub record EventUpdate : Type 0 where
  pub title : Option String
  pub description : Option String
  pub occurs : Option String
  pub start_date : Option Datetime
  pub end_date : Option Datetime
  pub start_time : Option Datetime
  pub organizer_ids : Option (List ℕ)
  pub channel_id : Option ℕ
  pub timezone : Option String

-- The ids and the random texts of one call, and Python's `title.replace(" ", "_")[:32]`.
pub record Fresh : Type 0 where
  pub event_id : ℕ
  pub channel_id : ℕ
  pub suffix : String
  pub moderator_pw : String
  pub attendee_pw : String
  pub short_title : String → String

-- `EventHelpers._ensure_timezone_aware`
unfoldable pub ensure_timezone_aware : Datetime → Datetime
ensure_timezone_aware t = elim t.tzinfo [ none ↦ record t { tzinfo = some "UTC" } | some z ↦ t ]

-- `EventHelpers.prepare_event_data`
unfoldable pub prepare_event_data : EventCreate → ℕ → ℕ → ℕ → Event
unfolding ensure_timezone_aware
prepare_event_data e new_id user_id channel_id = record {
  id = new_id;
  title = e.title;
  description = e.description;
  occurs = e.occurs;
  start_date = ensure_timezone_aware e.start_date;
  end_date = ensure_timezone_aware e.end_date;
  start_time = ensure_timezone_aware e.start_time;
  timezone = e.timezone;
  creator_id = user_id;
  channel_id = channel_id;
  meeting_id = none;
  moderator_pw = none;
  attendee_pw = none;
  meeting_created = false;
  status = EventStatus.scheduled;
  actual_start_time = none;
  actual_end_time = none;
  organizers = [];
}

abbrev pub with_credentials : Fresh → Event → Event
with_credentials f e = record e {
  meeting_id = some (f.short_title e.title <> ("_" <> f.suffix));
  moderator_pw = some f.moderator_pw;
  attendee_pw = some f.attendee_pw;
  meeting_created = false;
}

abbrev pub add_organizers : List ℕ → Event → Event
add_organizers ks e = record e { organizers = e.organizers ++ ks }

abbrev pub set_or : {A : Type 0} → Option A → A → A
set_or none old = old
set_or (some a) old = a

abbrev pub set_some : {A : Type 0} → Option A → Option A → Option A
set_some none old = old
set_some (some a) old = some a

abbrev pub existing_users : List ℕ → List User → List ℕ
existing_users ks us = keep (λ k. is_some (find? (λ u. u.id == k) us)) ks

abbrev pub new_organizer_list : Option (List ℕ) → List User → List ℕ → List ℕ
new_organizer_list none us old = old
new_organizer_list (some ks) us old = existing_users ks us

-- The row after `update_event`.
abbrev pub updated : EventUpdate → List User → Event → Event
updated u us e = record e {
  title = set_or u.title e.title;
  description = set_some u.description e.description;
  occurs = set_or u.occurs e.occurs;
  start_date = set_or u.start_date e.start_date;
  end_date = set_or u.end_date e.end_date;
  start_time = set_or u.start_time e.start_time;
  timezone = set_or u.timezone e.timezone;
  channel_id = set_or u.channel_id e.channel_id;
  organizers = new_organizer_list u.organizer_ids us e.organizers;
}
