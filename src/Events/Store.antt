-- ===== src/Events/Store.antt =====
-- The tables behind app/services/event_service.py and app/services/channels_service.py: the
-- columns of app/models/event/event_models.py, app/models/channel/channels_model.py and of the
-- users and meetings that the services read. The organizers of an event are the ids in the
-- association table. Time stamps that the database fills in by itself are left out.
use spoutbreeze_backend.Prelude.{
  ℕ, Bool, true, false, Option, List, String, ◌==◌, str_eq, find?, update_where,
}

pub data EventStatus : Type 0 where
  scheduled live ended cancelled : EventStatus

abbrev pub is_live : EventStatus → Bool
is_live EventStatus.live = true
is_live _ = false

abbrev pub same_status : EventStatus → EventStatus → Bool
same_status EventStatus.scheduled EventStatus.scheduled = true
same_status EventStatus.live EventStatus.live = true
same_status EventStatus.ended EventStatus.ended = true
same_status EventStatus.cancelled EventStatus.cancelled = true
same_status _ _ = false

-- A `datetime`: its clock in seconds, and its zone if it has one.
pub record Datetime : Type 0 where
  pub clock : ℕ
  pub tzinfo : Option String

pub record User : Type 0 where
  pub id : ℕ
  pub first_name : String
  pub last_name : String
  pub email : String

pub record Channel : Type 0 where
  pub id : ℕ
  pub name : String
  pub creator_id : ℕ

pub record Meeting : Type 0 where
  pub meeting_id : String
  pub has_been_forcibly_ended : Bool

pub record Event : Type 0 where
  pub id : ℕ
  pub title : String
  pub description : Option String
  pub occurs : String
  pub start_date : Datetime
  pub end_date : Datetime
  pub start_time : Datetime
  pub timezone : String
  pub creator_id : ℕ
  pub channel_id : ℕ
  pub meeting_id : Option String
  pub moderator_pw : Option String
  pub attendee_pw : Option String
  pub meeting_created : Bool
  pub status : EventStatus
  pub actual_start_time : Option ℕ
  pub actual_end_time : Option ℕ
  pub organizers : List ℕ

pub record Tables : Type 0 where
  pub users : List User
  pub channels : List Channel
  pub meetings : List Meeting
  pub events : List Event

abbrev pub event_by_id : ℕ → Tables → Option Event
event_by_id k d = find? (λ e. e.id == k) d.events

abbrev pub event_by_title : String → Tables → Option Event
event_by_title t d = find? (λ e. str_eq e.title t) d.events

abbrev pub user_by_id : ℕ → Tables → Option User
user_by_id k d = find? (λ u. u.id == k) d.users

-- A change of the row with this id.
abbrev pub change_event : ℕ → (Event → Event) → Tables → Tables
change_event k f d = record d { events = update_where (λ e. e.id == k) f d.events }
