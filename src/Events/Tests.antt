-- ===== src/Events/Tests.antt =====
-- Concrete runs of the calls on events, and the theorems at them.
use spoutbreeze_backend.Prelude.{
  ℕ, ◌≡◌, refl, true, false, none, some, List, [], ◌∷◌, arith, str_eq, ◌==◌, find?,
}
use spoutbreeze_backend.Prelude.Session.{ok, raised, value_error, open_on}
use spoutbreeze_backend.Events.Store.{EventStatus, Datetime, User, Event, Tables}
use spoutbreeze_backend.Events.Channels.{
  create_channel, delete_channel, one_or_none, get_channel_by_name,
}
use spoutbreeze_backend.Events.Service.{
  open_meeting, moderator_request, create_event, start_event, store_event, has_twice,
  get_or_create_channel, all_exist, notified, go_live,
}
use spoutbreeze_backend.Events.Meetings.{create_bbb_meeting, JoinRequest}
use spoutbreeze_backend.Events.Forms.{Fresh, EventCreate}
use spoutbreeze_backend.Events.Service.Rows.{row}
use spoutbreeze_backend.Events.Service.Step.{Call, run}
use spoutbreeze_backend.Events.Service.Lifecycle.{Sound, Leaves, run-Sound, run-Leaves}
use spoutbreeze_backend.Events.Service.Permission.{run-others}
use spoutbreeze_backend.Cache.Through.{World, cached}
use spoutbreeze_backend.Cache.Through.Runs.{run_through, run_plain}
use spoutbreeze_backend.Events.Queries.{get_event_by_id, get_all_events}
use spoutbreeze_backend.Events.Cached.{
  Key, Answer, Write, Call as CachedCall, perform, perform_cached, read_cached, write_cached,
}
use spoutbreeze_backend.Events.Routes.{Route, Reply, refuses, serve}
use spoutbreeze_backend.Events.Routes.Others.{serve-others}
use spoutbreeze_backend.Events.Cached.Refines.{perform_cached-run_plain}
use spoutbreeze_backend.Events.Cached.Stale.{after, get_event_by_id-stale, read_cached-stale_events}
use spoutbreeze_backend.Events.Service.Credentials.{
  raises, start_event-create_event_alone, start_event-live_without_id,
  start_event-create_event_organized,
}

abbrev ana : User
ana = record { id = 1; first_name = "Ana"; last_name = "Diaz"; email = "ana@x.org" }

abbrev ben : User
ben = record { id = 2; first_name = "Ben"; last_name = "Fox"; email = "ben@x.org" }

abbrev day : Datetime
day = record { clock = 1000; tzinfo = none }

abbrev talk : Event
talk = record {
  id = 7;
  title = "Talk";
  description = none;
  occurs = "once";
  start_date = day;
  end_date = day;
  start_time = day;
  timezone = "UTC";
  creator_id = 1;
  channel_id = 3;
  meeting_id = none;
  moderator_pw = none;
  attendee_pw = none;
  meeting_created = false;
  status = EventStatus.scheduled;
  actual_start_time = none;
  actual_end_time = none;
  organizers = [];
}

abbrev studio : Tables
studio = record {
  users = ana ∷ ben ∷ [];
  channels = record { id = 3; name = "News"; creator_id = 1 } ∷ [];
  meetings = [];
  events = talk ∷ [];
}

abbrev drawn : Fresh
drawn = record {
  event_id = 8;
  channel_id = 4;
  suffix = "ab12cd34";
  moderator_pw = "mod";
  attendee_pw = "att";
  short_title = λ t. t;
}

abbrev panel : List ℕ → EventCreate
panel ks = record {
  title = "Panel";
  description = none;
  occurs = "once";
  start_date = day;
  end_date = day;
  start_time = day;
  timezone = "UTC";
  organizer_ids = ks;
  channel_name = "Debates";
}

abbrev start_talk : Call
start_talk = Call.start 7 "generated" (some "made")

studio-Sound : Sound 5 studio.events
studio-Sound = ((refl, tt), ((refl, refl, refl), tt))

run-Sound_example : Sound 9 (run 9 1 start_talk studio).events
run-Sound_example = run-Sound 5 9 1 start_talk studio (omega arith) tt studio-Sound

run-Leaves_example : Leaves 9 talk (row 7 (run 9 1 start_talk studio).events)
run-Leaves_example = run-Leaves 9 1 start_talk studio 7 {e = talk} tt (refl, tt) refl

run-others_example : row 7 (run 9 2 (Call.delete 7) studio).events ≡ some talk
run-others_example =
    run-others 9 2 (Call.delete 7) studio 7 {e = talk} tt (refl, tt) refl (λ h. omega (arith, h))

-- The panel as the response of `create_event` shows it, in a channel that is made for it.
abbrev zoned : Datetime
zoned = record { clock = 1000; tzinfo = some "UTC" }

abbrev shown_panel : List ℕ → Event
shown_panel ks = record {
  id = 8;
  title = "Panel";
  description = none;
  occurs = "once";
  start_date = zoned;
  end_date = zoned;
  start_time = zoned;
  timezone = "UTC";
  creator_id = 1;
  channel_id = 4;
  meeting_id = some "Panel_ab12cd34";
  moderator_pw = some "mod";
  attendee_pw = some "att";
  meeting_created = false;
  status = EventStatus.scheduled;
  actual_start_time = none;
  actual_end_time = none;
  organizers = ks;
}

create_alone : (create_event drawn (panel []) 1 (open_on studio)).0 ≡ ok (shown_panel [], [])
unfolding create_event get_or_create_channel get_channel_by_name create_channel all_exist
    store_event has_twice
create_alone = refl

create_panel :
    (create_event drawn (panel (1 ∷ 2 ∷ [])) 1 (open_on studio)).0
    ≡ ok (shown_panel (1 ∷ 2 ∷ []), 2 ∷ [])
unfolding create_event get_or_create_channel get_channel_by_name create_channel all_exist
    store_event has_twice notified
create_panel = refl

start_event-create_event_alone_example :
    let d' = (create_event drawn (panel []) 1 (open_on studio)).1.durable in
    ((shown_panel []).moderator_pw ≡ some "mod")
    × (raises (start_event 9 8 1 "generated" (some "made") (open_on d')).0 ≡ true)
start_event-create_event_alone_example =
    start_event-create_event_alone drawn (panel []) 1 studio {made = shown_panel []} {ns = []} refl
      refl create_alone 9 1 "generated" (some "made")

start_event-live_without_id_example :
    let (r, s) = start_event 9 7 1 "generated" (some "made") (open_on studio) in
    (r ≡ raised value_error) × (row 7 s.durable.events ≡ some (go_live 9 talk))
start_event-live_without_id_example =
    start_event-live_without_id 9 7 1 "generated" "made" studio {e = talk} refl refl refl refl refl
      refl

abbrev after_panel : Tables
after_panel = (create_event drawn (panel (1 ∷ 2 ∷ [])) 1 (open_on studio)).1.durable

unused_id : find? (λ r. str_eq r.meeting_id "Panel_ab12cd34") after_panel.meetings ≡ none
unfolding create_event get_or_create_channel get_channel_by_name create_channel all_exist
    store_event has_twice
unused_id = refl

ana_there : find? (λ x. x.id == 1) after_panel.users ≡ some ana
unfolding create_event get_or_create_channel get_channel_by_name create_channel all_exist
    store_event has_twice
ana_there = refl

start_event-create_event_organized_example :
    (start_event 9 8 1 "generated" (some "made") (open_on after_panel)).0
    ≡ ok (record { meeting_id = "Panel_ab12cd34"; password = "mod"; full_name = "Ana" })
start_event-create_event_organized_example =
    start_event-create_event_organized drawn (panel (1 ∷ 2 ∷ [])) 1 studio
      {made = shown_panel (1 ∷ 2 ∷ [])} {ns = 2 ∷ []} {u = ana} refl (λ h. cc) create_panel refl
      refl 9 "generated" "made" unused_id ana_there

-- Ana's talk with its meeting id and passwords.
abbrev ready : Event
ready = record talk {
  meeting_id = some "room";
  moderator_pw = some "mod";
  attendee_pw = some "att";
}

abbrev ready_studio : Tables
ready_studio = record studio { events = ready ∷ [] }

abbrev as_moderator : JoinRequest
as_moderator = record { meeting_id = "room"; password = "mod"; full_name = "Ana" }

start_ready :
    (start_event 9 7 1 "generated" (some "made") (open_on ready_studio)).0 ≡ ok as_moderator
unfolding start_event open_meeting create_bbb_meeting moderator_request
start_ready = refl

-- Requests through the cache.
abbrev cold : World Tables Key Answer
cold = record { tables = studio; entries = [] }

abbrev changes : List CachedCall
changes =
    CachedCall.asks (Key.events_upcoming (some 1))
    ∷ CachedCall.writes (Write.delete_of 7 1)
    ∷ CachedCall.asks (Key.events_upcoming (some 1))
    ∷ []

perform_cached-run_plain_example :
    run_through perform_cached changes cold ≡ run_plain perform changes studio
perform_cached-run_plain_example = perform_cached-run_plain changes studio (refl, (tt, (refl, tt)))

-- The event is answered after its deletion.
get_event_by_id-stale_example :
    (read_cached (Key.events_by_id 7) (after changes (read_cached (Key.events_by_id 7) cold).1)).0
    ≡ ok (Answer.event talk)
unfolding get_event_by_id cached
get_event_by_id-stale_example = get_event_by_id-stale 7 talk changes cold refl (tt, (tt, (tt, tt)))

-- So are the events of a channel that is deleted with them.
abbrev channel_gone : List CachedCall
channel_gone = CachedCall.writes (Write.delete_channel_of 3 1) ∷ []

read_cached-stale_events_example :
    (read_cached Key.events_all (after channel_gone (read_cached Key.events_all cold).1)).0
    ≡ ok (Answer.events (talk ∷ []))
unfolding get_all_events cached
read_cached-stale_events_example =
    read_cached-stale_events (talk ∷ []) channel_gone cold refl (tt, tt)

channel_gone_plain :
    (perform
      (CachedCall.asks Key.events_all)
      (perform (CachedCall.writes (Write.delete_channel_of 3 1)) studio).1).0
    ≡ raised value_error
unfolding get_all_events delete_channel one_or_none
channel_gone_plain = refl

-- Ben asks to delete the talk of Ana.
serve-others_example : serve 2 (Route.delete_event 7) cold ≡ (refuses 403, cold)
serve-others_example = serve-others 2 7 403 (Route.delete_event 7) cold talk refl refl refl

-- Ben asks to delete the channel of Ana: nothing is deleted, and no status code says so.
delete_channel_unowned :
    (serve 2 (Route.delete_channel 3) cold).0 ≡ Reply.answers (Answer.deleted false)
unfolding serve write_cached delete_channel one_or_none
delete_channel_unowned = refl
