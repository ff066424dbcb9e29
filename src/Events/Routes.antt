-- ===== src/Events/Routes.antt =====
-- The routes of app/controllers/event_controller.py and app/controllers/channels_controller.py
-- before the cached services. The user who is logged in is an argument; the listing of all
-- channels, the recordings, and the mapping for the chat gateway after a start are left out.
pub mod Others
use spoutbreeze_backend.Prelude.{ℕ, Bool, true, false, Option, none, some, List, [], ◌∷◌, String}
use spoutbreeze_backend.Prelude.Session.{Outcome, ok, raised, Error}
use spoutbreeze_backend.Cache.Through.{World}
use spoutbreeze_backend.Events.Store.{Tables, event_by_id}
use spoutbreeze_backend.Events.Forms.{EventCreate, EventUpdate, Fresh}
use spoutbreeze_backend.Events.Cached.{Key, Answer, Write, read_cached, write_cached}

-- An answer, or a status code.
pub data Reply : Type 0 where
  answers : Answer → Reply
  refuses : ℕ → Reply

abbrev pub Served : Type 0
Served = World Tables Key Answer → Reply × World Tables Key Answer

-- The `except` clauses.
abbrev pub unknown_500 : Error → ℕ
unknown_500 e = 500

abbrev pub value_404 : Error → ℕ
value_404 Error.value_error = 404
value_404 e = 500

abbrev pub permission_403 : Error → ℕ
permission_403 Error.permission_error = 403
permission_403 e = value_404 e

abbrev pub http_or : (Error → ℕ) → Error → ℕ
http_or f (Error.http c) = c
http_or f e = f e

abbrev pub value_400 : Error → ℕ
value_400 Error.value_error = 400
value_400 e = 500

abbrev pub replied :
    (Error → ℕ) → Outcome Answer × World Tables Key Answer → Reply × World Tables Key Answer
replied status r = (elim r.0 [ ok a ↦ answers a | raised e ↦ refuses (status e) ], r.1)

-- `if not ...: raise HTTPException(status_code=404, ...)`
abbrev pub if_any : Reply → Reply
if_any (answers (Answer.channels [])) = refuses 404
if_any (answers (Answer.channel none)) = refuses 404
if_any r = r

-- The handlers, with the user who asks; the events to start and to join are looked up first.
unfoldable pub create_event_route : ℕ → Fresh → EventCreate → Served
create_event_route u f e w = replied (http_or value_400) (write_cached (Write.create_of f e u) w)

unfoldable pub start_event_route : ℕ → ℕ → ℕ → String → Option String → Served
start_event_route u now k g a w = elim (event_by_id k w.tables) [
  | none ↦ (refuses 404, w)
  | some e ↦ replied (http_or permission_403) (write_cached (Write.start_of now k u g a) w)
]

unfoldable pub join_event_route : ℕ → ℕ → String → Served
join_event_route u k name w = elim (event_by_id k w.tables) [
  | none ↦ (refuses 404, w)
  | some e ↦ replied (http_or value_404) (read_cached (Key.events_join k name) w)
]

unfoldable pub get_upcoming_events_route : ℕ → Served
get_upcoming_events_route u w = replied unknown_500 (read_cached (Key.events_upcoming (some u)) w)

unfoldable pub get_past_events_route : ℕ → Served
get_past_events_route u w = replied unknown_500 (read_cached (Key.events_past (some u)) w)

unfoldable pub get_live_events_route : ℕ → Served
get_live_events_route u w = replied unknown_500 (read_cached (Key.events_live (some u)) w)

unfoldable pub end_event_route : ℕ → ℕ → ℕ → Option Bool → Served
end_event_route u now k a w = replied value_404 (write_cached (Write.end_of now k u a) w)

unfoldable pub get_all_events_route : ℕ → Served
get_all_events_route u w = replied value_404 (read_cached Key.events_all w)

unfoldable pub get_event_route : ℕ → ℕ → Served
get_event_route u k w = replied value_404 (read_cached (Key.events_by_id k) w)

unfoldable pub get_events_by_channel_route : ℕ → ℕ → Served
get_events_by_channel_route u k w = replied value_404 (read_cached (Key.events_channel k) w)

unfoldable pub update_event_route : ℕ → ℕ → EventUpdate → Served
update_event_route u k c w = replied value_404 (write_cached (Write.update_of k c u) w)

unfoldable pub delete_event_route : ℕ → ℕ → Served
delete_event_route u k w = replied permission_403 (write_cached (Write.delete_of k u) w)

unfoldable pub create_channel_route : ℕ → ℕ → String → Served
create_channel_route u k name w =
    replied (http_or unknown_500) (write_cached (Write.create_channel_of k name u) w)

unfoldable pub get_channels_by_user_route : ℕ → Served
get_channels_by_user_route u w =
    let r = replied (http_or unknown_500) (read_cached (Key.channels_user u) w) in (if_any r.0, r.1)

unfoldable pub get_channel_by_id_route : ℕ → ℕ → Served
get_channel_by_id_route u k w =
    let r = replied (http_or unknown_500) (read_cached (Key.channels_by_id k) w) in
    (if_any r.0, r.1)

unfoldable pub update_channel_route : ℕ → ℕ → Option String → Served
update_channel_route u k name w =
    let r = replied (http_or unknown_500) (write_cached (Write.update_channel_of k name u) w) in
    (if_any r.0, r.1)

unfoldable pub delete_channel_route : ℕ → ℕ → Served
delete_channel_route u k w = replied unknown_500 (write_cached (Write.delete_channel_of k u) w)

pub data Route : Type 0 where
  create_event : Fresh → EventCreate → Route
  start_event : ℕ → ℕ → String → Option String → Route
  join_event : ℕ → String → Route
  get_upcoming_events : Route
  get_past_events : Route
  get_live_events : Route
  end_event : ℕ → ℕ → Option Bool → Route
  get_all_events : Route
  get_event : ℕ → Route
  get_events_by_channel : ℕ → Route
  update_event : ℕ → EventUpdate → Route
  delete_event : ℕ → Route
  create_channel : ℕ → String → Route
  get_channels_by_user : Route
  get_channel_by_id : ℕ → Route
  update_channel : ℕ → Option String → Route
  delete_channel : ℕ → Route

-- A request of a user.
unfoldable pub serve : ℕ → Route → Served
unfolding create_event_route start_event_route join_event_route get_upcoming_events_route
    get_past_events_route get_live_events_route end_event_route get_all_events_route get_event_route
    get_events_by_channel_route update_event_route delete_event_route create_channel_route
    get_channels_by_user_route get_channel_by_id_route update_channel_route delete_channel_route
serve u (create_event f e) = create_event_route u f e
serve u (start_event now k g a) = start_event_route u now k g a
serve u (join_event k name) = join_event_route u k name
serve u get_upcoming_events = get_upcoming_events_route u
serve u get_past_events = get_past_events_route u
serve u get_live_events = get_live_events_route u
serve u (end_event now k a) = end_event_route u now k a
serve u get_all_events = get_all_events_route u
serve u (get_event k) = get_event_route u k
serve u (get_events_by_channel k) = get_events_by_channel_route u k
serve u (update_event k c) = update_event_route u k c
serve u (delete_event k) = delete_event_route u k
serve u (create_channel k name) = create_channel_route u k name
serve u get_channels_by_user = get_channels_by_user_route u
serve u (get_channel_by_id k) = get_channel_by_id_route u k
serve u (update_channel k name) = update_channel_route u k name
serve u (delete_channel k) = delete_channel_route u k
