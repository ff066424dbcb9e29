-- ===== src/Events/Service/Credentials.antt =====
-- The meeting id and the passwords of an event, from `create_event` to `start_event`.
use mathlib.Core.Path.{subst}
use spoutbreeze_backend.Prelude.{
  ℕ, if◌then◌else◌, ◌≡◌, ◌≢◌, refl, sym, ◌∙◌, ap, Bool, true, false, Option, none, some, List, [],
  ◌∷◌, String, arith, ◌==◌, given, ==-refl, str_eq, find?,
}
use spoutbreeze_backend.Prelude.Session.{Outcome, ok, raised, value_error, open_on}
use spoutbreeze_backend.Events.Store.{User, Event, Tables}
use spoutbreeze_backend.Events.Service.{
  create_event, start_event, open_meeting, moderator_request, go_live, get_or_create_channel,
}
use spoutbreeze_backend.Events.Meetings.{meeting_key, text_or, create_bbb_meeting}
use spoutbreeze_backend.Events.Forms.{Fresh, EventCreate, prepare_event_data, with_credentials}
use spoutbreeze_backend.Events.Service.Effects.{organized, channel_of}
use spoutbreeze_backend.Events.Service.Created.{
  shown, create_event-made, organized-shown, shown-columns,
}
use spoutbreeze_backend.Events.Service.Rows.{row, change, row-change_self, map_row}

abbrev pub raises : {A : Type 0} → Outcome A → Bool
raises (ok a) = false
raises (raised e) = true

pub opened_row :
    (now k : ℕ) (d : Tables) {e : Event}
    → row k d.events ≡ some e
    → e.id ≡ k
    → row k (change e.id (go_live now) d.events) ≡ some (go_live now e)
opened_row now k d {e} h i =
    subst (λ j. row k (change j (go_live now) d.events) ≡ some (go_live now e)) (sym i)
      (row-change_self (go_live now) (λ x. refl) k d.events ∙ ap (map_row (go_live now)) h)

-- The step that opens the meeting leaves the event with the credentials it had.
open_meeting-row :
    (now k : ℕ) (g : String) (answer : Option String) (d : Tables) {e : Event}
    → row k d.events ≡ some e
    → e.id ≡ k
    → let (r, s) = open_meeting now e g answer (open_on d) in
      (s.work.users ≡ d.users)
      × (row k s.work.events
          ≡ some (if e.meeting_created then e else if raises r then e else go_live now e))
unfolding open_meeting create_bbb_meeting
open_meeting-row now k g answer d {e} h i = let q = opened_row now k d h i in ground (arith, h, q)

start_event-no_id :
    (now k user_id : ℕ) (g : String) (answer : Option String) (d : Tables) {e : Event}
    → row k d.events ≡ some e
    → e.id ≡ k
    → given e.meeting_id ≡ false
    → raises (start_event now k user_id g answer (open_on d)).0 ≡ true
unfolding start_event moderator_request
start_event-no_id now k user_id g answer d {e} h i n =
    let q = open_meeting-row now k g answer d h i in ground (arith, h, q, n)

-- The first row is the row of its id.
row-first : (e : Event) (es rest : List Event) → es ≡ e ∷ rest → row e.id es ≡ some e
row-first e es rest q = let here = ==-refl e.id in rw q (rw here)

-- Without organizers, the response of `create_event` shows a moderator password, but no request
-- to start the event gets a join URL: `start_event` raises in every later request on the stored
-- tables, whoever asks and whatever the meeting server answers. The id is new.
pub start_event-create_event_alone :
    (f : Fresh) (e : EventCreate) (user_id : ℕ) (d : Tables) {made : Event} {ns : List ℕ}
    → row f.event_id d.events ≡ none
    → e.organizer_ids ≡ []
    → (create_event f e user_id (open_on d)).0 ≡ ok (made, ns)
    → (now asker : ℕ) (g : String) (answer : Option String)
    → let d' = (create_event f e user_id (open_on d)).1.durable in
      (made.moderator_pw ≡ some f.moderator_pw)
      × (raises (start_event now f.event_id asker g answer (open_on d')).0 ≡ true)
unfolding prepare_event_data
start_event-create_event_alone f e user_id d {made} fresh alone h now asker g answer =
    let (q, stored, _) = create_event-made f e user_id d fresh h in
    let c = channel_of (get_or_create_channel f.channel_id e.channel_name user_id (open_on d)).0 in
    let new = prepare_event_data e f.event_id user_id c in
    let d' = (create_event f e user_id (open_on d)).1.durable in
    let plain : d'.events ≡ new ∷ d.events =
      stored ∙ ap (λ ks. organized ks f new ∷ d.events) alone in
    let shows : made ≡ with_credentials f new = q ∙ ap (λ ks. shown ks f new) alone in
    (
      ap (λ x. x.moderator_pw) shows,
      start_event-no_id now f.event_id asker g answer d' (row-first new d'.events d.events plain)
          refl refl,
    )

-- Starting an event without a meeting id raises, but only after the event is durably live: the
-- creator starts an event that has no meeting and no meeting id, the server makes the meeting,
-- and the id that is generated for it is new.
pub start_event-live_without_id :
    (now k user_id : ℕ) (g m : String) (d : Tables) {e : Event}
    → row k d.events ≡ some e
    → e.id ≡ k
    → e.creator_id ≡ user_id
    → e.meeting_created ≡ false
    → given e.meeting_id ≡ false
    → find? (λ r. str_eq r.meeting_id g) d.meetings ≡ none
    → let (r, s) = start_event now k user_id g (some m) (open_on d) in
      (r ≡ raised value_error) × (row k s.durable.events ≡ some (go_live now e))
unfolding start_event moderator_request open_meeting create_bbb_meeting
start_event-live_without_id now k user_id g m d {e} h i c n none_given unused =
    let q = opened_row now k d h i in (ground (arith, h, q), ground (arith, h, q))

start_event-joins :
    (now k user_id : ℕ) (g m : String) (d : Tables) {e : Event} {u : User}
    → row k d.events ≡ some e
    → e.id ≡ k
    → e.creator_id ≡ user_id
    → e.meeting_created ≡ false
    → given e.meeting_id ≡ true
    → given e.moderator_pw ≡ true
    → find? (λ r. str_eq r.meeting_id (meeting_key e.meeting_id g)) d.meetings ≡ none
    → find? (λ x. x.id == e.creator_id) d.users ≡ some u
    → (start_event now k user_id g (some m) (open_on d)).0
      ≡ ok (record {
        meeting_id = text_or e.meeting_id "";
        password = text_or e.moderator_pw "";
        full_name = u.first_name;
      })
unfolding start_event moderator_request open_meeting create_bbb_meeting
start_event-joins now k user_id g m d {e} {u} h i c n gi gp unused creator =
    let q = opened_row now k d h i in ground (arith, h, q, c, n, gi, gp, unused, creator)

-- With organizers, the creator can start the event and gets the URL of the meeting and password of
-- the response: the server makes the meeting, the meeting id is new, the creator is a user.
pub start_event-create_event_organized :
    (f : Fresh) (e : EventCreate) (user_id : ℕ) (d : Tables) {made : Event} {ns : List ℕ} {u : User}
    → row f.event_id d.events ≡ none
    → e.organizer_ids ≢ []
    → (create_event f e user_id (open_on d)).0 ≡ ok (made, ns)
    → given made.meeting_id ≡ true
    → given made.moderator_pw ≡ true
    → (now : ℕ) (g m : String)
    → let d' = (create_event f e user_id (open_on d)).1.durable in
      find? (λ r. str_eq r.meeting_id (meeting_key made.meeting_id g)) d'.meetings ≡ none
      → find? (λ x. x.id == user_id) d'.users ≡ some u
      → (start_event now f.event_id user_id g (some m) (open_on d')).0
        ≡ ok (record {
          meeting_id = text_or made.meeting_id "";
          password = f.moderator_pw;
          full_name = u.first_name;
        })
unfolding prepare_event_data
start_event-create_event_organized f e user_id d {made} {ns} {u} fresh os h i p now g m unused
      creator =
    let (q, stored, once) = create_event-made f e user_id d fresh h in
    let c = channel_of (get_or_create_channel f.channel_id e.channel_name user_id (open_on d)).0 in
    let new = prepare_event_data e f.event_id user_id c in
    let (same_id, same_creator, unopened, same_pw) = shown-columns e.organizer_ids f new in
    let d' = (create_event f e user_id (open_on d)).1.durable in
    let id : made.id ≡ f.event_id = ap (λ x. x.id) q ∙ same_id in
    let mine : made.creator_id ≡ user_id = ap (λ x. x.creator_id) q ∙ same_creator in
    let pw : made.moderator_pw ≡ some f.moderator_pw = ap (λ x. x.moderator_pw) q ∙ same_pw in
    let first : d'.events ≡ made ∷ d.events =
      stored ∙ ap (λ x. x ∷ d.events) (organized-shown e.organizer_ids f new os once ∙ sym q) in
    let there : row f.event_id d'.events ≡ some made =
      subst (λ j. row j d'.events ≡ some made) id (row-first made d'.events d.events first) in
    let joins =
      start_event-joins now f.event_id user_id g m d' {u = u} there id mine
        (ap (λ x. x.meeting_created) q ∙ unopened) i p unused (rw mine creator) in
    joins
    ∙ ap
        (λ w. ok (record {
          meeting_id = text_or made.meeting_id "";
          password = text_or w "";
          full_name = u.first_name;
        }))
        pw
