-- ===== src/Events/Queries/Join.antt =====
-- Joining an event that has been started, and the lists an event is in.
use spoutbreeze_backend.Prelude.{ℕ, ◌≡◌, true, Option, some, String, arith, given}
use spoutbreeze_backend.Prelude.Session.{ok, open_on}
use spoutbreeze_backend.Events.Store.{Event, Tables}
use spoutbreeze_backend.Events.Service.{start_event, open_meeting, moderator_request}
use spoutbreeze_backend.Events.Meetings.{JoinRequest, text_or, create_bbb_meeting}
use spoutbreeze_backend.Events.Service.Rows.{row}
use spoutbreeze_backend.Events.Service.Credentials.{opened_row}
use spoutbreeze_backend.Events.Queries.{join_event}

-- Once its creator has started an event that has a password for attendees, whoever asks to join it
-- gets, besides the request of an attendee, the meeting and the password with which the creator
-- joins as moderator.
pub join_event-start_event :
    (now k user_id : ℕ) (g : String) (answer : Option String) (d : Tables) (name : String)
    {e : Event} {q : JoinRequest}
    → row k d.events ≡ some e
    → e.id ≡ k
    → given e.attendee_pw ≡ true
    → (start_event now k user_id g answer (open_on d)).0 ≡ ok q
    → let d' = (start_event now k user_id g answer (open_on d)).1.durable in
      join_event k name (open_on d') ≡ (
        ok (
          record {
            meeting_id = q.meeting_id;
            password = text_or e.attendee_pw "";
            full_name = name;
          },
          record { meeting_id = q.meeting_id; password = q.password; full_name = name },
        ),
        open_on d',
      )
unfolding start_event open_meeting moderator_request create_bbb_meeting join_event
join_event-start_event now k user_id g answer d name {e} {q} h i a started =
    let opened = opened_row now k d h i in ground (arith, h, i, opened, a, started)
