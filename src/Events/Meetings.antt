-- ===== src/Events/Meetings.antt =====
-- Meetings on the BigBlueButton server: `create_meeting` and `end_meeting` of
-- app/services/bbb_service.py, as app/services/event_service.py calls them.
use spoutbreeze_backend.Prelude.{
  Bool, true, false, Option, none, some, ◌∷◌, String, str_eq, given, is_some, find?, update_where,
  if◌then◌else◌,
}
use spoutbreeze_backend.Prelude.Session.{
  Action, ok, raised, Error, http, remote_error, pure, raise_if, gets, modify, commit, ◌>>=◌, ◌>>◌,
}
use spoutbreeze_backend.Events.Store.{Event, Tables}

abbrev pub require_row : {A : Type 0} → Option A → Error → Action Tables A
require_row o e s = (elim o [ none ↦ raised e | some a ↦ ok a ], s)

-- `JoinMeetingRequest`, of which the join URL is made.
pub record JoinRequest : Type 0 where
  pub meeting_id : String
  pub password : String
  pub full_name : String

abbrev pub text_or : Option String → String → String
text_or none d = d
text_or (some t) d = t

-- `meeting_id` of the request, or the generated one.
abbrev pub meeting_key : Option String → String → String
meeting_key m generated = if given m then text_or m generated else generated

-- `_create_bbb_meeting`, and `BBBService.create_meeting` in app/services/bbb_service.py. The server
-- answers with the id of the meeting, or the call fails.
unfoldable pub create_bbb_meeting : Event → String → Option String → Action Tables (Unit {0})
create_bbb_meeting e generated answer = do
  used ←
      gets (λ d. find? (λ m. str_eq m.meeting_id (meeting_key e.meeting_id generated)) d.meetings)
  raise_if (is_some used) (http 400)
  made ← require_row answer (http 400)
  modify (λ d. record d {
    meetings = record { meeting_id = made; has_been_forcibly_ended = false } ∷ d.meetings;
  })
  commit

-- `BBBService.end_meeting`: an answer `some true` is a success, `none` an exception.
unfoldable pub end_meeting : String → Option Bool → Action Tables (Unit {0})
end_meeting m answer = do
  success ← require_row answer remote_error
  if success
      then (do
        modify (λ d. record d {
          meetings =
              update_where (λ r. str_eq r.meeting_id m)
                (λ r. record r { has_been_forcibly_ended = true }) d.meetings;
        })
        commit)
      else pure tt
