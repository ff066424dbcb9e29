-- ===== src/Events/Service/Created.antt =====
-- What `create_event` stores, and what its response shows.
use mathlib.Core.Path.{subst}
use spoutbreeze_backend.Prelude.{
  ℕ, ◌≡◌, ◌≢◌, refl, sym, true, false, none, some, List, [], ◌∷◌, arith, ◌==◌, inl, inr, Bool-cases,
  if◌then◌else◌,
}
use spoutbreeze_backend.Prelude.Session.{
  Outcome, ok, raised, value_error, integrity_error, Session, Action, open_on, gets, ◌>>=◌, ◌>>◌,
}
use spoutbreeze_backend.Events.Store.{Event, Tables, change_event, event_by_id}
use spoutbreeze_backend.Events.Service.{
  create_event, store_event, attach_organizers, has_twice, get_or_create_channel,
}
use spoutbreeze_backend.Events.Meetings.{require_row}
use spoutbreeze_backend.Events.Forms.{
  Fresh, EventCreate, prepare_event_data, with_credentials, add_organizers,
}
use spoutbreeze_backend.Events.Service.Effects.{
  organized, channel_of, get_or_create_channel-events, store_event-events,
}
use spoutbreeze_backend.Events.Service.Rows.{row}

-- The event as the session of `create_event` holds it at the end.
abbrev pub shown : List ℕ → Fresh → Event → Event
shown [] f e = with_credentials f e
shown (o ∷ os) f e = add_organizers (o ∷ os) (with_credentials f e)

-- The answer of the last step.
abbrev answer : List ℕ → Event → Outcome Event
answer ks e = if has_twice ks then raised integrity_error else ok e

attach_organizers-shown :
    (ks : List ℕ) (f : Fresh) (e : Event) (d : Tables)
    → e.id ≡ f.event_id
    → let made = record d { events = e ∷ d.events } in
      let s : Session Tables = record {
        durable = made;
        work = change_event f.event_id (with_credentials f) made;
      } in
      let last : Action Tables Event =
        attach_organizers f.event_id ks
        >> (gets (event_by_id f.event_id) >>= λ found. require_row found value_error) in
      (last s).0 ≡ answer ks (shown ks f e)
unfolding attach_organizers has_twice
attach_organizers-shown [] f e d same =
    let here : (e.id == f.event_id) ≡ true = ground arith in rw here (rw here refl)
attach_organizers-shown (o ∷ os) f e d same =
    let here : (e.id == f.event_id) ≡ true = ground arith in
    elim (Bool-cases (has_twice (o ∷ os))) [
      | inl twice ↦ rw twice refl
      | inr once ↦ rw once (rw here (rw here (rw here refl)))
    ]

store_event-shown :
    (f : Fresh) (e : EventCreate) (user_id channel_id : ℕ) (s : Session Tables)
    → (store_event f e user_id channel_id s).0
      ≡ answer e.organizer_ids
          (shown e.organizer_ids f (prepare_event_data e f.event_id user_id channel_id))
unfolding store_event prepare_event_data
store_event-shown f e user_id channel_id s =
    attach_organizers-shown e.organizer_ids f (prepare_event_data e f.event_id user_id channel_id)
      s.work refl

-- A created event: the row that is stored, and the row that the response is made of.
pub create_event-made :
    (f : Fresh) (e : EventCreate) (user_id : ℕ) (d : Tables) {made : Event} {ns : List ℕ}
    → row f.event_id d.events ≡ none
    → (create_event f e user_id (open_on d)).0 ≡ ok (made, ns)
    → let found = get_or_create_channel f.channel_id e.channel_name user_id (open_on d) in
      let new = prepare_event_data e f.event_id user_id (channel_of found.0) in
      (made ≡ shown e.organizer_ids f new)
      × ((create_event f e user_id (open_on d)).1.durable.events
          ≡ organized e.organizer_ids f new ∷ d.events)
      × (has_twice e.organizer_ids ≡ false)
unfolding create_event
create_event-made f e user_id d fresh h =
    let (r, s) = get_or_create_channel f.channel_id e.channel_name user_id (open_on d) in
    let (work, durable) = get_or_create_channel-events f.channel_id user_id e.channel_name d in
    let stored =
      store_event-events f e user_id (channel_of r) s
        (subst (λ es. row f.event_id es ≡ none) (sym work) fresh) in
    let response = store_event-shown f e user_id (channel_of r) s in
    (
      ground (arith, h, response),
      ground (arith, h, work, durable, stored, response),
      ground (arith, h, response),
    )

pub organized-shown :
    (ks : List ℕ) (f : Fresh) (e : Event)
    → ks ≢ []
    → has_twice ks ≡ false
    → organized ks f e ≡ shown ks f e
organized-shown [] f e h n = absurd (h refl)
organized-shown (o ∷ os) f e h n = rw n

pub shown-columns :
    (ks : List ℕ) (f : Fresh) (e : Event)
    → let r = shown ks f e in
      (r.id ≡ e.id)
      × (r.creator_id ≡ e.creator_id)
      × (r.meeting_created ≡ false)
      × (r.moderator_pw ≡ some f.moderator_pw)
shown-columns [] f e = (refl, refl, refl, refl)
shown-columns (o ∷ os) f e = (refl, refl, refl, refl)
