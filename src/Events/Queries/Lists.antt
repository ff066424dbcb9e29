-- ===== src/Events/Queries/Lists.antt =====
-- The lists of events by status together.
use spoutbreeze_backend.Prelude.{
  ℕ, ◌≡◌, Bool, Option, List, [], ◌∷◌, arith, ◌&&◌, keep, length, ◌+◌, if◌then◌else◌,
}
use spoutbreeze_backend.Prelude.Session.{Outcome, ok, raised, open_on}
use spoutbreeze_backend.Events.Store.{EventStatus, same_status, Event, Tables}
use spoutbreeze_backend.Events.Queries.{
  takes_part, get_events_by_status, get_upcoming_events, get_past_events, get_live_events,
}

abbrev pub listed_as : EventStatus → Option ℕ → List Event → ℕ
listed_as st u es = length (keep (λ e. same_status e.status st && takes_part u e) es)

one_status :
    (st : EventStatus) (b : Bool) (x y z w : ℕ)
    → (if same_status st EventStatus.scheduled && b then 1 + x else x)
        + ((if same_status st EventStatus.live && b then 1 + y else y)
            + ((if same_status st EventStatus.ended && b then 1 + z else z)
                + (if same_status st EventStatus.cancelled && b then 1 + w else w)))
      ≡ (if b then 1 + (x + (y + (z + w))) else x + (y + (z + w)))
one_status EventStatus.scheduled b x y z w = ground arith
one_status EventStatus.live b x y z w = ground arith
one_status EventStatus.ended b x y z w = ground arith
one_status EventStatus.cancelled b x y z w = ground arith

listed_as-sum :
    (u : Option ℕ) (es : List Event)
    → listed_as EventStatus.scheduled u es
        + (listed_as EventStatus.live u es
            + (listed_as EventStatus.ended u es + listed_as EventStatus.cancelled u es))
      ≡ length (keep (takes_part u) es)
listed_as-sum u [] = omega arith
listed_as-sum u (e ∷ es) =
    let one =
      one_status e.status (takes_part u e) (listed_as EventStatus.scheduled u es)
        (listed_as EventStatus.live u es) (listed_as EventStatus.ended u es)
        (listed_as EventStatus.cancelled u es) in
    ground (arith, one, listed_as-sum u es)

abbrev pub size : Outcome (List Event) → ℕ
size (ok es) = length es
size (raised e) = 0

-- The upcoming, live, past and cancelled events of a user are, together, as many as the events that
-- the user has created or organizes, and without a user as all events.
pub get_events_by_status-sum :
    (u : Option ℕ) (d : Tables)
    → size (get_upcoming_events u (open_on d)).0
        + (size (get_live_events u (open_on d)).0
            + (size (get_past_events u (open_on d)).0
                + size (get_events_by_status EventStatus.cancelled u (open_on d)).0))
      ≡ length (keep (takes_part u) d.events)
unfolding get_events_by_status
get_events_by_status-sum u d = listed_as-sum u d.events
