-- ===== src/Events/Service/Step.antt =====
-- The calls of the service as steps on the durable events. A request opens a session, makes one
-- call, and closes the session, which drops what the call has not committed.
use mathlib.Core.Path.{subst}
use spoutbreeze_backend.Prelude.{
  ℕ, ◌≡◌, inl, inr, refl, sym, ◌∙◌, ap, Bool, true, false, Option, none, some, List, [], ◌∷◌,
  String, arith, ◌==◌, ◌&&◌, find?, Bool-cases, Option-cases,
}
use spoutbreeze_backend.Prelude.Session.{open_on}
use spoutbreeze_backend.Events.Store.{EventStatus, is_live, User, Event, Tables}
use spoutbreeze_backend.Events.Service.{
  create_event, start_event, end_event, update_event, delete_event, go_live, finish as end_now,
  get_or_create_channel, has_twice,
}
use spoutbreeze_backend.Events.Forms.{Fresh, EventCreate, EventUpdate, prepare_event_data, updated}
use spoutbreeze_backend.Events.Service.Rows.{row, change, remove, UniqueIds}
use spoutbreeze_backend.Events.Service.Effects.{
  create_event-events, start_event-events, start_event-missing, end_event-events, end_event-missing,
  update_event-events, update_event-missing, organized, channel_of, delete_event-events,
  delete_event-missing,
}

-- A request, with what the meeting server answers to it.
pub data Call : Type 0 where
  create : Fresh → EventCreate → Call
  start : ℕ → String → Option String → Call
  finish : ℕ → Option Bool → Call
  update : ℕ → EventUpdate → Call
  delete : ℕ → Call

-- The tables after the request of a user.
unfoldable pub run : ℕ → ℕ → Call → Tables → Tables
run now user_id (create f e) d = (create_event f e user_id (open_on d)).1.durable
run now user_id (start k g a) d = (start_event now k user_id g a (open_on d)).1.durable
run now user_id (finish k a) d = (end_event now k user_id a (open_on d)).1.durable
run now user_id (update k u) d = (update_event k u user_id (open_on d)).1.durable
run now user_id (delete k) d = (delete_event k user_id (open_on d)).1.durable

-- The id that a request draws is on no row.
abbrev pub FreshIn : Call → List Event → Type 0
FreshIn (create f e) es = row f.event_id es ≡ none
FreshIn _ es = Unit

-- An event as `create_event` makes it.
pub record New (user_id : ℕ) (e : Event) : Type 0 where
  pub mine : e.creator_id ≡ user_id
  pub unopened : e.meeting_created ≡ false
  pub planned : e.status ≡ EventStatus.scheduled
  pub no_start : e.actual_start_time ≡ none
  pub no_end : e.actual_end_time ≡ none

-- A row of the user.
pub record Own (user_id k : ℕ) (es : List Event) (e : Event) : Type 0 where
  pub found : row k es ≡ some e
  pub mine : e.creator_id ≡ user_id

-- What a request of a user may do to the events: one of these, and to a row of the user only.
pub data Step (now user_id : ℕ) (es es' : List Event) : Type 0 where
  kept : es' ≡ es → Step now user_id es es'
  created :
      (e : Event) → New user_id e → row e.id es ≡ none → es' ≡ e ∷ es → Step now user_id es es'
  opened :
      (k : ℕ) (e : Event)
      → Own user_id k es e
      → e.meeting_created ≡ false
      → es' ≡ change k (go_live now) es
      → Step now user_id es es'
  ended :
      (k : ℕ) (e : Event)
      → Own user_id k es e
      → is_live e.status ≡ true
      → es' ≡ change k (end_now now) es
      → Step now user_id es es'
  edited :
      (k : ℕ) (e : Event) (u : EventUpdate) (us : List User)
      → Own user_id k es e
      → es' ≡ change k (updated u us) es
      → Step now user_id es es'
  deleted : (k : ℕ) (e : Event) → Own user_id k es e → es' ≡ remove k es → Step now user_id es es'

row-id : (k : ℕ) (es : List Event) {e : Event} → row k es ≡ some e → e.id ≡ k
row-id k [] h = cc
row-id k (x ∷ es) {e} h = elim (Bool-cases (x.id == k)) [
  | inl g ↦ let q : x ≡ e = ground arith in subst (λ y. y.id ≡ k) q (ground arith)
  | inr g ↦ row-id k es {e = e} (ground arith)
]

-- A row found by its id and its creator is the row of that id.
found-Own :
    (user_id k : ℕ) (es : List Event) {e : Event}
    → find? (λ e. e.id == k && e.creator_id == user_id) es ≡ some e
    → UniqueIds es
    → Own user_id k es e
found-Own user_id k [] h u = cc
found-Own user_id k (x ∷ es) {e} h u = elim (Bool-cases (x.id == k)) [
  | inr g ↦
      let rest = found-Own user_id k es {e = e} (ground arith) u.1 in
      record { found = rw g rest.found; mine = rest.mine }
  | inl g ↦ elim (Bool-cases (x.creator_id == user_id)) [
    | inl m ↦
        let q : x ≡ e = ground arith in
        record {
          found = rw g (ap some q);
          mine = subst (λ y. y.creator_id ≡ user_id) q (ground arith);
        }
    | inr m ↦
        let q : x.id ≡ k = ground arith in
        let rest = found-Own user_id k es {e = e} (ground arith) u.1 in
        let h' = rest.found in let no = subst (λ j. row j es ≡ none) q u.0 in cc
  ]
]

-- What `create_event` stores is new, with and without organizers.
organized-New :
    (ks : List ℕ) (f : Fresh) (e : EventCreate) (user_id channel_id : ℕ)
    → let stored = organized ks f (prepare_event_data e f.event_id user_id channel_id) in
      New user_id stored × (stored.id ≡ f.event_id)
unfolding prepare_event_data
organized-New [] f e user_id channel_id =
    (record { mine = refl; unopened = refl; planned = refl; no_start = refl; no_end = refl }, refl)
organized-New (o ∷ os) f e user_id channel_id = elim (Bool-cases (has_twice (o ∷ os))) [
  | inl twice ↦ rw twice (
    record { mine = refl; unopened = refl; planned = refl; no_start = refl; no_end = refl },
    refl,
  )
  | inr once ↦ rw once (
    record { mine = refl; unopened = refl; planned = refl; no_start = refl; no_end = refl },
    refl,
  )
]

-- The steps.
create-Step :
    (now : ℕ) (f : Fresh) (e : EventCreate) (user_id : ℕ) (d : Tables)
    → row f.event_id d.events ≡ none
    → Step now user_id d.events (run now user_id (create f e) d).events
unfolding run
create-Step now f e user_id d fresh = elim (create_event-events f e user_id d fresh) [
  | inl q ↦ kept q
  | inr q ↦
      let k =
        channel_of (get_or_create_channel f.channel_id e.channel_name user_id (open_on d)).0 in
      let (new, same) = organized-New e.organizer_ids f e user_id k in
      created (organized e.organizer_ids f (prepare_event_data e f.event_id user_id k)) new
        (subst (λ j. row j d.events ≡ none) (sym same) fresh) q
]

start-Step :
    (now k : ℕ) (g : String) (a : Option String) (user_id : ℕ) (d : Tables)
    → Step now user_id d.events (run now user_id (start k g a) d).events
unfolding run
start-Step now k g a user_id d = elim (Option-cases (row k d.events)) [
  | inl h ↦ kept (start_event-missing now k user_id g a d h)
  | inr (e, h) ↦ elim (start_event-events now k user_id g a d h) [
    | inl q ↦ kept q
    | inr (m, c, q) ↦
        opened k e (record { found = h; mine = c }) m
          (q ∙ ap (λ j. change j (go_live now) d.events) (row-id k d.events h))
  ]
]

finish-Step :
    (now k : ℕ) (a : Option Bool) (user_id : ℕ) (d : Tables)
    → UniqueIds d.events
    → Step now user_id d.events (run now user_id (finish k a) d).events
unfolding run
finish-Step now k a user_id d u =
    elim (Option-cases (find? (λ e. e.id == k && e.creator_id == user_id) d.events)) [
      | inl h ↦ kept (end_event-missing now k user_id a d h)
      | inr (e, h) ↦ elim (end_event-events now k user_id a d h) [
        | inl q ↦ kept q
        | inr (l, q) ↦ ended k e (found-Own user_id k d.events h u) l q
      ]
    ]

update-Step :
    (now k : ℕ) (c : EventUpdate) (user_id : ℕ) (d : Tables)
    → UniqueIds d.events
    → Step now user_id d.events (run now user_id (update k c) d).events
unfolding run
update-Step now k c user_id d u =
    elim (Option-cases (find? (λ e. e.id == k && e.creator_id == user_id) d.events)) [
      | inl h ↦ kept (update_event-missing k user_id c d h)
      | inr (e, h) ↦ elim (update_event-events k user_id c d) [
        | inl q ↦ kept q
        | inr q ↦ edited k e c d.users (found-Own user_id k d.events h u) q
      ]
    ]

delete-Step :
    (now k user_id : ℕ) (d : Tables)
    → Step now user_id d.events (run now user_id (delete k) d).events
unfolding run
delete-Step now k user_id d = elim (Option-cases (row k d.events)) [
  | inl h ↦ kept (delete_event-missing k user_id d h)
  | inr (e, h) ↦ elim (delete_event-events k user_id d h) [
    | inl q ↦ kept q
    | inr (c, q) ↦ deleted k e (record { found = h; mine = c }) q
  ]
]

-- Every request is a step.
pub run-Step :
    (now user_id : ℕ) (c : Call) (d : Tables)
    → FreshIn c d.events
    → UniqueIds d.events
    → Step now user_id d.events (run now user_id c d).events
run-Step now user_id (create f e) d fresh u = create-Step now f e user_id d fresh
run-Step now user_id (start k g a) d fresh u = start-Step now k g a user_id d
run-Step now user_id (finish k a) d fresh u = finish-Step now k a user_id d u
run-Step now user_id (update k c) d fresh u = update-Step now k c user_id d u
run-Step now user_id (delete k) d fresh u = delete-Step now k user_id d
