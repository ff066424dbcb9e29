-- ===== src/Events/Service/Lifecycle.antt =====
-- The life of an event: scheduled or cancelled, then live, then ended.
use mathlib.Core.Path.{subst}
use spoutbreeze_backend.Prelude.{
  ℕ, ◌≡◌, inl, inr, refl, sym, Bool, true, false, Option, none, some, List, [], ◌∷◌, ◌≤◌, arith,
  ◌==◌, All, Bool-cases,
}
use spoutbreeze_backend.Events.Store.{EventStatus, is_live, Event, Tables}
use spoutbreeze_backend.Events.Service.{go_live, finish as end_now}
use spoutbreeze_backend.Events.Forms.{updated}
use spoutbreeze_backend.Events.Service.Rows.{
  row, change, remove, UniqueIds, row-change_self, row-change_ne, change-UniqueIds, change-All,
  row-remove_self, row-remove_ne, remove-UniqueIds, remove-All,
}
use spoutbreeze_backend.Events.Service.Step.{
  Call, run, FreshIn, New, Step, run-Step, kept, created, opened, ended, edited, deleted,
}

-- The columns that agree with the status at a time: a meeting exists once the event has gone live,
-- the event has a start time from then on, and an end time, not before it, once it has ended.
abbrev pub InPhase : ℕ → EventStatus → Bool → Option ℕ → Option ℕ → Type 0
InPhase now EventStatus.live m a b = (m ≡ true) × ((s : ℕ) × (a ≡ some s) × (s ≤ now)) × (b ≡ none)
InPhase now EventStatus.ended m a b =
    (m ≡ true) × (s : ℕ) × (t : ℕ) × (a ≡ some s) × (b ≡ some t) × (s ≤ t) × (t ≤ now)
InPhase now _ m a b = (m ≡ false) × (a ≡ none) × (b ≡ none)

abbrev pub Consistent : ℕ → Event → Type 0
Consistent now e = InPhase now e.status e.meeting_created e.actual_start_time e.actual_end_time

-- The invariant of the table of events.
abbrev pub Sound : ℕ → List Event → Type 0
Sound now es = UniqueIds es × All (Consistent now) es

later :
    (now now' : ℕ)
    → now ≤ now'
    → (st : EventStatus) (m : Bool) (a b : Option ℕ) → InPhase now st m a b
    → InPhase now' st m a b
later now now' h EventStatus.scheduled m a b p = p
later now now' h EventStatus.cancelled m a b p = p
later now now' h EventStatus.live m a b (om, (s, q, l), n) = (om, (s, q, omega (arith, l, h)), n)
later now now' h EventStatus.ended m a b (om, s, t, q, r, l, l') =
    (om, s, t, q, r, l, omega (arith, l', h))

later-All :
    (now now' : ℕ)
    → now ≤ now'
    → (es : List Event) → All (Consistent now) es
    → All (Consistent now') es
later-All now now' h [] a = tt
later-All now now' h (e ∷ es) a = (
  later now now' h e.status e.meeting_created e.actual_start_time e.actual_end_time a.0,
  later-All now now' h es a.1,
)

opening-InPhase :
    (now : ℕ) (st : EventStatus) (m : Bool) (a b : Option ℕ)
    → m ≡ false
    → InPhase now st m a b
    → InPhase now EventStatus.live true (some now) b
opening-InPhase now EventStatus.scheduled m a b h p = (refl, (now, refl, omega arith), p.2)
opening-InPhase now EventStatus.cancelled m a b h p = (refl, (now, refl, omega arith), p.2)
opening-InPhase now EventStatus.live m a b h p = let q = p.0 in cc
opening-InPhase now EventStatus.ended m a b h p = let q = p.0 in cc

ending-InPhase :
    (now : ℕ) (st : EventStatus) (m : Bool) (a b : Option ℕ)
    → is_live st ≡ true
    → InPhase now st m a b
    → InPhase now EventStatus.ended m a (some now)
ending-InPhase now EventStatus.live m a b h (om, (s, q, l), n) =
    (om, s, now, q, refl, l, omega arith)
ending-InPhase now EventStatus.scheduled m a b h p = cc
ending-InPhase now EventStatus.cancelled m a b h p = cc
ending-InPhase now EventStatus.ended m a b h p = cc

New-Consistent : (now user_id : ℕ) (e : Event) → New user_id e → Consistent now e
New-Consistent now user_id e n = rw n.planned (n.unopened, n.no_start, n.no_end)

-- Every step keeps the invariant.
Step-Sound :
    (now user_id : ℕ) (es es' : List Event) → Step now user_id es es' → Sound now es → Sound now es'
Step-Sound now user_id es es' (kept q) s = subst (Sound now) (sym q) s
Step-Sound now user_id es es' (created e n f q) s =
    subst (Sound now) (sym q) ((f, s.0), (New-Consistent now user_id e n, s.1))
Step-Sound now user_id es es' (opened k e o m q) s = subst (Sound now) (sym q) (
  change-UniqueIds (go_live now) (λ x. refl) k es s.0,
  change-All (Consistent now) (go_live now) k es o.found
      (opening-InPhase now e.status e.meeting_created e.actual_start_time e.actual_end_time m) s.0
      s.1,
)
Step-Sound now user_id es es' (ended k e o l q) s = subst (Sound now) (sym q) (
  change-UniqueIds (end_now now) (λ x. refl) k es s.0,
  change-All (Consistent now) (end_now now) k es o.found
      (ending-InPhase now e.status e.meeting_created e.actual_start_time e.actual_end_time l) s.0
      s.1,
)
Step-Sound now user_id es es' (edited k e u us o q) s = subst (Sound now) (sym q) (
  change-UniqueIds (updated u us) (λ x. refl) k es s.0,
  change-All (Consistent now) (updated u us) k es o.found (λ p. p) s.0 s.1,
)
Step-Sound now user_id es es' (deleted k e o q) s =
    subst (Sound now) (sym q) (remove-UniqueIds k es s.0, remove-All (Consistent now) k es s.1)

-- Every request, by any user and with any answer of the meeting server, keeps the invariant of the
-- table of events: no id stands twice, and the status of every event agrees with its meeting and
-- with its start and end times. The clock has not gone back, and a drawn id is on no row.
pub run-Sound :
    (before now user_id : ℕ) (c : Call) (d : Tables)
    → before ≤ now
    → FreshIn c d.events
    → Sound before d.events
    → Sound now (run now user_id c d).events
run-Sound before now user_id c d h fresh s =
    Step-Sound now user_id d.events (run now user_id c d).events
      (run-Step now user_id c d fresh s.0) (s.0, later-All before now h d.events s.1)

-- How an event may change in one request.
pub data Moves (now : ℕ) (e e' : Event) : Type 0 where
  stays :
      e'.status ≡ e.status
      → e'.actual_start_time ≡ e.actual_start_time
      → e'.actual_end_time ≡ e.actual_end_time
      → Moves now e e'
  goes_live :
      e.meeting_created ≡ false
      → e'.status ≡ EventStatus.live
      → e'.actual_start_time ≡ some now
      → e'.actual_end_time ≡ e.actual_end_time
      → Moves now e e'
  ends :
      is_live e.status ≡ true
      → e'.status ≡ EventStatus.ended
      → e'.actual_start_time ≡ e.actual_start_time
      → e'.actual_end_time ≡ some now
      → Moves now e e'

-- What a request leaves of an event: nothing, or the event of the same creator after a move.
abbrev pub Leaves : ℕ → Event → Option Event → Type 0
Leaves now e none = Unit
Leaves now e (some e') = (e'.creator_id ≡ e.creator_id) × Moves now e e'

-- The row of one event, under a change of a row of the user.
Leaves-change :
    (now k j : ℕ) (f : Event → Event) (same : (x : Event) → (f x).id ≡ x.id)
    → (es : List Event) {e : Event} → row k es ≡ some e
    → ((k ≡ j) → (f e).creator_id ≡ e.creator_id)
    → ((k ≡ j) → Moves now e (f e))
    → Leaves now e (row k (change j f es))
Leaves-change now k j f same es {e} h c m = elim (Bool-cases (k == j)) [
  | inl g ↦
      let q : k ≡ j = ground arith in
      let here : row k (change j f es) ≡ some (f e) =
        rw (sym q) (rw (row-change_self f same k es) (rw h)) in
      rw here (c q, m q)
  | inr g ↦ rw (row-change_ne f same j k es g) (rw h (refl, stays refl refl refl))
]

same_row :
    (es : List Event) (k j : ℕ) {e x : Event}
    → row k es ≡ some e
    → row j es ≡ some x
    → (k ≡ j)
    → x ≡ e
same_row es k j {e} {x} h h' i = let at_k : row k es ≡ some x = rw i h' in cc

-- What one step leaves of an event that is there before it.
Step-Leaves :
    (now user_id : ℕ) (es es' : List Event)
    → Step now user_id es es'
    → (k : ℕ) {e : Event} → row k es ≡ some e
    → Leaves now e (row k es')
Step-Leaves now user_id es es' (kept q) k {e} h = rw q (rw h (refl, stays refl refl refl))
Step-Leaves now user_id es es' (created x n f q) k {e} h = elim (Bool-cases (x.id == k)) [
  | inl g ↦ let i : x.id ≡ k = ground arith in let no = subst (λ j. row j es ≡ none) i f in cc
  | inr g ↦ rw q (rw g (rw h (refl, stays refl refl refl)))
]
Step-Leaves now user_id es es' (opened j x o m q) k {e} h = rw q (
    Leaves-change now k j (go_live now) (λ y. refl) es h (λ i. refl)
      (λ i.
        goes_live (subst (λ y. y.meeting_created ≡ false) (same_row es k j h o.found i) m) refl refl
          refl))
Step-Leaves now user_id es es' (ended j x o l q) k {e} h = rw q (
    Leaves-change now k j (end_now now) (λ y. refl) es h (λ i. refl)
      (λ i.
        ends (subst (λ y. is_live y.status ≡ true) (same_row es k j h o.found i) l) refl refl refl))
Step-Leaves now user_id es es' (edited j x u us o q) k {e} h =
    rw q (
      Leaves-change now k j (updated u us) (λ y. refl) es h (λ i. refl) (λ i. stays refl refl refl))
Step-Leaves now user_id es es' (deleted j x o q) k {e} h = elim (Bool-cases (k == j)) [
  | inl g ↦
      let i : k ≡ j = ground arith in
      let gone : row k (remove j es) ≡ none = rw i (row-remove_self j es) in rw q (rw gone tt)
  | inr g ↦ rw q (rw (row-remove_ne j k es g) (rw h (refl, stays refl refl refl)))
]

-- Whatever request is made, an event that is still there afterwards has the same creator, and its
-- status and times stay, or it goes live at that time and had no meeting yet, or it ends at that
-- time and was live. Ids are unique, and a drawn id is on no row.
pub run-Leaves :
    (now user_id : ℕ) (c : Call) (d : Tables) (k : ℕ) {e : Event}
    → FreshIn c d.events
    → UniqueIds d.events
    → row k d.events ≡ some e
    → Leaves now e (row k (run now user_id c d).events)
run-Leaves now user_id c d k fresh u h =
    Step-Leaves now user_id d.events (run now user_id c d).events (run-Step now user_id c d fresh u)
      k h
