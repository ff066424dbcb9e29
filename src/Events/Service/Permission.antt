-- ===== src/Events/Service/Permission.antt =====
-- Who may change an event: only its creator, organizers included among the others.
use mathlib.Core.Path.{subst}
use spoutbreeze_backend.Prelude.{
  ℕ, ◌≡◌, ◌≢◌, inl, inr, refl, ◌∙◌, false, none, some, List, arith, ◌==◌, Bool-cases,
}
use spoutbreeze_backend.Events.Store.{Event, Tables}
use spoutbreeze_backend.Events.Service.{go_live, finish as end_now}
use spoutbreeze_backend.Events.Forms.{updated}
use spoutbreeze_backend.Events.Service.Rows.{row, UniqueIds, row-change_ne, row-remove_ne}
use spoutbreeze_backend.Events.Service.Step.{
  Call, run, FreshIn, Own, Step, run-Step, kept, created, opened, ended, edited, deleted,
}

-- A row of the user is not the row of another creator.
other_row :
    (user_id k j : ℕ) (es : List Event) {e x : Event}
    → row k es ≡ some e
    → e.creator_id ≢ user_id
    → Own user_id j es x
    → (k == j) ≡ false
other_row user_id k j es {e} {x} h n o = elim (Bool-cases (k == j)) [
  | inr g ↦ g
  | inl g ↦
      let i : k ≡ j = ground arith in
      let at_k : row k es ≡ some x = rw i o.found in
      let same : x ≡ e = cc in absurd (n (subst (λ y. y.creator_id ≡ user_id) same o.mine))
]

Step-others :
    (now user_id : ℕ) (es es' : List Event)
    → Step now user_id es es'
    → (k : ℕ) {e : Event} → row k es ≡ some e
    → e.creator_id ≢ user_id
    → row k es' ≡ some e
Step-others now user_id es es' (kept q) k h n = rw q h
Step-others now user_id es es' (created x y f q) k h n = elim (Bool-cases (x.id == k)) [
  | inl g ↦ let i : x.id ≡ k = ground arith in let no = subst (λ j. row j es ≡ none) i f in cc
  | inr g ↦ rw q (rw g h)
]
Step-others now user_id es es' (opened j x o m q) k h n =
    rw q (row-change_ne (go_live now) (λ y. refl) j k es (other_row user_id k j es h n o) ∙ h)
Step-others now user_id es es' (ended j x o l q) k h n =
    rw q (row-change_ne (end_now now) (λ y. refl) j k es (other_row user_id k j es h n o) ∙ h)
Step-others now user_id es es' (edited j x u us o q) k h n =
    rw q (row-change_ne (updated u us) (λ y. refl) j k es (other_row user_id k j es h n o) ∙ h)
Step-others now user_id es es' (deleted j x o q) k h n =
    rw q (row-remove_ne j k es (other_row user_id k j es h n o) ∙ h)

-- A request of a user who is not the creator of an event leaves the event as it was, all columns
-- and its organizers, whichever call it makes and on whichever event. Ids are unique, and a drawn
-- id is on no row.
pub run-others :
    (now user_id : ℕ) (c : Call) (d : Tables) (k : ℕ) {e : Event}
    → FreshIn c d.events
    → UniqueIds d.events
    → row k d.events ≡ some e
    → e.creator_id ≢ user_id
    → row k (run now user_id c d).events ≡ some e
run-others now user_id c d k fresh u h n =
    Step-others now user_id d.events (run now user_id c d).events (run-Step now user_id c d fresh u)
      k h n
