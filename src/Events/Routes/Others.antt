-- ===== src/Events/Routes/Others.antt =====
-- What the routes answer to a user who asks to change the event of another.
use spoutbreeze_backend.Prelude.{
  ℕ, ◌≡◌, inl, inr, ap, Bool, false, Option, none, some, List, [], ◌∷◌, String, arith, ◌==◌, ◌&&◌,
  find?, Bool-cases,
}
use spoutbreeze_backend.Prelude.Session.{Error, value_error, permission_error, ok, raised, open_on}
use spoutbreeze_backend.Cache.Through.{World, drop_keys}
use spoutbreeze_backend.Events.Store.{Event, Tables, event_by_id}
use spoutbreeze_backend.Events.Forms.{EventUpdate}
use spoutbreeze_backend.Events.Service.{start_event, end_event, update_event, delete_event}
use spoutbreeze_backend.Events.Cached.{Key, Answer, Write, write, write_cached, drops}
use spoutbreeze_backend.Events.Routes.{refuses, Route, serve}

-- The event that a route changes, and the status code for a user to whom it does not belong.
abbrev pub changes : Route → Option (ℕ × ℕ)
changes (Route.start_event now j g a) = some (j, 403)
changes (Route.end_event now j a) = some (j, 404)
changes (Route.update_event j c) = some (j, 404)
changes (Route.delete_event j) = some (j, 403)
changes r = none

creator-ne :
    (u k : ℕ) (es : List Event) (e : Event)
    → find? (λ x. x.id == k) es ≡ some e
    → find? (λ x. x.id == k && x.creator_id == u) es ≡ none
    → (e.creator_id == u) ≡ false
creator-ne u k [] e h n = ground (arith, h)
creator-ne u k (x ∷ es) e h n = elim (Bool-cases (x.id == k)) [
  | inl i ↦ ground (arith, h, n, i)
  | inr i ↦ creator-ne u k es e (ground (arith, h, i)) (ground (arith, n, i))
]

-- A write that raises on a session that it leaves as it was leaves everything as it was.
write_cached-raised :
    (c : Write) (x : Error) (w : World Tables Key Answer)
    → write c (open_on w.tables) ≡ (raised x, open_on w.tables)
    → write_cached c w ≡ (raised x, w)
unfolding write_cached
write_cached-raised c x w h =
    ap
      (λ r. elim r.0 [
        | ok b ↦ (ok b, drop_keys (drops c) (record w { tables = r.1.durable }))
        | raised y ↦ (raised y, record w { tables = r.1.durable })
      ])
      h

module _ (u k : ℕ) (w : World Tables Key Answer) (e : Event) where
  abbrev Found : Type 0
  Found = event_by_id k w.tables ≡ some e

  abbrev NotOwn : Type 0
  NotOwn = find? (λ x. x.id == k && x.creator_id == u) w.tables.events ≡ none

  start-refused :
      (now : ℕ) (g : String) (a : Option String)
      → Found
      → NotOwn
      → write (Write.start_of now k u g a) (open_on w.tables)
        ≡ (raised permission_error, open_on w.tables)
  unfolding start_event
  start-refused now g a h n = ground (arith, h, creator-ne u k w.tables.events e h n)

  delete-refused :
      Found
      → NotOwn
      → write (Write.delete_of k u) (open_on w.tables) ≡ (raised permission_error, open_on w.tables)
  unfolding delete_event
  delete-refused h n = ground (arith, h, creator-ne u k w.tables.events e h n)

  end-refused :
      (now : ℕ) (a : Option Bool)
      → NotOwn
      → write (Write.end_of now k u a) (open_on w.tables) ≡ (raised value_error, open_on w.tables)
  unfolding end_event
  end-refused now a n = ground (arith, n)

  update-refused :
      (c : EventUpdate)
      → NotOwn
      → write (Write.update_of k c u) (open_on w.tables) ≡ (raised value_error, open_on w.tables)
  unfolding update_event
  update-refused c n = ground (arith, n)

-- A user who asks to start, end, change or delete an event that is there, and is not theirs, gets
-- the status code 403 for a start or a deletion and 404 for the others, and the tables and the
-- cache stay as they are.
pub serve-others :
    (u k code : ℕ) (r : Route) (w : World Tables Key Answer) (e : Event)
    → changes r ≡ some (k, code)
    → event_by_id k w.tables ≡ some e
    → find? (λ x. x.id == k && x.creator_id == u) w.tables.events ≡ none
    → serve u r w ≡ (refuses code, w)
unfolding serve
serve-others u k code (Route.start_event now j g a) w e c h n =
    let h' : event_by_id j w.tables ≡ some e = ground (arith, c, h) in
    let n' : find? (λ x. x.id == j && x.creator_id == u) w.tables.events ≡ none =
      ground (arith, c, n) in
    let raises =
      write_cached-raised (Write.start_of now j u g a) permission_error w
        (start-refused u j w e now g a h' n') in
    ground (arith, c, h', raises)
serve-others u k code (Route.end_event now j a) w e c h n =
    let n' : find? (λ x. x.id == j && x.creator_id == u) w.tables.events ≡ none =
      ground (arith, c, n) in
    let raises =
      write_cached-raised (Write.end_of now j u a) value_error w (end-refused u j w e now a n') in
    ground (arith, c, raises)
serve-others u k code (Route.update_event j x) w e c h n =
    let n' : find? (λ x. x.id == j && x.creator_id == u) w.tables.events ≡ none =
      ground (arith, c, n) in
    let raises =
      write_cached-raised (Write.update_of j x u) value_error w (update-refused u j w e x n') in
    ground (arith, c, raises)
serve-others u k code (Route.delete_event j) w e c h n =
    let h' : event_by_id j w.tables ≡ some e = ground (arith, c, h) in
    let n' : find? (λ x. x.id == j && x.creator_id == u) w.tables.events ≡ none =
      ground (arith, c, n) in
    let raises =
      write_cached-raised (Write.delete_of j u) permission_error w (delete-refused u j w e h' n') in
    ground (arith, c, h', raises)
serve-others u k code r w e c h n = ground (arith, c)
