-- ===== src/Streams/Tracker/RoundTrip.antt =====
-- Adding a stream and removing it again.
use spoutbreeze_backend.Prelude.{
  ℕ, ◌≡◌, refl, ap, sym, ◌∙◌, Bool, false, Option, none, some, List, String, arith, ◌==◌,
  Bool-cases, inl, inr, elem, if◌then◌else◌, given,
}
use spoutbreeze_backend.Prelude.Dict.{Entry, get, put, get-put_self}
use spoutbreeze_backend.Streams.Tracker.{
  Store, Tracker, members, insert, discard, without, put_platform, added, removed, owner, store,
  choose, write, add_stream, remove_stream, get_user_streams,
}
use spoutbreeze_backend.Streams.Tracker.Sets.{
  members-put, members-put_ne, members-without_self, members-without_ne, discard-insert,
}

-- A platform as `if platform:` reads it.
abbrev pub named : Option String → Option String
named none = none
named (some p) = if given (some p) then some p else none

platform-added :
    (sid : ℕ) (p : Option String) (d : List (Entry String))
    → get sid d ≡ none
    → get sid (put_platform sid p d) ≡ named p
platform-added sid none d h = h
platform-added sid (some p) d h = elim (Bool-cases (given (some p))) [
  | inl g ↦ rw g (get-put_self sid p d)
  | inr g ↦ rw g h
]

-- The user and the platform that a store has for a stream that has been added.
owner-added :
    (u sid : ℕ) (p : Option String) (t : Store)
    → get sid t.stream_platforms ≡ none
    → owner sid (added u sid p t) ≡ (some u, named p)
owner-added u sid p t h =
    rw (get-put_self sid u t.stream_to_user) (rw (platform-added sid p t.stream_platforms h) refl)

-- The streams of every user in a store, after a stream is added and removed.
members-removed-added :
    (u v sid : ℕ) (p : Option String) (t : Store)
    → elem sid (members u t.user_streams) ≡ false
    → members v (removed sid (added u sid p t)).user_streams ≡ members v t.user_streams
members-removed-added u v sid p t h =
    let xs = members u t.user_streams in
    let d = put u (insert sid xs) t.user_streams in
    let mine : (removed sid (added u sid p t)).user_streams ≡ without (some u) sid d =
      ap (λ o. without o sid d) (get-put_self sid u t.stream_to_user) in
    ap (members v) mine ∙ elim (Bool-cases (v == u)) [
      | inr g ↦ members-without_ne u v sid d g ∙ members-put_ne u v (insert sid xs) t.user_streams g
      | inl g ↦
          let i : v ≡ u = ground arith in
          ap (λ w. members w (without (some u) sid d)) i
          ∙ members-without_self u sid d
          ∙ ap (discard sid) (members-put u (insert sid xs) t.user_streams)
          ∙ discard-insert sid xs h
          ∙ ap (λ w. members w t.user_streams) (sym i)
    ]

pub choose-write :
    (s : Store) (r : Option Store) (f : Store) → let (r', f') = write s r f in choose r' f' ≡ s
choose-write s none f = refl
choose-write s (some r) f = refl

-- A stream that is new to the store in use, added and then removed: the removal names its user and
-- its platform, and every user has the streams of before, with Redis or without it, whether the
-- database takes the rows or not.
pub remove_stream-add_stream :
    (saved saved' : Bool) (u v sid : ℕ) (p : Option String) (t : Tracker)
    → elem sid (get_user_streams u t) ≡ false
    → get sid (store t).stream_platforms ≡ none
    → let (who, t') = remove_stream saved' sid (add_stream saved u sid p t) in
      (who ≡ (some u, named p)) × (get_user_streams v t' ≡ get_user_streams v t)
unfolding add_stream remove_stream get_user_streams
remove_stream-add_stream saved saved' u v sid p t h g =
    let s = store t in
    let kept = choose-write (added u sid p s) t.redis t.fallback in
    let (r, f) = write (added u sid p s) t.redis t.fallback in
    (
      ap (owner sid) kept ∙ owner-added u sid p s g,
      ap (λ x. members v x.user_streams) (choose-write (removed sid (choose r f)) r f)
          ∙ ap (λ x. members v (removed sid x).user_streams) kept
          ∙ members-removed-added u v sid p s h,
    )
