-- ===== src/Cache/Through.antt =====
-- The decorators `cached` and `cached_db` of app/config/redis_config.py and the calls of
-- `delete_pattern` that follow a change. Keys are values, as the text of a key determines the call
-- but for a collision of its hash; the life time of an entry is left out, and Redis answers.
pub mod Hits
pub mod Serving
pub mod Runs
use spoutbreeze_backend.Prelude.{
  ℕ, Bool, true, false, not, Option, none, some, List, [], ◌∷◌, keep, if◌then◌else◌,
}
use spoutbreeze_backend.Prelude.Session.{Action, Outcome, ok, raised, Session, open_on}

-- The tables and the entries.
pub record World (D K A : Type 0) : Type 0 where
  pub tables : D
  pub entries : List (K × A)

-- What a request does.
abbrev pub Request : Type 0 → Type 0 → Type 0 → Type 0 → Type 0
Request D K A B = World D K A → Outcome B × World D K A

-- A service call with its answer as one of the answers of a cache.
abbrev pub answered : {D A B : Type 0} → (B → A) → Action D B → Action D A
answered f m s = let r = m s in (elim r.0 [ ok b ↦ ok (f b) | raised e ↦ raised e ], r.1)

module _ {D K A : Type 0} where
  -- A service call on a session of its own, which is closed at the end.
  abbrev pub on_session : {B : Type 0} → Action D B → Request D K A B
  on_session m w = let r = m (open_on w.tables) in (r.0, record w { tables = r.1.durable })

  -- `cache.delete_pattern` with the prefix of a group of keys
  abbrev pub drop_keys : (K → Bool) → World D K A → World D K A
  drop_keys p w = record w { entries = keep (λ e. not (p e.0)) w.entries }

  -- A call that drops keys when it ends well.
  abbrev pub then_drop : {B : Type 0} → Request D K A B → (K → Bool) → Request D K A B
  then_drop f p w =
      let r = f w in elim r.0 [ ok b ↦ (ok b, drop_keys p r.1) | raised e ↦ (raised e, r.1) ]

  -- `cache.set`
  abbrev pub set_entry : K → A → World D K A → World D K A
  set_entry k a w = record w { entries = (k, a) ∷ w.entries }

  -- What `wrapper` does after the call, and before it.
  abbrev pub kept_answer : K → Outcome A × World D K A → Outcome A × World D K A
  kept_answer k r = elim r.0 [ ok a ↦ (ok a, set_entry k a r.1) | raised e ↦ (raised e, r.1) ]

  abbrev pub on_hit : World D K A → Outcome A × World D K A → Option A → Outcome A × World D K A
  on_hit w r none = r
  on_hit w r (some a) = (ok a, w)

-- Equality of keys.
module _ {K A : Type 0} (same : K → K → Bool) where
  -- `cache.get`
  abbrev pub get_entry : K → List (K × A) → Option A
  get_entry k [] = none
  get_entry k (e ∷ es) = let rest = get_entry k es in if same e.0 k then some e.1 else rest

  -- `hit is not None`, for answers that may be None
  abbrev pub hit : (A → Bool) → K → List (K × A) → Option A
  hit is_value k es = elim (get_entry k es) [
    | none ↦ none
    | some a ↦ if is_value a then some a else none
  ]

  -- `wrapper`
  unfoldable pub cached : {D : Type 0} → (A → Bool) → K → Request D K A A → Request D K A A
  cached is_value k f w = on_hit w (kept_answer k (f w)) (hit is_value k w.entries)
