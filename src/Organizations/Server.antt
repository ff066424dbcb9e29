-- ===== src/Organizations/Server.antt =====
-- A request of the user controllers: a database session beside the caches of
-- app/services/cached/user_service_cached.py in Redis. The cached roles and lists of users are left
-- out.
use spoutbreeze_backend.Prelude.{
  ℕ, Bool, Option, none, some, List, [], ◌∷◌, String, str_eq, truthy, find?, if◌then◌else◌,
}
use spoutbreeze_backend.Prelude.Session.{
  Outcome, ok, raised, Error, http, Session, Action, modify, commit, rollback,
}
use spoutbreeze_backend.Organizations.Store.{User, Tables, row, change_user}

-- The keys of the prefixes `user_profile` and `user_keycloak`, as the rows that they hold.
pub record Caches : Type 0 where
  pub user_profile : List User
  pub user_keycloak : List User

-- `caches` is none while Redis is not connected.
pub record Server : Type 0 where
  pub session : Session Tables
  pub caches : Option Caches

abbrev pub Request : Type 0 → Type 0
Request A = Server → Outcome A × Server

abbrev pub pure : {A : Type 0} → A → Request A
pure a s = (ok a, s)

abbrev pub raise : {A : Type 0} → Error → Request A
raise e s = (raised e, s)

infixl 5 ◌>>=◌ ◌>>◌
abbrev pub ◌>>=◌ : {A B : Type 0} → Request A → (A → Request B) → Request B
◌>>=◌ m f s = let (r, s') = m s in elim r [ ok a ↦ f a s' | raised e ↦ (raised e, s') ]

abbrev pub ◌>>◌ : {A B : Type 0} → Request A → Request B → Request B
m >> k = m >>= λ _. k

-- A call of the session.
abbrev pub db : {A : Type 0} → Action Tables A → Request A
db m s = let (r, session) = m s.session in (r, record s { session = session })

abbrev pub raise_if : Bool → Error → Request (Unit {0})
raise_if b e s = (if b then raised e else ok tt, s)

-- What another service answers: a result or an exception.
abbrev pub answered : {A : Type 0} → Outcome A → Request A
answered r s = (r, s)

-- A row that is there, or an exception.
abbrev pub require : {A : Type 0} → Option A → Error → Request A
require none e = raise e
require (some a) e = pure a

abbrev http_or_500 : Error → Error
http_or_500 (http c) = http c
http_or_500 _ = http 500

-- `except HTTPException: rollback, raise` and `except Exception: rollback, raise a 500`
abbrev pub failing_with_500 : {A : Type 0} → Request A → Request A
failing_with_500 m s =
    let (r, s') = m s in
    elim r [
      | ok a ↦ (ok a, s')
      | raised e ↦ (raised (http_or_500 e), record s' { session = (rollback s'.session).1 })
    ]

-- `UserServiceCached.get_user_by_id_cached`
unfoldable pub get_user_by_id_cached : ℕ → Request (Option User)
get_user_by_id_cached k s =
    let found = row k s.session.work.users in
    elim s.caches [
      | none ↦ (ok found, s)
      | some c ↦ elim (row k c.user_profile) [
        | some u ↦ (ok (some u), s)
        | none ↦ elim found [
          | none ↦ (ok none, s)
          | some u ↦ (
            ok (some u),
            record s { caches = some (record c { user_profile = u ∷ c.user_profile }) },
          )
        ]
      ]
    ]

-- `UserServiceCached.get_user_by_keycloak_id_cached`
unfoldable pub get_user_by_keycloak_id_cached : String → Request (Option User)
get_user_by_keycloak_id_cached k s =
    let found = find? (λ u. str_eq u.keycloak_id k) s.session.work.users in
    elim s.caches [
      | none ↦ (ok found, s)
      | some c ↦ elim (find? (λ u. str_eq u.keycloak_id k) c.user_keycloak) [
        | some u ↦ (ok (some u), s)
        | none ↦ elim found [
          | none ↦ (ok none, s)
          | some u ↦ (
            ok (some u),
            record s { caches = some (record c { user_keycloak = u ∷ c.user_keycloak }) },
          )
        ]
      ]
    ]

-- The keys of every user are dropped, as the patterns match them all.
abbrev without_users : String → Caches → Caches
without_users k c = record {
  user_profile = [];
  user_keycloak = if truthy k then [] else c.user_keycloak;
}

-- `UserServiceCached.invalidate_user_cache`; a missing id is the empty one.
unfoldable pub invalidate_user_cache : String → Request (Unit {0})
invalidate_user_cache k s =
    (ok tt, record s { caches = elim s.caches [ none ↦ none | some c ↦ some (without_users k c) ] })

abbrev pub keycloak_of : Option User → String
keycloak_of none = ""
keycloak_of (some u) = u.keycloak_id

-- `UserServiceCached.update_user_role`
unfoldable pub set_user_role : ℕ → String → Request (Option User)
unfolding get_user_by_id_cached invalidate_user_cache
set_user_role k new_role = do
  db (modify (change_user k (λ u. record u { roles = new_role })))
  db commit
  user ← get_user_by_id_cached k
  invalidate_user_cache (keycloak_of user)
  pure user
