-- ===== src/Organizations/Users/Stale.antt =====
-- What `update_user_role` answers while Redis is connected.
use spoutbreeze_backend.Prelude.{
  ℕ, ◌≡◌, inl, inr, true, Option, none, some, List, [], ◌∷◌, String, arith, ◌==◌, is_some,
  Option-cases,
}
use spoutbreeze_backend.Prelude.Session.{Outcome, ok}
use spoutbreeze_backend.Organizations.Store.{User, Tables, row, change_user}
use spoutbreeze_backend.Organizations.Server.{
  Caches, Server, get_user_by_id_cached, invalidate_user_cache, set_user_role,
}
use spoutbreeze_backend.Organizations.Users.{update_user_role, require_role}

row-id : (k : ℕ) (us : List User) (u : User) → row k us ≡ some u → (u.id == k) ≡ true
row-id k [] u h = ground arith
row-id k (v ∷ us) u h = ground (arith, h, row-id k us u)

-- The user as the cache has it, or the database where the cache has none.
abbrev pub seen : ℕ → Caches → Tables → Option User
seen k c d = elim (row k c.user_profile) [ some u ↦ some u | none ↦ row k d.users ]

-- With Redis connected, a role change that succeeds answers with the user as the cache had it
-- before the change, or the database where the cache had none, though the durable rows have the new
-- role and no other difference.
pub update_user_role-stale :
    (me : User) (k : ℕ) (new_role : String) (keycloak : Outcome (Unit {0})) (d : Tables)
    (c : Caches) (answer : Option User) (s' : Server)
    → update_user_role me k new_role keycloak
        (record { session = record { durable = d; work = d }; caches = some c })
      ≡ (ok answer, s')
    → (answer ≡ seen k c d)
      × (is_some answer ≡ true)
      × (s'.session.durable ≡ change_user k (λ v. record v { roles = new_role }) d)
unfolding update_user_role set_user_role get_user_by_id_cached invalidate_user_cache require_role
update_user_role-stale me k new_role keycloak d c answer s' h =
    elim (Option-cases (row k c.user_profile)) [
      | inr (u, g) ↦ ground (arith, h, g)
      | inl g ↦ elim (Option-cases (row k d.users)) [
        | inr (u, f) ↦ let i = row-id k d.users u f in ground (arith, h, g, f, i)
        | inl f ↦ ground (arith, h, g, f)
      ]
    ]
