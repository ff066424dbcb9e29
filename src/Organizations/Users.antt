-- ===== src/Organizations/Users.antt =====
-- The routes of app/controllers/user_controller.py that read or change users. `me` is the
-- authenticated user, as the cache may hold it; the answers of Keycloak are inputs. Texts of a
-- request are stripped, an e-mail address and a role also in lower case. The best-effort
-- cancellation of a Stripe subscription before a deletion is left out.
pub mod Stale
use spoutbreeze_backend.Prelude.{
  ℕ, Bool, true, false, Option, none, some, List, [], ◌∷◌, String, ◌==◌, str_eq, truthy, ◌&&◌, ◌||◌,
  not, is_some, find?, keep, update_where, if◌then◌else◌,
}
use spoutbreeze_backend.Prelude.Session.{Outcome, http, integrity_error, gets, modify, commit}
use spoutbreeze_backend.Organizations.Texts.{member}
use spoutbreeze_backend.Organizations.Store.{
  User, get_roles_list, has_role, Invite, Tables, row, change_user, organization_by_id,
}
use spoutbreeze_backend.Organizations.Server.{
  Request, pure, raise, ◌>>=◌, ◌>>◌, db, raise_if, answered, require, failing_with_500,
  get_user_by_id_cached, invalidate_user_cache, set_user_role, keycloak_of,
}

-- `require_role`
unfoldable pub require_role : String → User → Request (Unit {0})
unfolding has_role
require_role r me = raise_if (not (has_role r me)) (http 403)

abbrev any_member : List String → List String → Bool
any_member [] ss = false
any_member (r ∷ rs) ss = member r ss || any_member rs ss

-- `require_any_role`
unfoldable pub require_any_role : List String → User → Request (Unit {0})
unfolding get_roles_list
require_any_role rs me = raise_if (not (any_member rs (get_roles_list me))) (http 403)

-- What a profile update sets.
pub record UpdateProfileRequest : Type 0 where
  pub email : Option String
  pub first_name : Option String
  pub last_name : Option String

abbrev or_else : Option String → String → String
or_else none s = s
or_else (some t) s = t

abbrev with_profile : UpdateProfileRequest → User → User
with_profile p u = record u {
  email = or_else p.email u.email;
  username = or_else p.email u.username;
  first_name = or_else p.first_name u.first_name;
  last_name = or_else p.last_name u.last_name;
}

-- Another user has the address, or has it as a name.
abbrev address_taken : ℕ → Option String → Tables → Bool
address_taken k none d = false
address_taken k (some a) d =
    is_some (find? (λ u. not (u.id == k) && (str_eq u.email a || str_eq u.username a)) d.users)

-- `update_user_profile`, with `UserServiceCached.update_user_profile`
unfoldable pub update_user_profile :
    User → UpdateProfileRequest → Outcome (Unit {0}) → Request (Option User)
unfolding get_user_by_id_cached invalidate_user_cache
update_user_profile me p keycloak = failing_with_500 (do
  raise_if (not (is_some p.email || is_some p.first_name || is_some p.last_name)) (http 400)
  answered keycloak
  taken ← db (gets (address_taken me.id p.email))
  raise_if taken integrity_error
  db (modify (change_user me.id (with_profile p)))
  db commit
  user ← get_user_by_id_cached me.id
  invalidate_user_cache (keycloak_of user)
  pure user)

-- `get_user_by_id`
unfoldable pub get_user_by_id : User → ℕ → Request User
unfolding require_any_role get_user_by_id_cached
get_user_by_id me user_id = do
  require_any_role ("super_admin" ∷ "moderator" ∷ []) me
  user ← get_user_by_id_cached user_id
  require user (http 404)

-- A user is deleted; the invites that the user made stay.
abbrev without_user : ℕ → Tables → Tables
without_user k d = record d {
  users = keep (λ u. not (u.id == k)) d.users;
  invites =
      update_where (λ i. elim i.created_by_user_id [ none ↦ false | some j ↦ j == k ])
        (λ i. record i { created_by_user_id = none }) d.invites;
}

-- `delete_user_by_admin`
unfoldable pub delete_user_by_admin : User → ℕ → Outcome (Unit {0}) → Request (Unit {0})
unfolding require_role has_role invalidate_user_cache
delete_user_by_admin me user_id keycloak = do
  require_role "super_admin" me
  raise_if (user_id == me.id) (http 400)
  found ← db (gets (λ d. row user_id d.users))
  target ← require found (http 404)
  raise_if (has_role "super_admin" target) (http 403)
  failing_with_500 (do
    if truthy target.keycloak_id then answered keycloak else pure tt
    db (modify (without_user user_id))
    db commit
    invalidate_user_cache target.keycloak_id)

-- `allowed_roles`
abbrev pub allowed_roles : List String
allowed_roles = "super_admin" ∷ "admin" ∷ "moderator" ∷ []

-- `update_user_role`
unfoldable pub update_user_role : User → ℕ → String → Outcome (Unit {0}) → Request (Option User)
unfolding require_role get_user_by_id_cached set_user_role
update_user_role me user_id new_role keycloak = do
  require_role "super_admin" me
  failing_with_500 (do
    found ← get_user_by_id_cached user_id
    target ← require found (http 404)
    raise_if (not (truthy new_role)) (http 400)
    raise_if (not (member new_role allowed_roles)) (http 400)
    raise_if (target.id == me.id) (http 400)
    answered keycloak
    set_user_role user_id new_role)

abbrev unknown_organization : Option ℕ → Tables → Bool
unknown_organization none d = false
unknown_organization (some k) d = not (is_some (organization_by_id k d))

-- `assign_user_organization`
unfoldable pub assign_user_organization : User → ℕ → Option ℕ → Request User
unfolding require_role invalidate_user_cache
assign_user_organization me user_id organization_id = do
  require_role "super_admin" me
  found ← db (gets (λ d. row user_id d.users))
  target ← require found (http 404)
  unknown ← db (gets (unknown_organization organization_id))
  raise_if unknown (http 404)
  db (modify (change_user user_id (λ u. record u { organization_id = organization_id })))
  db commit
  invalidate_user_cache target.keycloak_id
  pure (record target { organization_id = organization_id })

-- `valid_resolutions`
abbrev pub valid_resolutions : List String
valid_resolutions = "360p" ∷ "480p" ∷ "720p" ∷ "1080p" ∷ "1440p" ∷ "4K" ∷ []

-- `get_user_resolution`
unfoldable pub get_user_resolution : User → Request (Option String)
get_user_resolution me = do
  found ← db (gets (λ d. row me.id d.users))
  user ← require found (http 404)
  pure user.default_resolution

-- `update_user_resolution`
unfoldable pub update_user_resolution : User → String → Request (Option String)
unfolding invalidate_user_cache
update_user_resolution me r = failing_with_500 (do
  raise_if (not (member r valid_resolutions)) (http 400)
  found ← db (gets (λ d. row me.id d.users))
  user ← require found (http 404)
  db (modify (change_user me.id (λ u. record u { default_resolution = some r })))
  db commit
  invalidate_user_cache user.keycloak_id
  pure (some r))

-- `delete_account`
unfoldable pub delete_account : User → Outcome (Unit {0}) → Request (Unit {0})
unfolding invalidate_user_cache
delete_account me keycloak = failing_with_500 (do
  answered keycloak
  found ← db (gets (λ d. row me.id d.users))
  if is_some found then (db (modify (without_user me.id)) >> db commit) else pure tt
  invalidate_user_cache me.keycloak_id)
