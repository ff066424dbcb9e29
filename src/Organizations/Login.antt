-- ===== src/Organizations/Login.antt =====
-- `process_user_info` of app/controllers/auth_controller.py: the row of a user who logs in. The
-- domain of the e-mail address is stripped and in lower case.
pub mod Placing
use spoutbreeze_backend.Prelude.{
  ℕ, Bool, true, false, Option, none, some, List, [], ◌∷◌, String, ◌==◌, str_eq, truthy, ◌&&◌, ◌||◌,
  not, is_some, find?, if◌then◌else◌,
}
use spoutbreeze_backend.Prelude.Session.{integrity_error, gets, modify, commit}
use spoutbreeze_backend.Organizations.Store.{
  User, set_roles_list, EmailDomain, Tables, row, change_user,
}
use spoutbreeze_backend.Organizations.Server.{Request, pure, ◌>>=◌, ◌>>◌, db, raise_if}

-- What Keycloak says of the user; `domain` is that of the e-mail address.
pub record UserInfo : Type 0 where
  pub sub : String
  pub preferred_username : Option String
  pub email : Option String
  pub given_name : Option String
  pub family_name : Option String
  pub domain : String

-- `extract_keycloak_roles`, of the roles of the client.
unfoldable pub extract_keycloak_roles : List String → Option (List String)
extract_keycloak_roles [] = none
extract_keycloak_roles (r ∷ rs) = some (r ∷ rs)

abbrev or_else : Option String → String → String
or_else none s = s
or_else (some t) s = t

abbrev with_roles : Option (List String) → User → User
with_roles none u = u
with_roles (some rs) u = set_roles_list rs u

-- The row of the domain, if it is verified.
unfoldable pub verified_domain : String → Tables → Option EmailDomain
verified_domain s d =
    if truthy s
    then find? (λ r. str_eq r.domain s && is_some r.verified_at) d.email_domains
    else none

abbrev in_domain : Option EmailDomain → User → User
in_domain none u = u
in_domain (some r) u = record u {
  organization_id = some r.organization_id;
  has_completed_onboarding = true;
}

abbrev pub new_user : ℕ → UserInfo → User
new_user k i = record {
  id = k;
  keycloak_id = i.sub;
  username = or_else i.preferred_username "";
  email = or_else i.email "";
  first_name = or_else i.given_name "";
  last_name = or_else i.family_name "";
  roles = "moderator";
  has_completed_onboarding = false;
  default_resolution = none;
  organization_id = none;
}

abbrev refreshed : UserInfo → User → User
refreshed i u = record u {
  username = or_else i.preferred_username u.username;
  email = or_else i.email u.email;
  first_name = or_else i.given_name u.first_name;
  last_name = or_else i.family_name u.last_name;
}

-- Another row has the id, the name or the address.
abbrev identity_taken : User → Tables → Bool
identity_taken v d = is_some (
    find? (λ u. not (u.id == v.id) && (str_eq u.email v.email || str_eq u.username v.username))
      d.users)

-- `process_user_info`
unfoldable pub process_user_info : ℕ → UserInfo → Option (List String) → Request User
unfolding set_roles_list verified_domain
process_user_info new_id i roles = do
  existing ← db (gets (λ d. find? (λ u. str_eq u.keycloak_id i.sub) d.users))
  placing ← db (gets (verified_domain i.domain))
  elim existing [
    | none ↦
        let v = in_domain placing (with_roles roles (new_user new_id i)) in
        (do
          id_taken ← db (gets (λ d. is_some (row new_id d.users)))
          taken ← db (gets (identity_taken v))
          raise_if (id_taken || taken) integrity_error
          db (modify (λ d. record d { users = v ∷ d.users }))
          db commit
          pure v)
    | some u ↦
        let v = with_roles roles (refreshed i u) in
        (do
          taken ← db (gets (identity_taken v))
          raise_if taken integrity_error
          db (modify (change_user u.id (λ w. with_roles roles (refreshed i w))))
          db commit
          pure v)
  ]
