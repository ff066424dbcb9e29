-- ===== src/Organizations/Mine.antt =====
-- The routes of app/controllers/org_admin_controller.py on the organization and its members. `me`
-- is the authenticated user, as the cache may hold it. Codes, tokens and ids that are drawn, the
-- clock and the answers of Keycloak are inputs; a text of a request is one that its schema has
-- stripped.
use spoutbreeze_backend.Prelude.{
  ℕ, Bool, true, false, Option, none, some, List, [], ◌∷◌, String, ◌==◌, str_eq, ◌||◌, not, is_some,
  find?, keep, if◌then◌else◌,
}
use spoutbreeze_backend.Prelude.Session.{
  Outcome, http, value_error, integrity_error, gets, modify, commit, rollback,
}
use spoutbreeze_backend.Organizations.Texts.{member}
use spoutbreeze_backend.Organizations.Store.{
  User, set_roles_list, has_role, Organization, EmailDomain, Invite, Tables, row, change_user,
  organization_by_id, invite_by_code, domain_row, usable,
}
use spoutbreeze_backend.Organizations.Server.{
  Request, pure, raise, ◌>>=◌, ◌>>◌, db, raise_if, answered, require, set_user_role,
  invalidate_user_cache,
}
use spoutbreeze_backend.Organizations.Responses.{
  OrganizationResponse, serialize_org, DomainVerificationStatus, pending_status,
}

-- `require_org_admin`: the organization of the caller.
unfoldable pub require_org_admin : User → Request ℕ
unfolding has_role
require_org_admin me = do
  raise_if (not (has_role "admin" me)) (http 403)
  require me.organization_id (http 403)

-- `get_my_organization`
unfoldable pub get_my_organization : User → Request OrganizationResponse
unfolding serialize_org
get_my_organization me = do
  k ← require me.organization_id (http 404)
  found ← db (gets (organization_by_id k))
  o ← require found (http 404)
  db (gets (serialize_org o))

abbrev pub in_organization : ℕ → User → Bool
in_organization k u = elim u.organization_id [ none ↦ false | some j ↦ j == k ]

-- `list_my_organization_users`
unfoldable pub list_my_organization_users : User → Request (List User)
unfolding require_org_admin
list_my_organization_users me = do
  k ← require_org_admin me
  db (gets (λ d. keep (in_organization k) d.users))

-- `ORG_ADMIN_MANAGEABLE_ROLES`
abbrev pub org_admin_manageable_roles : List String
org_admin_manageable_roles = "moderator" ∷ "admin" ∷ []

abbrev pub found_in : ℕ → Option User → Option User
found_in k none = none
found_in k (some u) = if in_organization k u then some u else none

-- `update_my_organization_user_role`; `new_role` is stripped and in lower case.
unfoldable pub update_my_organization_user_role :
    User → ℕ → String → Outcome (Unit {0}) → Request (Option User)
unfolding require_org_admin has_role set_user_role
update_my_organization_user_role me user_id new_role keycloak = do
  k ← require_org_admin me
  found ← db (gets (λ d. row user_id d.users))
  target ← require (found_in k found) (http 404)
  raise_if (target.id == me.id) (http 400)
  raise_if (has_role "super_admin" target) (http 403)
  raise_if (not (member new_role org_admin_manageable_roles)) (http 400)
  answered keycloak
  set_user_role user_id new_role

abbrev pub new_invite : String → ℕ → ℕ → Invite
new_invite code k user_id = record {
  code = code;
  organization_id = k;
  created_by_user_id = some user_id;
  revoked_at = none;
  expires_at = none;
}

abbrev pub add_invite : Invite → Tables → Tables
add_invite i d = record d { invites = i ∷ d.invites }

-- The row breaks a constraint: the code is taken, or the organization or the user is gone.
unfoldable pub invite_refused : String → ℕ → ℕ → Tables → Bool
invite_refused code k user_id d =
    is_some (invite_by_code code d)
    || not (is_some (organization_by_id k d))
    || not (is_some (row user_id d.users))

-- `CreateMyOrgRequest`
pub record CreateMyOrgRequest : Type 0 where
  pub name : String
  pub email_domain : String

-- What is drawn for a new organization.
pub record Drawn : Type 0 where
  pub organization_id : ℕ
  pub token : String
  pub code : String

abbrev pub new_organization : CreateMyOrgRequest → Drawn → Organization
new_organization p x = record { id = x.organization_id; name = p.name; is_active = true }

abbrev pub new_domain : String → ℕ → String → EmailDomain
new_domain s k token = record {
  domain = s;
  organization_id = k;
  verified_at = none;
  verification_token = some token;
}

abbrev pub add_domain : EmailDomain → Tables → Tables
add_domain r d = record d { email_domains = r ∷ d.email_domains }

-- The flush of the organization with its domain is refused.
unfoldable pub claim_refused : CreateMyOrgRequest → Drawn → Tables → Bool
claim_refused p x d =
    is_some (find? (λ o. str_eq o.name p.name) d.organizations)
    || is_some (organization_by_id x.organization_id d)
    || is_some (domain_row p.email_domain d)

abbrev pub founder : ℕ → User → User
founder k u =
    set_roles_list ("admin" ∷ [])
      (record u { organization_id = some k; has_completed_onboarding = true })

-- `create_my_organization`, up to the renewal of the cookies.
unfoldable pub create_my_organization :
    User
    → CreateMyOrgRequest
    → Drawn
    → Outcome (Unit {0})
    → Request (OrganizationResponse × DomainVerificationStatus)
unfolding set_roles_list claim_refused invite_refused invalidate_user_cache serialize_org
create_my_organization me p x keycloak = do
  raise_if (is_some me.organization_id) (http 409)
  answered keycloak
  refused ← db (gets (claim_refused p x))
  if refused then db rollback >> raise (http 409) else pure tt
  db (
      modify (λ d.
        add_domain (new_domain p.email_domain x.organization_id x.token)
          (record d { organizations = new_organization p x ∷ d.organizations })))
  found ← db (gets (λ d. row me.id d.users))
  target ← require found value_error
  db (modify (change_user me.id (founder x.organization_id)))
  clash ← db (gets (invite_refused x.code x.organization_id me.id))
  raise_if clash integrity_error
  db (modify (add_invite (new_invite x.code x.organization_id me.id)))
  db commit
  invalidate_user_cache target.keycloak_id
  answer ← db (gets (serialize_org (new_organization p x)))
  pure (answer, pending_status p.email_domain x.token)

abbrev pub if_usable : ℕ → Option Invite → Option Invite
if_usable now none = none
if_usable now (some i) = if usable now i then some i else none

abbrev pub placed : ℕ → User → User
placed k u = record u { organization_id = some k; has_completed_onboarding = true }

-- `join_my_organization`
unfoldable pub join_my_organization : ℕ → User → String → Request OrganizationResponse
unfolding invalidate_user_cache serialize_org
join_my_organization now me code = do
  raise_if (is_some me.organization_id) (http 409)
  found ← db (gets (invite_by_code code))
  invite ← require (if_usable now found) (http 404)
  org ← db (gets (organization_by_id invite.organization_id))
  o ← require org (http 404)
  mine ← db (gets (λ d. row me.id d.users))
  target ← require mine value_error
  db (modify (change_user me.id (placed o.id)))
  db commit
  invalidate_user_cache target.keycloak_id
  db (gets (serialize_org o))

abbrev pub onboarded : User → User
onboarded u = record u { has_completed_onboarding = true }

-- `skip_onboarding`
unfoldable pub skip_onboarding : User → Request (Unit {0})
unfolding invalidate_user_cache
skip_onboarding me = do
  found ← db (gets (λ d. row me.id d.users))
  target ← require found value_error
  if target.has_completed_onboarding then pure tt else (do
    db (modify (change_user me.id onboarded))
    db commit
    invalidate_user_cache target.keycloak_id)
