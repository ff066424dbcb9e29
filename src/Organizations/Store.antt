-- ===== src/Organizations/Store.antt =====
-- The tables of app/models/organization_models.py, and the columns of app/models/user_models.py
-- that its controllers use. Rows stand newest first.
use Prim.Native.String.{◌++◌}
use spoutbreeze_backend.Prelude.{
  ℕ, Bool, true, false, Option, none, some, List, [], ◌∷◌, map, String, ◌==◌, str_eq, truthy, ◌&&◌,
  not, ltb, is_some, find?, keep, update_where,
}
use spoutbreeze_backend.Organizations.Texts.{strip, split, join, member}

pub record User : Type 0 where
  pub id : ℕ
  pub keycloak_id : String
  pub username : String
  pub email : String
  pub first_name : String
  pub last_name : String
  pub roles : String
  pub has_completed_onboarding : Bool
  pub default_resolution : Option String
  pub organization_id : Option ℕ

-- `get_roles_list`
unfoldable pub get_roles_list : User → List String
get_roles_list u = map strip (keep (λ r. truthy (strip r)) (split u.roles))

-- `set_roles_list`: an empty list changes nothing.
unfoldable pub set_roles_list : List String → User → User
set_roles_list [] u = u
set_roles_list (r ∷ rs) u = record u { roles = join (r ∷ rs) }

-- `has_role`
unfoldable pub has_role : String → User → Bool
unfolding get_roles_list
has_role r u = member r (get_roles_list u)

pub record Organization : Type 0 where
  pub id : ℕ
  pub name : String
  pub is_active : Bool

-- `OrganizationEmailDomain`
pub record EmailDomain : Type 0 where
  pub domain : String
  pub organization_id : ℕ
  pub verified_at : Option ℕ
  pub verification_token : Option String

-- `OrganizationInvite`
pub record Invite : Type 0 where
  pub code : String
  pub organization_id : ℕ
  pub created_by_user_id : Option ℕ
  pub revoked_at : Option ℕ
  pub expires_at : Option ℕ

pub record Tables : Type 0 where
  pub users : List User
  pub organizations : List Organization
  pub email_domains : List EmailDomain
  pub invites : List Invite

abbrev pub row : ℕ → List User → Option User
row k us = find? (λ u. u.id == k) us

abbrev pub change_user : ℕ → (User → User) → Tables → Tables
change_user k f d = record d { users = update_where (λ u. u.id == k) f d.users }

abbrev pub organization_by_id : ℕ → Tables → Option Organization
organization_by_id k d = find? (λ o. o.id == k) d.organizations

abbrev pub invite_by_code : String → Tables → Option Invite
invite_by_code c d = find? (λ i. str_eq i.code c) d.invites

abbrev pub domain_row : String → Tables → Option EmailDomain
domain_row s d = find? (λ r. str_eq r.domain s) d.email_domains

-- The domain, if it is one of the organization.
abbrev pub domain_of : String → ℕ → Tables → Option EmailDomain
domain_of s k d = find? (λ r. str_eq r.domain s && r.organization_id == k) d.email_domains

-- A time that is missing, or later than now.
abbrev pub not_over : ℕ → Option ℕ → Bool
not_over now none = true
not_over now (some t) = ltb now t

-- The invite can be used.
abbrev pub usable : ℕ → Invite → Bool
usable now i = not (is_some i.revoked_at) && not_over now i.expires_at

-- `_active_invite_for_org`
unfoldable pub active_invite_for_org : ℕ → ℕ → Tables → Option Invite
active_invite_for_org now k d = find? (λ i. i.organization_id == k && usable now i) d.invites

-- `verification_record_name` and `verification_record_value` of
-- app/services/org_verification_service.py
unfoldable pub verification_record_name : String → String
verification_record_name domain = "_bluescale-verify." ++ domain

unfoldable pub verification_record_value : String → String
verification_record_value token = "bluescale-verify=" ++ token

-- `verify_domain_record`, with what the name resolves to, none when that fails.
unfoldable pub verify_domain_record : (String → Option (List String)) → String → String → Bool
unfolding verification_record_name verification_record_value
verify_domain_record resolve domain token = elim (resolve (verification_record_name domain)) [
  | none ↦ false
  | some texts ↦ member (verification_record_value token) texts
]
