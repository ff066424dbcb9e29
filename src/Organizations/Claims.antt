-- ===== src/Organizations/Claims.antt =====
-- The routes of app/controllers/org_admin_controller.py on the invites and the email domains of an
-- organization. A domain of a path is stripped, in lower case and without a leading `@`; what names
-- resolve to is an input.
pub mod Invites
use spoutbreeze_backend.Prelude.{
  ℕ, Bool, true, false, Option, none, some, List, [], ◌∷◌, String, ◌==◌, str_eq, truthy, ◌&&◌, ◌||◌,
  not, is_some, find?, keep, update_where, if◌then◌else◌,
}
use spoutbreeze_backend.Prelude.Session.{
  Outcome, http, integrity_error, gets, modify, commit, rollback,
}
use spoutbreeze_backend.Organizations.Store.{
  User, EmailDomain, Invite, Tables, organization_by_id, domain_row, domain_of,
  active_invite_for_org, verify_domain_record,
}
use spoutbreeze_backend.Organizations.Server.{
  Request, pure, raise, ◌>>=◌, ◌>>◌, db, raise_if, require,
}
use spoutbreeze_backend.Organizations.Responses.{
  DomainVerificationStatus, verified_status, pending_status,
}
use spoutbreeze_backend.Organizations.Mine.{
  require_org_admin, new_invite, add_invite, invite_refused, new_domain, add_domain,
}

-- `db.add(invite)` and `db.commit()`
unfoldable pub store_invite : String → ℕ → User → Request Invite
unfolding invite_refused
store_invite code k me = do
  clash ← db (gets (invite_refused code k me.id))
  raise_if clash integrity_error
  db (modify (add_invite (new_invite code k me.id)))
  db commit
  pure (new_invite code k me.id)

-- `get_my_organization_invite`
unfoldable pub get_my_organization_invite : ℕ → User → String → Request Invite
unfolding require_org_admin active_invite_for_org store_invite
get_my_organization_invite now me code = do
  k ← require_org_admin me
  found ← db (gets (active_invite_for_org now k))
  elim found [ some i ↦ pure i | none ↦ store_invite code k me ]

abbrev pub revoke : ℕ → Option Invite → Tables → Tables
revoke now none d = d
revoke now (some i) d = record d {
  invites =
      update_where (λ j. str_eq j.code i.code) (λ j. record j { revoked_at = some now }) d.invites;
}

-- `rotate_my_organization_invite`
unfoldable pub rotate_my_organization_invite : ℕ → User → String → Request Invite
unfolding require_org_admin active_invite_for_org store_invite
rotate_my_organization_invite now me code = do
  k ← require_org_admin me
  existing ← db (gets (active_invite_for_org now k))
  db (modify (revoke now existing))
  store_invite code k me

-- `add_my_organization_domain`; the domain is a primary key, the organization a foreign one.
unfoldable pub add_my_organization_domain :
    User → String → String → Request DomainVerificationStatus
unfolding require_org_admin
add_my_organization_domain me domain token = do
  k ← require_org_admin me
  refused ← db (gets (λ d. is_some (domain_row domain d) || not (is_some (organization_by_id k d))))
  if refused then db rollback >> raise (http 409) else pure tt
  db (modify (add_domain (new_domain domain k token)))
  db commit
  pure (pending_status domain token)

abbrev pub token_of : Option String → Option String
token_of none = none
token_of (some t) = if truthy t then some t else none

abbrev pub verify_row : ℕ → String → Tables → Tables
verify_row now domain d = record d {
  email_domains =
      update_where (λ r. str_eq r.domain domain)
        (λ r. record r { verified_at = some now; verification_token = none }) d.email_domains;
}

-- The check of a domain that is not verified.
unfoldable pub check_pending :
    ℕ → (String → Option (List String)) → EmailDomain → Request DomainVerificationStatus
unfolding verify_domain_record
check_pending now resolve r = do
  token ← require (token_of r.verification_token) (http 409)
  if verify_domain_record resolve r.domain token
      then (do db (modify (verify_row now r.domain)); db commit; pure (verified_status r.domain))
      else pure (pending_status r.domain token)

-- `verify_my_organization_domain`
unfoldable pub verify_my_organization_domain :
    ℕ → (String → Option (List String)) → User → Request DomainVerificationStatus
unfolding require_org_admin check_pending
verify_my_organization_domain now resolve me = do
  k ← require_org_admin me
  found ← db (
      gets
        (λ d. find? (λ r. r.organization_id == k && not (is_some r.verified_at)) d.email_domains))
  r ← require found (http 404)
  check_pending now resolve r

-- `verify_my_organization_domain_by_name`
unfoldable pub verify_my_organization_domain_by_name :
    ℕ → (String → Option (List String)) → User → String → Request DomainVerificationStatus
unfolding require_org_admin check_pending
verify_my_organization_domain_by_name now resolve me domain = do
  k ← require_org_admin me
  found ← db (gets (domain_of domain k))
  r ← require found (http 404)
  if is_some r.verified_at then pure (verified_status r.domain) else check_pending now resolve r

-- `delete_my_organization_domain`
unfoldable pub delete_my_organization_domain : User → String → Request (Unit {0})
unfolding require_org_admin
delete_my_organization_domain me domain = do
  k ← require_org_admin me
  found ← db (gets (domain_of domain k))
  r ← require found (http 404)
  db (
      modify (λ d. record d {
        email_domains = keep (λ q. not (str_eq q.domain r.domain)) d.email_domains;
      }))
  db commit
