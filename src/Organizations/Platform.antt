-- ===== src/Organizations/Platform.antt =====
-- The organizations as a super admin manages them (app/controllers/admin_controller.py), the user
-- having been found to be one.
use spoutbreeze_backend.Prelude.{
  ℕ, Bool, true, false, Option, none, some, List, [], ◌∷◌, String, ◌==◌, str_eq, ◌&&◌, ◌||◌, not,
  is_some, find?, keep, update_where, if◌then◌else◌,
}
use spoutbreeze_backend.Prelude.Session.{http, integrity_error, gets, modify, commit, rollback}
use spoutbreeze_backend.Organizations.Texts.{member}
use spoutbreeze_backend.Organizations.Store.{
  User, Organization, EmailDomain, Tables, organization_by_id, domain_row,
}
use spoutbreeze_backend.Organizations.Server.{
  Request, pure, raise, ◌>>=◌, ◌>>◌, db, raise_if, require,
}
use spoutbreeze_backend.Organizations.Responses.{OrganizationResponse, serialize_org}
use spoutbreeze_backend.Organizations.Mine.{in_organization}

-- `OrganizationCreate`
pub record OrganizationCreate : Type 0 where
  pub name : String
  pub email_domains : List String

-- `OrganizationUpdate`
pub record OrganizationUpdate : Type 0 where
  pub name : Option String
  pub is_active : Option Bool
  pub email_domains : Option (List String)

abbrev trusted_domain : ℕ → ℕ → String → EmailDomain
trusted_domain now k s = record {
  domain = s;
  organization_id = k;
  verified_at = some now;
  verification_token = none;
}

abbrev add_trusted : ℕ → ℕ → List String → Tables → Tables
add_trusted now k [] d = d
add_trusted now k (s ∷ ss) d =
    add_trusted now k ss (record d { email_domains = trusted_domain now k s ∷ d.email_domains })

-- Some domain of the list has a row, or stands in the list twice.
unfoldable pub domains_refused : List String → Tables → Bool
domains_refused [] d = false
domains_refused (s ∷ ss) d = is_some (domain_row s d) || member s ss || domains_refused ss d

-- Another organization has the name.
unfoldable pub organization_name_taken : ℕ → String → Tables → Bool
organization_name_taken k name d =
    is_some (find? (λ o. str_eq o.name name && not (o.id == k)) d.organizations)

abbrev conflict_if : Bool → Request (Unit {0})
conflict_if refused = if refused then db rollback >> raise (http 409) else pure tt

abbrev organization_of : ℕ → OrganizationCreate → Organization
organization_of k p = record { id = k; name = p.name; is_active = true }

-- `create_organization`
unfoldable pub create_organization : ℕ → ℕ → OrganizationCreate → Request OrganizationResponse
unfolding domains_refused organization_name_taken serialize_org
create_organization now new_id p = do
  refused ← db (
      gets (λ d.
        is_some (organization_by_id new_id d)
        || organization_name_taken new_id p.name d
        || domains_refused p.email_domains d))
  conflict_if refused
  db (
      modify (λ d.
        add_trusted now new_id p.email_domains
          (record d { organizations = organization_of new_id p ∷ d.organizations })))
  db commit
  db (gets (serialize_org (organization_of new_id p)))

-- `_fetch_org_or_404`
unfoldable pub fetch_org_or_404 : ℕ → Request Organization
fetch_org_or_404 k = do found ← db (gets (organization_by_id k)); require found (http 404)

-- `get_organization`
unfoldable pub get_organization : ℕ → Request OrganizationResponse
unfolding fetch_org_or_404 serialize_org
get_organization k = do o ← fetch_org_or_404 k; db (gets (serialize_org o))

abbrev or_else {ℓ} : {A : Type ℓ} → Option A → A → A
or_else none a = a
or_else (some b) a = b

abbrev edited : OrganizationUpdate → Organization → Organization
edited p o = record o { name = or_else p.name o.name; is_active = or_else p.is_active o.is_active }

abbrev change_organization : ℕ → (Organization → Organization) → Tables → Tables
change_organization k f d = record d {
  organizations = update_where (λ o. o.id == k) f d.organizations;
}

abbrev without_domains : ℕ → Tables → Tables
without_domains k d = record d {
  email_domains = keep (λ r. not (r.organization_id == k)) d.email_domains;
}

-- `update_organization`: with new domains the name is already flushed before the `try`.
unfoldable pub update_organization : ℕ → ℕ → OrganizationUpdate → Request OrganizationResponse
unfolding fetch_org_or_404 domains_refused organization_name_taken serialize_org
update_organization now k p = do
  o ← fetch_org_or_404 k
  taken ← db (gets (organization_name_taken k (or_else p.name o.name)))
  raise_if (taken && is_some p.email_domains) integrity_error
  conflict_if taken
  db (modify (change_organization k (edited p)))
  elim p.email_domains [
    | none ↦ pure tt
    | some ss ↦ (do
      db (modify (without_domains k))
      refused ← db (gets (domains_refused ss))
      conflict_if refused
      db (modify (add_trusted now k ss)))
  ]
  db commit
  db (gets (serialize_org (edited p o)))

abbrev unassigned : User → User
unassigned u = record u { organization_id = none }

-- `delete_organization`: domains and invites go with it, and members stay without one.
unfoldable pub delete_organization : ℕ → Request (Unit {0})
unfolding fetch_org_or_404
delete_organization k = do
  o ← fetch_org_or_404 k
  db (
      modify (λ d. record {
        users = update_where (in_organization k) unassigned d.users;
        organizations = keep (λ q. not (q.id == k)) d.organizations;
        email_domains = keep (λ r. not (r.organization_id == k)) d.email_domains;
        invites = keep (λ i. not (i.organization_id == k)) d.invites;
      }))
  db commit
