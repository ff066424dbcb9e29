-- ===== src/Organizations/Responses.antt =====
-- What app/controllers/org_admin_controller.py answers (app/models/organization_schemas.py).
use text.Mathlib.Text
use Prim.Native.String.{compare}
use spoutbreeze_backend.Prelude.{
  ℕ, Bool, true, false, Option, none, some, List, [], ◌∷◌, map, String, ◌==◌, truthy, is_some, keep,
  if◌then◌else◌,
}
use spoutbreeze_backend.Organizations.Store.{
  Organization, EmailDomain, Tables, verification_record_name, verification_record_value,
}

-- `EmailDomainDetail`
pub record EmailDomainDetail : Type 0 where
  pub domain : String
  pub verified : Bool
  pub verified_at : Option ℕ
  pub record_name : Option String
  pub record_value : Option String

-- `OrganizationResponse`; its list of names is that of the details.
pub record OrganizationResponse : Type 0 where
  pub organization : Organization
  pub email_domain_details : List EmailDomainDetail

abbrev insert_domain : EmailDomain → List EmailDomain → List EmailDomain
insert_domain r [] = r ∷ []
insert_domain r (q ∷ qs) =
    let rest = insert_domain r qs in
    if Text.is_le (compare r.domain q.domain) then r ∷ q ∷ qs else q ∷ rest

-- `sorted(org.email_domains, key=lambda x: x.domain)`
abbrev sorted : List EmailDomain → List EmailDomain
sorted [] = []
sorted (r ∷ rs) = insert_domain r (sorted rs)

abbrev value_of_token : Option String → Option String
value_of_token none = none
value_of_token (some t) = if truthy t then some (verification_record_value t) else none

abbrev detail : EmailDomain → EmailDomainDetail
detail r = record {
  domain = r.domain;
  verified = is_some r.verified_at;
  verified_at = r.verified_at;
  record_name = if is_some r.verified_at then none else some (verification_record_name r.domain);
  record_value = if is_some r.verified_at then none else value_of_token r.verification_token;
}

-- `_serialize_org`
unfoldable pub serialize_org : Organization → Tables → OrganizationResponse
serialize_org o d = record {
  organization = o;
  email_domain_details =
      map detail (sorted (keep (λ r. r.organization_id == o.id) d.email_domains));
}

-- `DomainVerificationStatus`
pub record DomainVerificationStatus : Type 0 where
  pub domain : String
  pub verified : Bool
  pub verification_token : Option String
  pub record_name : Option String
  pub record_value : Option String

-- The status of a domain that is verified, and of one that waits for its record.
abbrev pub verified_status : String → DomainVerificationStatus
verified_status s = record {
  domain = s;
  verified = true;
  verification_token = none;
  record_name = none;
  record_value = none;
}

abbrev pub pending_status : String → String → DomainVerificationStatus
pending_status s token = record {
  domain = s;
  verified = false;
  verification_token = some token;
  record_name = some (verification_record_name s);
  record_value = some (verification_record_value token);
}
