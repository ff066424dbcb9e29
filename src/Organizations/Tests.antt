-- ===== src/Organizations/Tests.antt =====
-- Concrete requests on users and organizations.
use spoutbreeze_backend.Prelude.{
  ℕ, ◌≡◌, inl, refl, true, false, Option, none, some, [], ◌∷◌, String, is_some,
}
use spoutbreeze_backend.Prelude.Session.{Outcome, ok, raised, http}
use spoutbreeze_backend.Organizations.Store.{
  User, EmailDomain, Invite, Tables, row, change_user, has_role, get_roles_list,
  verification_record_value, active_invite_for_org,
}
use spoutbreeze_backend.Organizations.Server.{Caches, Server}
use spoutbreeze_backend.Organizations.Responses.{DomainVerificationStatus}
use spoutbreeze_backend.Organizations.Mine.{
  join_my_organization, placed, new_invite, update_my_organization_user_role,
}
use spoutbreeze_backend.Organizations.Claims.{
  rotate_my_organization_invite, add_my_organization_domain, verify_my_organization_domain_by_name,
}
use spoutbreeze_backend.Organizations.Claims.Invites.{
  next, join_my_organization-rotated, join_my_organization-rotate,
}
use spoutbreeze_backend.Organizations.Users.{update_user_role}
use spoutbreeze_backend.Organizations.Users.Stale.{seen, update_user_role-stale}
use spoutbreeze_backend.Organizations.Requests.{update_role, perform}
use spoutbreeze_backend.Organizations.Requests.Step.{server}
use spoutbreeze_backend.Organizations.Requests.Members.{perform-outsiders, perform-super_admin}
use spoutbreeze_backend.Organizations.Login.{UserInfo, process_user_info}
use spoutbreeze_backend.Organizations.Login.Placing.{process_user_info-verified}

abbrev user : ℕ → String → String → Option ℕ → User
user k name roles org = record {
  id = k;
  keycloak_id = name;
  username = name;
  email = name;
  first_name = name;
  last_name = name;
  roles = roles;
  has_completed_onboarding = is_some org;
  default_resolution = none;
  organization_id = org;
}

abbrev root : User
root = user 1 "root" "super_admin, admin" none

abbrev ana : User
ana = user 2 "ana" "moderator, admin" (some 9)

abbrev ben : User
ben = user 3 "ben" "moderator" (some 9)

abbrev cem : User
cem = user 4 "cem" "moderator" none

abbrev invite : Invite
invite = new_invite "first" 9 2

abbrev domain : EmailDomain
domain = record {
  domain = "x.org";
  organization_id = 9;
  verified_at = none;
  verification_token = some "t1";
}

abbrev tables : Tables
tables = record {
  users = root ∷ ana ∷ ben ∷ cem ∷ [];
  organizations = record { id = 9; name = "School"; is_active = true } ∷ [];
  email_domains = domain ∷ [];
  invites = invite ∷ [];
}

abbrev caches : Caches
caches = record { user_profile = []; user_keycloak = ana ∷ [] }

-- Roles are read without the spaces between them.
root_roles : get_roles_list root ≡ "super_admin" ∷ "admin" ∷ []
unfolding get_roles_list
root_roles = refl

-- The super admin makes ben an admin, and the answer still has the role of before.
promoted :
    update_user_role root 3 "admin" (ok tt) (server tables (some caches))
    ≡ (ok (some ben), (update_user_role root 3 "admin" (ok tt) (server tables (some caches))).1)
unfolding update_user_role
promoted = refl

update_user_role-stale_example :
    let s' = (update_user_role root 3 "admin" (ok tt) (server tables (some caches))).1 in
    (some ben ≡ seen 3 caches tables)
    × (is_some (some ben) ≡ true)
    × (s'.session.durable ≡ change_user 3 (λ v. record v { roles = "admin" }) tables)
update_user_role-stale_example =
    update_user_role-stale root 3 "admin" (ok tt) tables caches (some ben)
      (update_user_role root 3 "admin" (ok tt) (server tables (some caches))).1 promoted

-- Ana rotates the invite of her organization.
abbrev start : Server
start = server tables none

abbrev rotation : Server
rotation = (rotate_my_organization_invite 50 ana "second" (next start)).1

rotation_answer :
    rotate_my_organization_invite 50 ana "second" (next start)
    ≡ (ok (new_invite "second" 9 2), rotation)
unfolding rotate_my_organization_invite
rotation_answer = refl

first_active : active_invite_for_org 50 9 tables ≡ some invite
unfolding active_invite_for_org
first_active = refl

join_my_organization-rotated_example :
    join_my_organization 60 cem "first" (next rotation) ≡ (raised (http 404), next rotation)
join_my_organization-rotated_example =
    join_my_organization-rotated 50 60 ana cem "second" (new_invite "second" 9 2) invite 9 start
      rotation refl first_active rotation_answer refl

join_my_organization-rotate_example :
    row 4 (join_my_organization 60 cem "second" (next rotation)).1.session.durable.users
    ≡ some (placed 9 cem)
join_my_organization-rotate_example =
    join_my_organization-rotate 50 60 ana cem "second" (new_invite "second" 9 2) 9 start rotation
      cem refl rotation_answer refl refl

-- Ana tries to change the role of the super admin, and makes ben an admin.
root_super : has_role "super_admin" root ≡ true
unfolding has_role
root_super = refl

perform-outsiders_example :
    row 1
      (perform ana (update_role 1 "moderator" (ok tt)) (server tables none)).session.durable.users
    ≡ some root
perform-outsiders_example =
    perform-outsiders ana (update_role 1 "moderator" (ok tt)) tables none 1 refl refl
      (inl root_super)

root_stays :
    row 1 (perform ana (update_role 3 "admin" (ok tt)) (server tables none)).session.durable.users
    ≡ some root
unfolding update_my_organization_user_role
root_stays = refl

perform-super_admin_example :
    (u : User) × ((row 1 tables.users ≡ some u) × (has_role "super_admin" u ≡ true))
perform-super_admin_example =
    perform-super_admin ana (update_role 3 "admin" (ok tt)) tables none 1 root root_stays root_super

-- Ana claims a domain, and verifies another.
abbrev info : UserInfo
info = record {
  sub = "dora";
  preferred_username = some "dora";
  email = some "dora@x.org";
  given_name = none;
  family_name = none;
  domain = "x.org";
}

abbrev claim : Outcome DomainVerificationStatus × Server
claim = add_my_organization_domain ana "y.org" "t2" (server tables none)

abbrev check : Outcome DomainVerificationStatus × Server
check =
    verify_my_organization_domain_by_name 70 (λ n. some (verification_record_value "t1" ∷ [])) ana
      "x.org" (server tables none)

abbrev answer_of : Outcome DomainVerificationStatus → DomainVerificationStatus
answer_of (ok a) = a
answer_of (raised e) = record {
  domain = "";
  verified = false;
  verification_token = none;
  record_name = none;
  record_value = none;
}

claim_ends : claim ≡ (ok (answer_of claim.0), claim.1)
unfolding add_my_organization_domain
claim_ends = refl

check_ends : check ≡ (ok (answer_of check.0), check.1)
unfolding verify_my_organization_domain_by_name
check_ends = refl

check_verified : (answer_of check.0).verified ≡ true
unfolding verify_my_organization_domain_by_name
check_verified = refl

abbrev dora : User
dora = record (user 5 "dora" "moderator" (some 9)) {
  email = "dora@x.org";
  first_name = "";
  last_name = "";
}

abbrev login : Outcome User × Server
login = process_user_info 5 info none (server check.1.session.durable check.1.caches)

login_ends : login ≡ (ok dora, login.1)
unfolding process_user_info verify_my_organization_domain_by_name
login_ends = refl

process_user_info-verified_example : dora.organization_id ≡ some 9
process_user_info-verified_example =
    process_user_info-verified 70 (λ n. some (verification_record_value "t1" ∷ [])) ana "x.org"
      tables none (answer_of check.0) check.1 login.1 9 domain 5 info none dora refl refl refl
      check_ends check_verified refl refl refl login_ends
