-- ===== src/Organizations/Requests/Step.antt =====
-- What a request does to the durable rows of users, on every path.
use spoutbreeze_backend.Prelude.{
  ℕ, ◌≡◌, ◌⊎◌, inl, inr, refl, true, false, Option, none, some, List, String, arith, ◌==◌,
  update_where, Option-cases,
}
use spoutbreeze_backend.Prelude.Session.{Outcome, open_on}
use spoutbreeze_backend.Organizations.Texts.{member}
use spoutbreeze_backend.Organizations.Store.{
  User, Organization, Invite, Tables, row, invite_by_code, organization_by_id, has_role,
  set_roles_list, get_roles_list,
}
use spoutbreeze_backend.Organizations.Server.{
  Caches, Server, set_user_role, get_user_by_id_cached, invalidate_user_cache,
}
use spoutbreeze_backend.Organizations.Mine.{
  require_org_admin, in_organization, found_in, org_admin_manageable_roles, founder, if_usable,
  placed, onboarded, CreateMyOrgRequest, Drawn, update_my_organization_user_role,
  create_my_organization, join_my_organization, skip_onboarding,
}
use spoutbreeze_backend.Organizations.Claims.{
  store_invite, check_pending, get_my_organization_invite, rotate_my_organization_invite,
  add_my_organization_domain, verify_my_organization_domain, verify_my_organization_domain_by_name,
  delete_my_organization_domain,
}
use spoutbreeze_backend.Organizations.Requests.{
  Call, update_role, create, join, skip, get_invite, rotate_invite, add_domain, verify_domain,
  verify_domain_by_name, delete_domain, perform,
}

-- The members whose role a user may change.
pub record Manageable (me : User) (us : List User) (k : ℕ) (r : String) : Type 0 where
  pub organization : ℕ
  pub of_me : me.organization_id ≡ some organization
  pub target : User
  pub found : row k us ≡ some target
  pub of_target : in_organization organization target ≡ true
  pub not_me : (target.id == me.id) ≡ false
  pub not_super : has_role "super_admin" target ≡ false
  pub allowed : member r org_admin_manageable_roles ≡ true

abbrev pub with_role : String → User → User
with_role r u = record u { roles = r }

-- A change that keeps the id and makes nobody a super admin.
pub record Harmless (f : User → User) : Type 0 where
  pub ids : (u : User) → (f u).id ≡ u.id
  pub no_super : (u : User) → has_role "super_admin" (f u) ≡ true → has_role "super_admin" u ≡ true

founder-Harmless : (k : ℕ) → Harmless (founder k)
unfolding set_roles_list has_role get_roles_list
founder-Harmless k = record { ids = λ u. refl; no_super = λ u h. ground (arith, h) }

placed-Harmless : (k : ℕ) → Harmless (placed k)
unfolding has_role get_roles_list
placed-Harmless k = record { ids = λ u. refl; no_super = λ u h. h }

onboarded-Harmless : Harmless onboarded
unfolding has_role get_roles_list
onboarded-Harmless = record { ids = λ u. refl; no_super = λ u h. h }

-- The rows stay, or the user's own row is changed harmlessly, or a member gets a role.
pub data Step (me : User) (us us' : List User) : Type 0 where
  kept : us' ≡ us → Step me us us'
  own :
      (f : User → User) → Harmless f → us' ≡ update_where (λ u. u.id == me.id) f us → Step me us us'
  managed :
      (k : ℕ) (r : String)
      → Manageable me us k r
      → us' ≡ update_where (λ u. u.id == k) (with_role r) us
      → Step me us us'

-- A server at the start of a request.
abbrev pub server : Tables → Option Caches → Server
server d c = record { session = open_on d; caches = c }

abbrev users_of : {A : Type 0} → Outcome A × Server → List User
users_of (r, s) = s.session.durable.users

-- The cached read and the invalidation leave the session.
get_user_by_id_cached-session :
    (k : ℕ) (s : Server) → (get_user_by_id_cached k s).1.session ≡ s.session
unfolding get_user_by_id_cached
get_user_by_id_cached-session k s = ground arith

join_with :
    (now : ℕ) (me : User) (code : String) (d : Tables) (c : Option Caches) {i : Invite}
    {o : Organization}
    → if_usable now (invite_by_code code d) ≡ some i
    → organization_by_id i.organization_id d ≡ some o
    → let us = users_of (join_my_organization now me code (server d c)) in
      (us ≡ d.users) ⊎ (us ≡ update_where (λ u. u.id == me.id) (placed o.id) d.users)
unfolding join_my_organization invalidate_user_cache
join_with now me code d c h g = ground (arith, h, g)

join-step :
    (now : ℕ) (me : User) (code : String) (d : Tables) (c : Option Caches)
    → Step me d.users (users_of (join_my_organization now me code (server d c)))
unfolding join_my_organization
join-step now me code d c = elim (Option-cases (if_usable now (invite_by_code code d))) [
  | inl g ↦ kept (ground (arith, g))
  | inr (i, g) ↦ elim (Option-cases (organization_by_id i.organization_id d)) [
    | inl f ↦ kept (ground (arith, g, f))
    | inr (o, f) ↦ elim (join_with now me code d c g f) [
      | inl q ↦ kept q
      | inr q ↦ own (placed o.id) (placed-Harmless o.id) q
    ]
  ]
]

skip_onboarding-users :
    (me : User) (d : Tables) (c : Option Caches)
    → let us = users_of (skip_onboarding me (server d c)) in
      (us ≡ d.users) ⊎ (us ≡ update_where (λ u. u.id == me.id) onboarded d.users)
unfolding skip_onboarding invalidate_user_cache
skip_onboarding-users me d c = ground arith

create_my_organization-users :
    (me : User) (p : CreateMyOrgRequest) (x : Drawn) (a : Outcome (Unit {0})) (d : Tables)
    (c : Option Caches)
    → let us = users_of (create_my_organization me p x a (server d c)) in
      (us ≡ d.users) ⊎ (us ≡ update_where (λ u. u.id == me.id) (founder x.organization_id) d.users)
unfolding create_my_organization invalidate_user_cache
create_my_organization-users me p x a d c = ground arith

store_invite-users :
    (code : String) (k : ℕ) (me : User) (s : Server)
    → (users_of (store_invite code k me s) ≡ s.session.durable.users)
      ⊎ (users_of (store_invite code k me s) ≡ s.session.work.users)
unfolding store_invite
store_invite-users code k me s = ground arith

invite-users :
    (now : ℕ) (me : User) (code : String) (d : Tables) (c : Option Caches)
    → (users_of (get_my_organization_invite now me code (server d c)) ≡ d.users)
      × (users_of (rotate_my_organization_invite now me code (server d c)) ≡ d.users)
unfolding get_my_organization_invite rotate_my_organization_invite require_org_admin store_invite
invite-users now me code d c = (ground arith, ground arith)

domain-users :
    (now : ℕ) (me : User) (domain token : String) (resolve : String → Option (List String))
    (d : Tables) (c : Option Caches)
    → (users_of (add_my_organization_domain me domain token (server d c)) ≡ d.users)
      × (users_of (delete_my_organization_domain me domain (server d c)) ≡ d.users)
      × (users_of (verify_my_organization_domain now resolve me (server d c)) ≡ d.users)
      × (users_of (verify_my_organization_domain_by_name now resolve me domain (server d c))
          ≡ d.users)
unfolding add_my_organization_domain delete_my_organization_domain verify_my_organization_domain
    verify_my_organization_domain_by_name require_org_admin check_pending
domain-users now me domain token resolve d c =
    (ground arith, ground arith, ground arith, ground arith)

set_user_role-users :
    (k : ℕ) (r : String) (s : Server)
    → users_of (set_user_role k r s)
      ≡ update_where (λ u. u.id == k) (with_role r) s.session.work.users
unfolding set_user_role invalidate_user_cache get_user_by_id_cached
set_user_role-users k r s = ground arith

role-users :
    (me : User) (k : ℕ) (r : String) (a : Outcome (Unit {0})) (d : Tables) (c : Option Caches)
    {j : ℕ} {t : User}
    → me.organization_id ≡ some j
    → found_in j (row k d.users) ≡ some t
    → let us = users_of (update_my_organization_user_role me k r a (server d c)) in
      (us ≡ d.users)
      ⊎ ((t.id == me.id) ≡ false)
        × (has_role "super_admin" t ≡ false)
        × (member r org_admin_manageable_roles ≡ true)
        × (us ≡ update_where (λ u. u.id == k) (with_role r) d.users)
unfolding update_my_organization_user_role require_org_admin
role-users me k r a d c g f = ground (arith, g, f, set_user_role-users k r (server d c))

found_in-row :
    (j : ℕ) (o : Option User) (t : User)
    → found_in j o ≡ some t
    → (o ≡ some t) × (in_organization j t ≡ true)
found_in-row j none t h = ground arith
found_in-row j (some u) t h = ground (arith, h)

role-step :
    (me : User) (k : ℕ) (r : String) (a : Outcome (Unit {0})) (d : Tables) (c : Option Caches)
    → Step me d.users (users_of (update_my_organization_user_role me k r a (server d c)))
unfolding update_my_organization_user_role require_org_admin
role-step me k r a d c = elim (Option-cases me.organization_id) [
  | inl g ↦ kept (ground (arith, g))
  | inr (j, g) ↦ elim (Option-cases (found_in j (row k d.users))) [
    | inl f ↦ kept (ground (arith, g, f))
    | inr (t, f) ↦ elim (role-users me k r a d c g f) [
      | inl q ↦ kept q
      | inr (n, s, m, q) ↦
          let (f', o) = found_in-row j (row k d.users) t f in
          managed k r
            (record {
              organization = j;
              of_me = g;
              target = t;
              found = f';
              of_target = o;
              not_me = n;
              not_super = s;
              allowed = m;
            })
            q
    ]
  ]
]

-- Every request is one step on the rows of users.
pub perform-Step :
    (me : User) (x : Call) (d : Tables) (c : Option Caches)
    → Step me d.users (perform me x (server d c)).session.durable.users
perform-Step me (update_role k r a) d c = role-step me k r a d c
perform-Step me (create p x a) d c = elim (create_my_organization-users me p x a d c) [
  | inl q ↦ kept q
  | inr q ↦ own (founder x.organization_id) (founder-Harmless x.organization_id) q
]
perform-Step me (join now code) d c = join-step now me code d c
perform-Step me skip d c = elim (skip_onboarding-users me d c) [
  | inl q ↦ kept q
  | inr q ↦ own onboarded onboarded-Harmless q
]
perform-Step me (get_invite now code) d c = kept (invite-users now me code d c).0
perform-Step me (rotate_invite now code) d c = kept (invite-users now me code d c).1
perform-Step me (add_domain s t) d c = kept (domain-users 0 me s t (λ _. none) d c).0
perform-Step me (verify_domain now resolve) d c = kept (domain-users now me "" "" resolve d c).2
perform-Step me (verify_domain_by_name now resolve s) d c =
    kept (domain-users now me s "" resolve d c).3
perform-Step me (delete_domain s) d c = kept (domain-users 0 me s "" (λ _. none) d c).1
