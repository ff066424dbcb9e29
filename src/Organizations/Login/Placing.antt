-- ===== src/Organizations/Login/Placing.antt =====
-- Whom the claim of an email domain places in an organization at the first login.
use mathlib.Core.Path.{subst}
use spoutbreeze_backend.Prelude.{
  ℕ, ◌≡◌, ◌⊎◌, ==-refl, ◌∙◌, inl, inr, refl, sym, ap, Bool, true, Option, none, some, List, [], ◌∷◌,
  String, arith, ◌==◌, str_eq, truthy, ◌&&◌, eq_iff, is_some, find?, update_where, Bool-cases,
  Option-cases,
}
use spoutbreeze_backend.Prelude.Session.{ok}
use spoutbreeze_backend.Organizations.Store.{User, EmailDomain, Tables, domain_row, domain_of}
use spoutbreeze_backend.Organizations.Server.{Caches, Server}
use spoutbreeze_backend.Organizations.Responses.{DomainVerificationStatus}
use spoutbreeze_backend.Organizations.Mine.{require_org_admin, new_domain, add_domain}
use spoutbreeze_backend.Organizations.Claims.{
  add_my_organization_domain, verify_my_organization_domain_by_name, check_pending, verify_row,
}
use spoutbreeze_backend.Organizations.Requests.Step.{server}
use spoutbreeze_backend.Organizations.Login.{UserInfo, verified_domain, process_user_info}

-- The tables after a claim.
claimed :
    (me : User) (s token : String) (d : Tables) (c : Option Caches) (a : DomainVerificationStatus)
    (s' : Server)
    → add_my_organization_domain me s token (server d c) ≡ (ok a, s')
    → (k : ℕ) × (s'.session.durable ≡ add_domain (new_domain s k token) d)
unfolding add_my_organization_domain require_org_admin
claimed me s token d c a s' h = elim (Option-cases me.organization_id) [
  | inl g ↦ ground (arith, h, g)
  | inr (k, g) ↦ (k, ground (arith, h, g))
]

-- A row that is not verified is not found.
verified_domain-pending :
    (x s token : String) (k : ℕ) (d : Tables)
    → verified_domain x (add_domain (new_domain s k token) d) ≡ verified_domain x d
unfolding verified_domain
verified_domain-pending x s token k d = ground arith

-- A login reads the domains only for a verified one.
process_user_info-same :
    (n : ℕ) (i : UserInfo) (roles : Option (List String)) (d d' : Tables) (c c' : Option Caches)
    → d'.users ≡ d.users
    → verified_domain i.domain d' ≡ verified_domain i.domain d
    → (process_user_info n i roles (server d' c')).0 ≡ (process_user_info n i roles (server d c)).0
unfolding process_user_info
process_user_info-same n i roles d d' c c' u v = ground (arith, u, v)

-- An admin's claim of a domain, which is pending at first, does not change how a login ends: the
-- row of the user who logs in, and so the organization that the user is placed in, is that without
-- the claim.
pub process_user_info-pending :
    (me : User) (s token : String) (d : Tables) (c : Option Caches) (a : DomainVerificationStatus)
    (s' : Server) (n : ℕ) (i : UserInfo) (roles : Option (List String))
    → add_my_organization_domain me s token (server d c) ≡ (ok a, s')
    → (process_user_info n i roles (server s'.session.durable s'.caches)).0
      ≡ (process_user_info n i roles (server d c)).0
process_user_info-pending me s token d c a s' n i roles h =
    let (k, e) = claimed me s token d c a s' h in
    process_user_info-same n i roles d s'.session.durable c s'.caches
      (ap (λ (x : Tables). x.users) e) (rw e (verified_domain-pending i.domain s token k d))

-- A row that is found is found by a stronger test that it passes.
find?-stronger :
    (p q : EmailDomain → Bool) (rs : List EmailDomain) (r : EmailDomain)
    → find? p rs ≡ some r
    → q r ≡ true
    → find? (λ x. p x && q x) rs ≡ some r
find?-stronger p q [] r h g = ground arith
find?-stronger p q (x ∷ rs) r h g = elim (Bool-cases (p x)) [
  | inl e ↦
      let same : x ≡ r = ground (arith, h, e) in
      let at_x : q x ≡ true = subst (λ y. q y ≡ true) (sym same) g in rw e (rw at_x (ap some same))
  | inr e ↦ rw e (find?-stronger p q rs r (ground (arith, h, e)) g)
]

abbrev verified_at_time : ℕ → EmailDomain → EmailDomain
verified_at_time now r = record r { verified_at = some now; verification_token = none }

abbrev is_of : String → EmailDomain → Bool
is_of s r = str_eq r.domain s

find?-verified :
    (now : ℕ) (s : String) (rs : List EmailDomain) (r : EmailDomain)
    → find? (is_of s) rs ≡ some r
    → find?
        (λ x. is_of s x && is_some x.verified_at)
        (update_where (is_of s) (verified_at_time now) rs)
      ≡ some (verified_at_time now r)
find?-verified now s [] r h = ground arith
find?-verified now s (x ∷ rs) r h = elim (Bool-cases (str_eq x.domain s)) [
  | inl e ↦
      let same : x ≡ r = ground (arith, h, e) in
      rw e (rw e (ap (λ y. some (verified_at_time now y)) same))
  | inr e ↦ rw e (rw e (find?-verified now s rs r (ground (arith, h, e))))
]

find?-domain :
    (s : String) (rs : List EmailDomain) (r : EmailDomain)
    → find? (is_of s) rs ≡ some r
    → str_eq r.domain s ≡ true
find?-domain s [] r h = ground arith
find?-domain s (x ∷ rs) r h = ground (arith, h, find?-domain s rs r)

-- The check that says verified has the row verified, and leaves the users.
checked :
    (now : ℕ) (resolve : String → Option (List String)) (me : User) (s : String) (d : Tables)
    (c : Option Caches) (a : DomainVerificationStatus) (s' : Server) (k : ℕ) (r : EmailDomain)
    → me.organization_id ≡ some k
    → domain_of s k d ≡ some r
    → verify_my_organization_domain_by_name now resolve me s (server d c) ≡ (ok a, s')
    → a.verified ≡ true
    → ((is_some r.verified_at ≡ true) × (s'.session.durable ≡ d))
      ⊎ (s'.session.durable ≡ verify_row now r.domain d)
unfolding verify_my_organization_domain_by_name require_org_admin check_pending
checked now resolve me s d c a s' k r m f h v = ground (arith, m, f, h, v)

-- The first login of a user whose address has a verified domain.
first_login :
    (n : ℕ) (i : UserInfo) (roles : Option (List String)) (d : Tables) (c : Option Caches)
    (u : User) (s : Server) (r : EmailDomain)
    → find? (λ v. str_eq v.keycloak_id i.sub) d.users ≡ none
    → verified_domain i.domain d ≡ some r
    → process_user_info n i roles (server d c) ≡ (ok u, s)
    → u.organization_id ≡ some r.organization_id
unfolding process_user_info
first_login n i roles d c u s r e v h = ground (arith, e, v, h)

-- The row that places users of a domain, after the check.
placing_row :
    (now : ℕ) (s : String) (d d' : Tables) (r : EmailDomain)
    → domain_row s d ≡ some r
    → truthy s ≡ true
    → ((is_some r.verified_at ≡ true) × (d' ≡ d)) ⊎ (d' ≡ verify_row now r.domain d)
    → (q : EmailDomain) × ((verified_domain s d' ≡ some q)
        × (q.organization_id ≡ r.organization_id)
        × (d'.users ≡ d.users))
unfolding verified_domain
placing_row now s d d' r f t (inl (v, e)) = (
  r,
  (
    rw e (rw t (find?-stronger (is_of s) (λ x. is_some x.verified_at) d.email_domains r f v)),
    refl,
    ap (λ (x : Tables). x.users) e,
  ),
)
placing_row now s d d' r f t (inr e) =
    let q : r.domain ≡ s = (eq_iff r.domain s).0 (find?-domain s d.email_domains r f) in
    let e' : d' ≡ verify_row now s d = subst (λ x. d' ≡ verify_row now x d) q e in
    (
      verified_at_time now r,
      (
        rw e' (rw t (find?-verified now s d.email_domains r f)),
        refl,
        ap (λ (x : Tables). x.users) e',
      ),
    )

-- Once an admin's check of a domain of the organization says that it is verified, a user with an
-- address of the domain who logs in for the first time is placed in the organization of the admin.
pub process_user_info-verified :
    (now : ℕ) (resolve : String → Option (List String)) (me : User) (s : String) (d : Tables)
    (c : Option Caches) (a : DomainVerificationStatus) (s' s'' : Server) (k : ℕ) (r : EmailDomain)
    (n : ℕ) (i : UserInfo) (roles : Option (List String)) (u : User)
    → me.organization_id ≡ some k
    → domain_row s d ≡ some r
    → r.organization_id ≡ k
    → verify_my_organization_domain_by_name now resolve me s (server d c) ≡ (ok a, s')
    → a.verified ≡ true
    → i.domain ≡ s
    → truthy s ≡ true
    → find? (λ v. str_eq v.keycloak_id i.sub) d.users ≡ none
    → process_user_info n i roles (server s'.session.durable s'.caches) ≡ (ok u, s'')
    → u.organization_id ≡ some k
process_user_info-verified now resolve me s d c a s' s'' k r n i roles u m f o h v q t e l =
    let mine : (r.organization_id == k) ≡ true = rw o (==-refl k) in
    let f' = find?-stronger (is_of s) (λ x. x.organization_id == k) d.email_domains r f mine in
    let (p, w) =
      placing_row now s d s'.session.durable r f t
        (checked now resolve me s d c a s' k r m f' h v) in
    let absent = subst (λ us. find? (λ v. str_eq v.keycloak_id i.sub) us ≡ none) (sym w.2) e in
    let known = subst (λ x. verified_domain x s'.session.durable ≡ some p) (sym q) w.0 in
    first_login n i roles s'.session.durable s'.caches u s'' p absent known l ∙ ap some (w.1 ∙ o)
