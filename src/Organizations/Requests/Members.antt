-- ===== src/Organizations/Requests/Members.antt =====
-- Which rows of users the requests of one user can change, and how.
use mathlib.Core.Path.{subst}
use spoutbreeze_backend.Prelude.{
  ℕ, ◌≡◌, ◌⊎◌, ◌∙◌, inl, inr, refl, sym, true, false, Option, some, List, String, arith, ◌==◌,
  str_eq, eq_iff, update_where, Bool-cases, ==_iff,
}
use spoutbreeze_backend.Organizations.Texts.{member}
use spoutbreeze_backend.Organizations.Store.{User, Tables, row, has_role, get_roles_list}
use spoutbreeze_backend.Organizations.Server.{Caches}
use spoutbreeze_backend.Organizations.Mine.{in_organization, org_admin_manageable_roles}
use spoutbreeze_backend.Organizations.Rows.{row-other, row-before}
use spoutbreeze_backend.Organizations.Requests.{Call, perform}
use spoutbreeze_backend.Organizations.Requests.Step.{
  Step, kept, own, managed, with_role, server, perform-Step,
}

-- Neither role that an organization admin can give is the one of a super admin.
manageable_role :
    (r : String) (u : User)
    → member r org_admin_manageable_roles ≡ true
    → has_role "super_admin" (with_role r u) ≡ false
unfolding has_role get_roles_list
manageable_role r u m = elim (Bool-cases (str_eq r "moderator")) [
  | inl g ↦ let q : r ≡ "moderator" = (eq_iff r "moderator").0 g in rw q refl
  | inr g ↦
      let h : str_eq r "admin" ≡ true = ground (arith, m, g) in
      let q : r ≡ "admin" = (eq_iff r "admin").0 h in rw q refl
]

Step-row :
    (me : User) (us us' : List User) (k : ℕ) {u : User}
    → Step me us us'
    → row k us ≡ some u
    → (k == me.id) ≡ false
    → ((has_role "super_admin" u ≡ true)
        ⊎ ((j : ℕ) → me.organization_id ≡ some j → in_organization j u ≡ false))
    → row k us' ≡ some u
Step-row me us us' k {u} (kept q) h n p = rw q h
Step-row me us us' k {u} (own f s q) h n p = rw q (row-other f s.ids me.id k us n ∙ h)
Step-row me us us' k {u} (managed i r m q) h n p = elim (Bool-cases (k == i)) [
  | inr g ↦ rw q (row-other (with_role r) (λ v. refl) i k us g ∙ h)
  | inl g ↦
      let e : i ≡ k = sym ((==_iff k i).0 g) in
      let found : row k us ≡ some m.target = subst (λ j. row j us ≡ some m.target) e m.found in
      let q : m.target ≡ u = ground (arith, found, h) in
      elim p [
        | inl s ↦ ground (arith, s, subst (λ v. has_role "super_admin" v ≡ false) q m.not_super)
        | inr o ↦
            let t = subst (λ v. in_organization m.organization v ≡ true) q m.of_target in
            let f = o m.organization m.of_me in ground (arith, t, f)
      ]
]

-- The same, of a row that one change was for.
changed_super :
    (i k : ℕ) (us : List User) (v : User) (f : User → User)
    → ((u : User) → has_role "super_admin" (f u) ≡ true → has_role "super_admin" u ≡ true)
    → ((u : User) → (f u).id ≡ u.id)
    → row k (update_where (λ u. u.id == i) f us) ≡ some v
    → has_role "super_admin" v ≡ true
    → (u : User) × ((row k us ≡ some u) × (has_role "super_admin" u ≡ true))
changed_super i k us v f w ids h s = elim (Bool-cases (k == i)) [
  | inr g ↦ (v, (sym (row-other f ids i k us g) ∙ h, s))
  | inl g ↦
      let e : i ≡ k = sym ((==_iff k i).0 g) in
      let h' = subst (λ j. row k (update_where (λ u. u.id == j) f us) ≡ some v) e h in
      let (u, p) = row-before f ids k us v h' in
      (u, (p.0, w u (subst (λ x. has_role "super_admin" x ≡ true) p.1 s)))
]

Step-super :
    (me : User) (us us' : List User) (k : ℕ) (v : User)
    → Step me us us'
    → row k us' ≡ some v
    → has_role "super_admin" v ≡ true
    → (u : User) × ((row k us ≡ some u) × (has_role "super_admin" u ≡ true))
Step-super me us us' k v (kept q) h s = (v, (rw (sym q) h, s))
Step-super me us us' k v (own f w q) h s =
    changed_super me.id k us v f w.no_super w.ids (rw (sym q) h) s
Step-super me us us' k v (managed i r m q) h s =
    changed_super i k us v (with_role r) (λ u g. ground (arith, g, manageable_role r u m.allowed))
      (λ u. refl) (rw (sym q) h) s

-- A request of a user to the routes for their own organization, whichever it is, leaves the row of
-- every other user as it was who is a super admin or is not in the organization of the caller.
pub perform-outsiders :
    (me : User) (x : Call) (d : Tables) (c : Option Caches) (k : ℕ) {u : User}
    → row k d.users ≡ some u
    → (k == me.id) ≡ false
    → (has_role "super_admin" u ≡ true)
      ⊎ ((j : ℕ) → me.organization_id ≡ some j → in_organization j u ≡ false)
    → row k (perform me x (server d c)).session.durable.users ≡ some u
perform-outsiders me x d c k =
    let us = (perform me x (server d c)).session.durable.users in
    Step-row me d.users us k (perform-Step me x d c)

-- No request of a user to the routes for their own organization makes a super admin: a user who is
-- one after it was one before.
pub perform-super_admin :
    (me : User) (x : Call) (d : Tables) (c : Option Caches) (k : ℕ) (v : User)
    → row k (perform me x (server d c)).session.durable.users ≡ some v
    → has_role "super_admin" v ≡ true
    → (u : User) × ((row k d.users ≡ some u) × (has_role "super_admin" u ≡ true))
perform-super_admin me x d c k v =
    let us = (perform me x (server d c)).session.durable.users in
    Step-super me d.users us k v (perform-Step me x d c)
