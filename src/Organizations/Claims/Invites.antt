-- ===== src/Organizations/Claims/Invites.antt =====
-- A code that was handed out, across the calls of an admin and of those who join.
use mathlib.Core.Path.{subst}
use text.Mathlib.TextPositions.{eq_refl}
use spoutbreeze_backend.Prelude.{
  eq_iff, ℕ, ◌≡◌, inl, inr, refl, sym, ◌&&◌, Bool, true, false, Option, none, some, List, [], ◌∷◌,
  String, arith, ◌==◌, str_eq, is_some, find?, update_where, Bool-cases, Option-cases,
}
use spoutbreeze_backend.Prelude.Session.{ok, raised, open_on, http}
use spoutbreeze_backend.Organizations.Store.{
  User, Organization, Invite, Tables, row, change_user, invite_by_code, usable, organization_by_id,
  active_invite_for_org,
}
use spoutbreeze_backend.Organizations.Server.{Server, invalidate_user_cache}
use spoutbreeze_backend.Organizations.Mine.{
  require_org_admin, join_my_organization, invite_refused, new_invite, add_invite, if_usable,
  placed,
}
use spoutbreeze_backend.Organizations.Claims.{revoke, rotate_my_organization_invite, store_invite}

-- The next request, on a session of its own.
abbrev pub next : Server → Server
next s = record s { session = open_on s.session.durable }

-- The tables after a rotation, and what it answers.
rotated :
    (now : ℕ) (me : User) (code : String) (new : Invite) (k : ℕ) (s s' : Server)
    → me.organization_id ≡ some k
    → rotate_my_organization_invite now me code (next s) ≡ (ok new, s')
    → let d = s.session.durable in
      let after = revoke now (active_invite_for_org now k d) d in
      (new ≡ new_invite code k me.id)
      × (s'.session.durable ≡ add_invite new after)
      × (invite_refused code k me.id after ≡ false)
unfolding rotate_my_organization_invite require_org_admin store_invite
rotated now me code new k s s' m h = ground (arith, m, h)

abbrev has_code : String → Invite → Bool
has_code c i = str_eq i.code c

abbrev revoked : ℕ → Invite → Invite
revoked now i = record i { revoked_at = some now }

-- No invite of a revoked code is usable.
find?-revoked :
    (now later : ℕ) (c : String) (is : List Invite)
    → if_usable later (find? (has_code c) (update_where (has_code c) (revoked now) is)) ≡ none
find?-revoked now later c [] = refl
find?-revoked now later c (i ∷ is) = elim (Bool-cases (str_eq i.code c)) [
  | inl g ↦ rw g (rw g refl)
  | inr g ↦ rw g (rw g (find?-revoked now later c is))
]

-- The code of a row that a search finds is a code of the table.
find?-code :
    (p : Invite → Bool) (now : ℕ) (is : List Invite) (x : Invite)
    → find? p is ≡ some x
    → is_some (find? (has_code x.code) (update_where (has_code x.code) (revoked now) is)) ≡ true
find?-code p now [] x h = ground arith
find?-code p now (i ∷ is) x h = ground (arith, h, eq_refl x.code, find?-code p now is x)

-- The new code is not the former one.
fresh_code :
    (now : ℕ) (me : User) (code : String) (k : ℕ) (former : Invite) (d : Tables)
    → active_invite_for_org now k d ≡ some former
    → invite_refused code k me.id (revoke now (some former) d) ≡ false
    → str_eq code former.code ≡ false
unfolding invite_refused active_invite_for_org
fresh_code now me code k former d a c = elim (Bool-cases (str_eq code former.code)) [
  | inr g ↦ g
  | inl g ↦
      let known = find?-code (λ i. i.organization_id == k && usable now i) now d.invites former a in
      let same : former.code ≡ code = sym ((eq_iff code former.code).0 g) in
      let clash : is_some (invite_by_code code (revoke now (some former) d)) ≡ true =
        subst
          (λ x.
            is_some
              (find? (has_code x) (update_where (has_code former.code) (revoked now) d.invites))
            ≡ true)
          same known in
      ground (arith, c, clash)
]

-- Without a usable invite for the code a join changes nothing.
join-unusable :
    (later : ℕ) (you : User) (c : String) (s : Server)
    → you.organization_id ≡ none
    → if_usable later (invite_by_code c s.session.work) ≡ none
    → join_my_organization later you c s ≡ (raised (http 404), s)
unfolding join_my_organization
join-unusable later you c s y n = ground (arith, y, n)

-- Once an admin has rotated the invite of the organization, the code that was active before admits
-- nobody, at any time: a join with it by a user without organization ends in 404 and changes
-- nothing.
pub join_my_organization-rotated :
    (now later : ℕ) (me you : User) (code : String) (new former : Invite) (k : ℕ) (s s' : Server)
    → me.organization_id ≡ some k
    → active_invite_for_org now k s.session.durable ≡ some former
    → rotate_my_organization_invite now me code (next s) ≡ (ok new, s')
    → you.organization_id ≡ none
    → join_my_organization later you former.code (next s') ≡ (raised (http 404), next s')
join_my_organization-rotated now later me you code new former k s s' m a h y =
    let d = s.session.durable in
    let (q, e, c) = rotated now me code new k s s' m h in
    let f =
      fresh_code now me code k former d a
        (subst (λ x. invite_refused code k me.id (revoke now x d) ≡ false) a c) in
    let none_usable = find?-revoked now later former.code d.invites in
    let gone : if_usable later (invite_by_code former.code s'.session.durable) ≡ none =
      rw e (rw a (rw q (rw f none_usable))) in
    join-unusable later you former.code (next s') y gone

join-usable :
    (later : ℕ) (you : User) (c : String) (s : Server) {i : Invite} {o : Organization} {u : User}
    → you.organization_id ≡ none
    → if_usable later (invite_by_code c s.session.work) ≡ some i
    → organization_by_id i.organization_id s.session.work ≡ some o
    → row you.id s.session.work.users ≡ some u
    → (join_my_organization later you c s).1.session.durable
      ≡ change_user you.id (placed o.id) s.session.work
unfolding join_my_organization invalidate_user_cache
join-usable later you c s y n g r = ground (arith, y, n, g, r)

organization-id :
    (k : ℕ) (os : List Organization) (o : Organization)
    → find? (λ o. o.id == k) os ≡ some o
    → o.id ≡ k
organization-id k [] o h = ground arith
organization-id k (q ∷ os) o h = ground (arith, h, organization-id k os o)

row-changed :
    (k j : ℕ) (us : List User) (u : User)
    → row k us ≡ some u
    → row k (update_where (λ u. u.id == k) (placed j) us) ≡ some (placed j u)
row-changed k j [] u h = ground arith
row-changed k j (v ∷ us) u h = ground (arith, h, row-changed k j us u)

revoke-users : (now : ℕ) (x : Option Invite) (d : Tables) → (revoke now x d).users ≡ d.users
revoke-users now none d = refl
revoke-users now (some i) d = refl

-- A row that is not refused has an organization.
accepted-organization :
    (code : String) (k u : ℕ) (d : Tables)
    → invite_refused code k u d ≡ false
    → (o : Organization) × (organization_by_id k d ≡ some o)
unfolding invite_refused
accepted-organization code k u d h = elim (Option-cases (organization_by_id k d)) [
  | inl g ↦ ground (arith, h, g)
  | inr p ↦ p
]

new-usable :
    (later : ℕ) (code : String) (k u : ℕ) (d : Tables)
    → if_usable later (invite_by_code code (add_invite (new_invite code k u) d))
      ≡ some (new_invite code k u)
new-usable later code k u d = rw (eq_refl code) refl

-- The code that a rotation answers with admits a user without organization, at any time: the row of
-- the user is then one of the organization of the admin, with the onboarding completed.
pub join_my_organization-rotate :
    (now later : ℕ) (me you : User) (code : String) (new : Invite) (k : ℕ) (s s' : Server)
    (u : User)
    → me.organization_id ≡ some k
    → rotate_my_organization_invite now me code (next s) ≡ (ok new, s')
    → you.organization_id ≡ none
    → row you.id s.session.durable.users ≡ some u
    → row you.id (join_my_organization later you new.code (next s')).1.session.durable.users
      ≡ some (placed k u)
join_my_organization-rotate now later me you code new k s s' u m h y r =
    let (q, e, c) = rotated now me code new k s s' m h in
    let d = s.session.durable in
    let after = revoke now (active_invite_for_org now k d) d in
    let (o, g) = accepted-organization code k me.id after c in
    let e' : s'.session.durable ≡ add_invite (new_invite code k me.id) after = rw (sym q) e in
    let i : if_usable later (invite_by_code new.code s'.session.durable)
        ≡ some (new_invite code k me.id) =
      rw q (rw e' (new-usable later code k me.id after)) in
    let n : row you.id s'.session.durable.users ≡ some u =
      rw e' (rw (revoke-users now (active_invite_for_org now k d) d) r) in
    let g' : organization_by_id k s'.session.durable ≡ some o = rw e' g in
    let done = join-usable later you new.code (next s') y i g' n in
    let at_k = organization-id k after.organizations o g in
    rw done (rw at_k (row-changed you.id k s'.session.durable.users u n))
