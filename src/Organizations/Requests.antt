-- ===== src/Organizations/Requests.antt =====
-- Every request of app/controllers/org_admin_controller.py that can change something, by one user.
pub mod Step
pub mod Members
use spoutbreeze_backend.Prelude.{ℕ, Option, none, some, List, String}
use spoutbreeze_backend.Prelude.Session.{Outcome, open_on, close}
use spoutbreeze_backend.Organizations.Store.{User, Tables}
use spoutbreeze_backend.Organizations.Server.{Server, Request}
use spoutbreeze_backend.Organizations.Mine.{
  CreateMyOrgRequest, Drawn, update_my_organization_user_role, create_my_organization,
  join_my_organization, skip_onboarding,
}
use spoutbreeze_backend.Organizations.Claims.{
  get_my_organization_invite, rotate_my_organization_invite, add_my_organization_domain,
  verify_my_organization_domain, verify_my_organization_domain_by_name,
  delete_my_organization_domain,
}

pub data Call : Type 0 where
  update_role : ℕ → String → Outcome (Unit {0}) → Call
  create : CreateMyOrgRequest → Drawn → Outcome (Unit {0}) → Call
  join : ℕ → String → Call
  skip : Call
  get_invite rotate_invite : ℕ → String → Call
  add_domain : String → String → Call
  verify_domain : ℕ → (String → Option (List String)) → Call
  verify_domain_by_name : ℕ → (String → Option (List String)) → String → Call
  delete_domain : String → Call

-- The session of a request is closed whatever it ends with.
abbrev pub ended : {A : Type 0} → Outcome A × Server → Server
ended (r, s) = record s { session = close s.session }

abbrev pub perform : User → Call → Server → Server
perform me (update_role k r a) s = ended (update_my_organization_user_role me k r a s)
perform me (create p x a) s = ended (create_my_organization me p x a s)
perform me (join now c) s = ended (join_my_organization now me c s)
perform me skip s = ended (skip_onboarding me s)
perform me (get_invite now c) s = ended (get_my_organization_invite now me c s)
perform me (rotate_invite now c) s = ended (rotate_my_organization_invite now me c s)
perform me (add_domain d t) s = ended (add_my_organization_domain me d t s)
perform me (verify_domain now r) s = ended (verify_my_organization_domain now r me s)
perform me (verify_domain_by_name now r d) s =
    ended (verify_my_organization_domain_by_name now r me d s)
perform me (delete_domain d) s = ended (delete_my_organization_domain me d s)
