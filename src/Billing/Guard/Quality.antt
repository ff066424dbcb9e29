-- ===== src/Billing/Guard/Quality.antt =====
-- The clamp of the broadcaster (`_clamp_resolution`) against the quality guard.
use spoutbreeze_backend.Prelude.{
  ℕ, ◌≤◌, ◌≡◌, refl, Bool, true, false, Option, none, some, String, truthy, arith, str_eq, eq_iff,
  Option-cases, Bool-cases, inl, inr,
}
use spoutbreeze_backend.Prelude.Session.{ok}
use spoutbreeze_backend.Billing.Plan.{Plan, get_plan_limits, max_quality}
use spoutbreeze_backend.Billing.Plan.Quality.{
  quality_order, quality_level, known_quality, clamp_level, clamp_resolution,
}
use spoutbreeze_backend.Billing.Store.{User, Subscription}
use spoutbreeze_backend.Billing.Guard.{check_stream_quality}

known_quality_level : (top : String) → (n : ℕ) × (quality_order (known_quality top) ≡ some n)
unfolding known_quality
known_quality_level top = elim (Option-cases (quality_order top)) [
  | inl e ↦ rw (e, known_quality) (2, unfold quality_order in refl)
  | inr (n, e) ↦ rw (e, known_quality) (n, e)
]

clamp_level-le :
    (requested top : String) (r m : ℕ)
    → quality_order requested ≡ some r
    → quality_order top ≡ some m
    → quality_level (clamp_level requested top (some r) (some m)) ≤ quality_level top
unfolding clamp_level quality_level
clamp_level-le requested top r m e f = ground arith

-- The clamp never exceeds a known maximum.
clamp_resolution-le :
    (requested : Option String) (top : String)
    → quality_level (clamp_resolution requested top) ≤ quality_level (known_quality top)
unfolding clamp_resolution clamp_level
clamp_resolution-le none top = omega arith
clamp_resolution-le (some requested) top =
    let (m, f) = known_quality_level top in
    elim (Option-cases (quality_order requested)) [
      | inl e ↦ ground arith
      | inr (r, e) ↦ ground (arith, clamp_level-le requested (known_quality top) r m e f)
    ]

-- The maximum of every plan is a known quality.
max_quality-known :
    (unlimited : Bool) (plan : Plan)
    → known_quality (max_quality (get_plan_limits unlimited plan))
      ≡ max_quality (get_plan_limits unlimited plan)
unfolding get_plan_limits max_quality known_quality quality_order
max_quality-known true plan = refl
max_quality-known false Plan.free = refl
max_quality-known false Plan.pro = refl
max_quality-known false Plan.enterprise = refl
max_quality-known false (Plan.other _) = refl

-- Whatever resolution is requested, also none or an unknown one, the resolution that the
-- broadcaster clamps it to under the limits of the user's plan passes the quality guard.
pub check_stream_quality-clamp_resolution :
    (u : User) (s : Subscription) (requested : Option String)
    → check_stream_quality u s
        (clamp_resolution requested (max_quality (get_plan_limits u.unlimited_access s.plan)))
      ≡ ok tt
unfolding check_stream_quality
check_stream_quality-clamp_resolution u s requested =
    let top = max_quality (get_plan_limits u.unlimited_access s.plan) in
    ground (arith, clamp_resolution-le requested top, max_quality-known u.unlimited_access s.plan)

known-truthy : (q : String) {r : ℕ} → quality_order q ≡ some r → truthy q ≡ true
known-truthy q {r} h = elim (Bool-cases (str_eq q "")) [
  | inl e ↦
      let p : q ≡ "" = (eq_iff q "").0 e in
      let h' : quality_order "" ≡ some r = rw p at h in unfold quality_order in cc h'
  | inr e ↦ rw e
]

-- A request of a known quality that the guard accepts, by a user with a limited plan, is served as
-- it was made.
pub clamp_resolution-accepted :
    (u : User) (s : Subscription) (requested : String) {r : ℕ}
    → u.unlimited_access ≡ false
    → quality_order requested ≡ some r
    → check_stream_quality u s requested ≡ ok tt
    → clamp_resolution (some requested) (max_quality (get_plan_limits u.unlimited_access s.plan))
      ≡ requested
unfolding check_stream_quality clamp_resolution clamp_level quality_level
clamp_resolution-accepted u s requested {r} limited e h =
    let top = max_quality (get_plan_limits u.unlimited_access s.plan) in
    let (m, f) = known_quality_level top in
    let known = max_quality-known u.unlimited_access s.plan in
    ground (arith, f, known, known-truthy requested e)
