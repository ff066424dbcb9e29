-- ===== src/Prelude/Session.antt =====
-- A database session as the services use it: what is durable, and what the session has flushed
-- or changed since. `commit` makes the changes durable, `rollback` drops them, and closing a
-- session (app/config/database/session.py, `get_db`) drops what was not committed.
use mathlib.Core.Path.{◌≡◌, ap, refl}
use mathlib.Core.Logic.{◌⊎◌, inl, inr}
use mathlib.Core.Bool.{Bool}
use Prim.Native.Nat.{ℕ}
use spoutbreeze_backend.Prelude.Tests.{if◌then◌else◌}

pub record Session (S : Type 0) : Type 0 where
  pub durable : S
  pub work : S

-- The exceptions that the services raise. The texts of the messages are left out.
pub data Error : Type 0 where
  http : ℕ → Error
  value_error permission_error integrity_error pending_rollback_error stripe_error remote_error :
      Error

pub data Outcome (A : Type 0) : Type 0 where
  ok : A → Outcome A
  raised : Error → Outcome A

-- A call on a session: it ends with a result or an exception, and leaves a session.
abbrev pub Action : Type 0 → Type 0 → Type 0
Action S A = Session S → Outcome A × Session S

-- The two ends of a call.
abbrev pub Outcome-cases :
    {B : Type 0} (o : Outcome B) → ((b : B) × (o ≡ ok b)) ⊎ ((e : Error) × (o ≡ raised e))
Outcome-cases (ok b) = inl (b, refl)
Outcome-cases (raised e) = inr (e, refl)

module _ {S : Type 0} where
  abbrev pub pure : {A : Type 0} → A → Action S A
  pure a s = (ok a, s)

  abbrev pub raise : {A : Type 0} → Error → Action S A
  raise e s = (raised e, s)

  infixl 5 ◌>>=◌ ◌>>◌
  abbrev pub ◌>>=◌ : {A B : Type 0} → Action S A → (A → Action S B) → Action S B
  ◌>>=◌ m f s = let (r, s') = m s in elim r [ ok a ↦ f a s' | raised e ↦ (raised e, s') ]

  abbrev pub ◌>>◌ : {A B : Type 0} → Action S A → Action S B → Action S B
  m >> k = m >>= λ _. k

  -- What the session sees.
  abbrev pub gets : {A : Type 0} → (S → A) → Action S A
  gets f s = (ok (f s.work), s)

  abbrev pub modify : (S → S) → Action S (Unit {0})
  modify f s = (ok tt, record s { work = f s.work })

  abbrev pub commit : Action S (Unit {0})
  commit s = (ok tt, record s { durable = s.work })

  abbrev pub rollback : Action S (Unit {0})
  rollback s = (ok tt, record s { work = s.durable })

  abbrev pub raise_if : Bool → Error → Action S (Unit {0})
  raise_if b e s = (if b then raised e else ok tt, s)

  -- `except Exception: await db.rollback(); raise`.
  abbrev pub rolling_back : {A : Type 0} → Action S A → Action S A
  rolling_back m s =
      let (r, s') = m s in
      elim r [ ok a ↦ (ok a, s') | raised e ↦ (raised e, record s' { work = s'.durable }) ]

  -- `db.close()` at the end of a request.
  abbrev pub close : Session S → Session S
  close s = record s { work = s.durable }

  -- A session that has just been opened on a database.
  abbrev pub open_on : S → Session S
  open_on d = record { durable = d; work = d }

  -- What follows a call that ends well goes on from its session.
  pub bind_ok :
      {A B : Type 0} (m : Action S A) (f : A → Action S B) (s : Session S) {a : A} {s' : Session S}
      → m s ≡ (ok a, s')
      → (m >>= f) s ≡ f a s'
  bind_ok m f s h = ap (λ x. elim x.0 [ ok a ↦ f a x.1 | raised e ↦ (raised e, x.1) ]) h
