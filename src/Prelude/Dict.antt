-- ===== src/Prelude/Dict.antt =====
-- A dictionary with numbers as keys, in the order of insertion.
use Prim.Native.Nat.{ℕ}
use mathlib.Core.Path.{◌≡◌, refl}
use mathlib.Core.Bool.{false}
use mathlib.Core.Option.{Option, none, some}
use mathlib.Core.List.{List, [], ◌∷◌}
use native.Mathlib.Omega.{arith}
use spoutbreeze_backend.Prelude.Tests.{◌==◌, ==-refl, if◌then◌else◌}

pub record Entry {ℓ} (A : Type ℓ) : Type ℓ where
  pub key : ℕ
  pub value : A

module _ {ℓ} {A : Type ℓ} where
  abbrev pub get : ℕ → List (Entry A) → Option A
  get u [] = none
  get u (e ∷ es) = if e.key == u then some e.value else get u es

  -- `d[u] = ws`
  abbrev pub put : ℕ → A → List (Entry A) → List (Entry A)
  put u ws [] = record { key = u; value = ws } ∷ []
  put u ws (e ∷ es) =
      let rest = put u ws es in if e.key == u then record e { value = ws } ∷ es else e ∷ rest

  -- `del d[u]`
  abbrev pub del : ℕ → List (Entry A) → List (Entry A)
  del u [] = []
  del u (e ∷ es) = let rest = del u es in if e.key == u then rest else e ∷ rest

  pub get-put_self : (u : ℕ) (ws : A) (es : List (Entry A)) → get u (put u ws es) ≡ some ws
  get-put_self u ws [] = ground (arith, ==-refl u)
  get-put_self u ws (e ∷ es) = ground (arith, get-put_self u ws es)

  pub get-put_ne :
      (u v : ℕ) (ws : A) (es : List (Entry A)) → (v == u) ≡ false → get v (put u ws es) ≡ get v es
  get-put_ne u v ws [] h = ground arith
  get-put_ne u v ws (e ∷ es) h = ground (arith, get-put_ne u v ws es h)

  pub get-del_self : (u : ℕ) (es : List (Entry A)) → get u (del u es) ≡ none
  get-del_self u [] = refl
  get-del_self u (e ∷ es) = ground (arith, get-del_self u es)

  pub get-del_ne : (u v : ℕ) (es : List (Entry A)) → (v == u) ≡ false → get v (del u es) ≡ get v es
  get-del_ne u v [] h = refl
  get-del_ne u v (e ∷ es) h = ground (arith, get-del_ne u v es h)
