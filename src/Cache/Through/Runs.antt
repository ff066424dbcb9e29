-- ===== src/Cache/Through/Runs.antt =====
-- Sequences of requests, with and without a cache.
use mathlib.Core.Path.{subst}
use spoutbreeze_backend.Prelude.{
  ◌≡◌, inl, inr, refl, ap, sym, ◌∙◌, Bool, true, List, [], ◌∷◌, arith, not, keep, All, Bool-cases,
}
use spoutbreeze_backend.Prelude.Session.{Action, Outcome, raised, Error, open_on, Outcome-cases}
use spoutbreeze_backend.Cache.Through.{World, Request, answered, on_session, then_drop, drop_keys}
use spoutbreeze_backend.Cache.Through.Serving.{
  Fresh, Coherent, Serves, Drops, then_drop-Coherent, then_drop-tables, then_drop-answer,
}

-- A service call without a cache.
abbrev pub request : {D B : Type 0} → Action D B → D → Outcome B × D
request m d = let r = m (open_on d) in (r.0, r.1.durable)

-- A call that raises leaves the tables as they are.
abbrev pub Undone : {D B : Type 0} → Action D B → D → Type 0
Undone m d = (e : Error) → (m (open_on d)).0 ≡ raised e → (m (open_on d)).1.durable ≡ d

pub Undone-answered :
    {D A B : Type 0} (f : B → A) (m : Action D B) (d : D) → Undone m d → Undone (answered f m) d
Undone-answered f m d u e h = elim (Outcome-cases (m (open_on d)).0) [
  | inl (b, g) ↦ ground (arith, g, h)
  | inr (x, g) ↦ u x g
]

abbrev pub run_through :
    {D K A C : Type 0} → (C → Request D K A A) → List C → World D K A → List (Outcome A)
run_through perform [] w = []
run_through perform (c ∷ cs) w = let r = perform c w in r.0 ∷ run_through perform cs r.1

module _ {D A C : Type 0} where
  abbrev pub run_plain : (C → D → Outcome A × D) → List C → D → List (Outcome A)
  run_plain perform [] d = []
  run_plain perform (c ∷ cs) d = let r = perform c d in r.0 ∷ run_plain perform cs r.1

  -- Something holds of each call and the tables that it finds.
  abbrev pub Along : (C → D → Outcome A × D) → (C → D → Type 0) → List C → D → Type 0
  Along perform P [] d = Unit
  Along perform P (c ∷ cs) d = P c d × Along perform P cs (perform c d).1

  pub Along-all :
      (perform : C → D → Outcome A × D) (P : C → D → Type 0)
      → ((c : C) (d : D) → P c d)
      → (cs : List C) (d : D) → Along perform P cs d
  Along-all perform P h [] d = tt
  Along-all perform P h (c ∷ cs) d = (h c d, Along-all perform P h cs (perform c d).1)

module _ {D K A : Type 0} (same : K → K → Bool) (sound : (j k : K) → same j k ≡ true → j ≡ k)
    (truth : K → D → Outcome A) (dropped : K → Bool) where
  -- With the cache, a call answers as without it and leaves the same tables and a cache in step.
  pub record Matches (r : Outcome A × World D K A) (p : Outcome A × D) : Type 0 where
    pub answer : r.0 ≡ p.0
    pub tables : r.1.tables ≡ p.1
    pub in_step : Coherent same sound truth dropped r.1

  pub Serves-Matches :
      (f : Request D K A A) (k : K) (w : World D K A)
      → Serves same sound truth dropped f k
      → dropped k ≡ true
      → Coherent same sound truth dropped w
      → Matches (f w) (truth k w.tables, w.tables)
  Serves-Matches f k w s p c = record {
    answer = s.answers w c p;
    tables = s.keeps_tables w;
    in_step = s.keeps_cache w c;
  }

  pub write-Matches :
      (p : K → Bool) (m : Action D A) (w : World D K A)
      → Drops same sound truth dropped p
      → Undone m w.tables
      → Coherent same sound truth dropped w
      → Matches (then_drop (on_session m) p w) (request m w.tables)
  write-Matches p m w h u c = record {
    answer = then_drop-answer same sound truth dropped p m w;
    tables = then_drop-tables same sound truth dropped p m w;
    in_step = then_drop-Coherent same sound truth dropped p m w h u c;
  }

  keep-Coherent :
      (p : K → Bool) (d : D) (es : List (K × A))
      → All (Fresh same sound truth dropped d) es
      → All (Fresh same sound truth dropped d) (keep (λ e. not (p e.0)) es)
  keep-Coherent p d [] c = tt
  keep-Coherent p d (e ∷ es) c = elim (Bool-cases (p e.0)) [
    | inl q ↦ rw q (keep-Coherent p d es c.1)
    | inr q ↦ rw q (c.0, keep-Coherent p d es c.1)
  ]

  -- Entries that run out.
  pub drop_keys-Matches :
      (a : Outcome A) (p : K → Bool) (w : World D K A)
      → Coherent same sound truth dropped w
      → Matches (a, drop_keys p w) (a, w.tables)
  drop_keys-Matches a p w c = record {
    answer = refl;
    tables = refl;
    in_step = keep-Coherent p w.tables w.entries c;
  }

  pub run_through-run_plain :
      {C : Type 0} (f : C → Request D K A A) (g : C → D → Outcome A × D) (P : C → D → Type 0)
      → ((c : C) (w : World D K A)
          → P c w.tables
          → Coherent same sound truth dropped w
          → Matches (f c w) (g c w.tables))
      → (cs : List C) (w : World D K A) (d : D) → w.tables ≡ d
      → Along g P cs d
      → Coherent same sound truth dropped w
      → run_through f cs w ≡ run_plain g cs d
  run_through-run_plain f g P h [] w d e a c = refl
  run_through-run_plain f g P h (x ∷ cs) w d e a c =
      let m = h x w (subst (P x) (sym e) a.0) c in
      let t = m.tables ∙ ap (λ y. (g x y).1) e in
      let rest = run_through-run_plain f g P h cs (f x w).1 (g x d).1 t a.1 m.in_step in
      let here : (f x w).0 ≡ (g x d).0 = m.answer ∙ ap (λ y. (g x y).0) e in cc (here, rest)
