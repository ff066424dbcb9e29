-- ===== src/Cache/Through/Serving.antt =====
-- Requests through a cache answer as the tables do.
use mathlib.Core.Path.{subst}
use spoutbreeze_backend.Prelude.{
  ◌≡◌, inl, inr, refl, ap, sym, ◌∙◌, Bool, true, not, some, List, [], ◌∷◌, arith, keep, Bool-cases,
  Option-cases, All,
}
use spoutbreeze_backend.Prelude.Session.{Action, Outcome, ok, raised, Error, open_on, Outcome-cases}
use spoutbreeze_backend.Cache.Through.{
  World, Request, on_session, then_drop, get_entry, hit, cached,
}
use spoutbreeze_backend.Cache.Through.Hits.{cached-cases}

-- How keys are compared, which keys the writes drop, and what each key stands for.
module _ {D K A : Type 0} (same : K → K → Bool) (sound : (j k : K) → same j k ≡ true → j ≡ k)
    (truth : K → D → Outcome A) (dropped : K → Bool) where
  -- An entry that the writes drop is what the tables give.
  abbrev pub Fresh : D → K × A → Type 0
  Fresh d e = dropped e.0 ≡ true → truth e.0 d ≡ ok e.1

  abbrev pub Coherent : World D K A → Type 0
  Coherent w = All (Fresh w.tables) w.entries

  -- The request answers as the key says, leaves the tables as they are, and the cache in step.
  pub record Serves (f : Request D K A A) (k : K) : Type 0 where
    pub answers : (w : World D K A) → Coherent w → dropped k ≡ true → (f w).0 ≡ truth k w.tables
    pub keeps_tables : (w : World D K A) → (f w).1.tables ≡ w.tables
    pub keeps_cache : (w : World D K A) → Coherent w → Coherent (f w).1

  pub on_session-Serves :
      (m : Action D A) (k : K)
      → ((d : D) → (m (open_on d)).0 ≡ truth k d)
      → ((d : D) → (m (open_on d)).1.durable ≡ d)
      → Serves (on_session m) k
  on_session-Serves m k a t = record {
    answers = λ w c p. a w.tables;
    keeps_tables = λ w. t w.tables;
    keeps_cache = λ w c. subst (λ d. All (Fresh d) w.entries) (sym (t w.tables)) c;
  }

  get_entry-Fresh :
      (k : K) (d : D) (es : List (K × A)) (a : A)
      → All (Fresh d) es
      → get_entry same k es ≡ some a
      → Fresh d (k, a)
  get_entry-Fresh k d [] a c g = ground (arith, g)
  get_entry-Fresh k d (e ∷ es) a c g = elim (Bool-cases (same e.0 k)) [
    | inl s ↦
        let q : e.1 ≡ a = ground (arith, g, s) in
        subst (λ j. Fresh d (j, a)) (sound e.0 k s) (subst (λ x. Fresh d (e.0, x)) q c.0)
    | inr s ↦ get_entry-Fresh k d es a c.1 (ground (arith, g, s))
  ]

  hit-Fresh :
      (v : A → Bool) (k : K) (d : D) (es : List (K × A)) (a : A)
      → All (Fresh d) es
      → hit same v k es ≡ some a
      → Fresh d (k, a)
  hit-Fresh v k d es a c h = elim (Option-cases (get_entry same k es)) [
    | inl g ↦ ground (arith, h, g)
    | inr (b, g) ↦
        let q : b ≡ a = ground (arith, h, g) in
        subst (λ x. Fresh d (k, x)) q (get_entry-Fresh k d es b c g)
  ]

  -- A cache before a request that serves a key serves it too.
  pub cached-Serves :
      (v : A → Bool) (k : K) (f : Request D K A A) → Serves f k → Serves (cached same v k f) k
  cached-Serves v k f s = record {
    answers = λ w c p. elim (cached-cases same v k f w) [
      | inl (a, (h, q)) ↦ rw q (sym (hit-Fresh v k w.tables w.entries a c h p))
      | inr (inl (a, (h, (g, q)))) ↦ rw q (sym g ∙ s.answers w c p)
      | inr (inr (e, (g, q))) ↦ rw q (sym g ∙ s.answers w c p)
    ];
    keeps_tables = λ w. elim (cached-cases same v k f w) [
      | inl (a, (h, q)) ↦ rw q refl
      | inr (inl (a, (h, (g, q)))) ↦ rw q (s.keeps_tables w)
      | inr (inr (e, (g, q))) ↦ rw q (s.keeps_tables w)
    ];
    keeps_cache = λ w c. elim (cached-cases same v k f w) [
      | inl (a, (h, q)) ↦ rw q c
      | inr (inl (a, (h, (g, q)))) ↦
          let fresh : Fresh (f w).1.tables (k, a) =
            λ p. ap (truth k) (s.keeps_tables w) ∙ (sym (s.answers w c p) ∙ g) in
          rw q (fresh, s.keeps_cache w c)
      | inr (inr (e, (g, q))) ↦ rw q (s.keeps_cache w c)
    ];
  }

  -- A write that drops at least these keys.
  abbrev pub Drops : (K → Bool) → Type 0
  Drops p = (k : K) → dropped k ≡ true → p k ≡ true

  drop-Coherent :
      (p : K → Bool)
      → Drops p
      → (d : D) (es : List (K × A)) → All (Fresh d) (keep (λ e. not (p e.0)) es)
  drop-Coherent p h d [] = tt
  drop-Coherent p h d (e ∷ es) = elim (Bool-cases (p e.0)) [
    | inl g ↦ rw g (drop-Coherent p h d es)
    | inr g ↦ rw g ((λ q. ground (arith, g, h e.0 q)), drop-Coherent p h d es)
  ]

  -- A write that drops the keys, and that changes nothing when it raises, keeps the cache in step.
  pub then_drop-Coherent :
      {B : Type 0} (p : K → Bool) (m : Action D B) (w : World D K A)
      → Drops p
      → ((e : Error)
          → (m (open_on w.tables)).0 ≡ raised e
          → (m (open_on w.tables)).1.durable ≡ w.tables)
      → Coherent w
      → Coherent (then_drop {A = A} (on_session m) p w).1
  then_drop-Coherent p m w h u c = elim (Outcome-cases (m (open_on w.tables)).0) [
    | inl (b, g) ↦ rw (g, then_drop) (drop-Coherent p h (m (open_on w.tables)).1.durable w.entries)
    | inr (e, g) ↦ rw (g, then_drop) (rw (u e g) c)
  ]

  pub then_drop-tables :
      {B : Type 0} (p : K → Bool) (m : Action D B) (w : World D K A)
      → (then_drop {A = A} (on_session m) p w).1.tables ≡ (m (open_on w.tables)).1.durable
  then_drop-tables p m w = elim (Outcome-cases (m (open_on w.tables)).0) [
    | inl (b, g) ↦ rw (g, then_drop) refl
    | inr (e, g) ↦ rw (g, then_drop) refl
  ]

  pub then_drop-answer :
      (p : K → Bool) (m : Action D A) (w : World D K A)
      → (then_drop {A = A} (on_session m) p w).0 ≡ (m (open_on w.tables)).0
  then_drop-answer p m w = elim (Outcome-cases (m (open_on w.tables)).0) [
    | inl (b, g) ↦ rw (g, then_drop) refl
    | inr (e, g) ↦ rw (g, then_drop) refl
  ]
