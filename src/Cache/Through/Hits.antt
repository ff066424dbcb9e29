-- ===== src/Cache/Through/Hits.antt =====
-- What `cached` does on a hit and on a miss, and how long an entry stays.
use mathlib.Core.Path.{subst}
use spoutbreeze_backend.Prelude.{
  ◌≡◌, ◌⊎◌, inl, inr, refl, ap, sym, ◌∙◌, Bool, true, false, not, none, some, List, [], ◌∷◌, arith,
  keep, Bool-cases, Option-cases,
}
use spoutbreeze_backend.Prelude.Session.{Action, ok, raised, Error, open_on, Outcome-cases}
use spoutbreeze_backend.Cache.Through.{
  World, Request, on_session, drop_keys, then_drop, get_entry, set_entry, hit, kept_answer, on_hit,
  cached,
}

module _ {D K A : Type 0} (same : K → K → Bool) where
  -- What `cached` does on a hit, and what it does without one.
  pub cached-hit :
      (v : A → Bool) (k : K) (f : Request D K A A) (w : World D K A) (a : A)
      → hit same v k w.entries ≡ some a
      → cached same v k f w ≡ (ok a, w)
  unfolding cached
  cached-hit v k f w a h = ap (on_hit w (kept_answer k (f w))) h

  cached-ok :
      (v : A → Bool) (k : K) (f : Request D K A A) (w : World D K A) (a : A)
      → hit same v k w.entries ≡ none
      → (f w).0 ≡ ok a
      → cached same v k f w ≡ (ok a, set_entry k a (f w).1)
  unfolding cached
  cached-ok v k f w a h g =
      ap (on_hit w (kept_answer k (f w))) h ∙ ap (λ o. kept_answer k (o, (f w).1)) g

  cached-raised :
      (v : A → Bool) (k : K) (f : Request D K A A) (w : World D K A) (e : Error)
      → hit same v k w.entries ≡ none
      → (f w).0 ≡ raised e
      → cached same v k f w ≡ (raised e, (f w).1)
  unfolding cached
  cached-raised v k f w e h g =
      ap (on_hit w (kept_answer k (f w))) h ∙ ap (λ o. kept_answer k (o, (f w).1)) g

  -- The three ways in which a call ends.
  pub cached-cases :
      (v : A → Bool) (k : K) (f : Request D K A A) (w : World D K A)
      → ((a : A) × ((hit same v k w.entries ≡ some a) × (cached same v k f w ≡ (ok a, w))))
        ⊎ (((a : A) × ((hit same v k w.entries ≡ none)
                × (((f w).0 ≡ ok a) × (cached same v k f w ≡ (ok a, set_entry k a (f w).1)))))
            ⊎ ((e : Error) × (((f w).0 ≡ raised e) × (cached same v k f w ≡ (raised e, (f w).1)))))
  cached-cases v k f w = elim (Option-cases (hit same v k w.entries)) [
    | inr (a, h) ↦ inl (a, (h, cached-hit v k f w a h))
    | inl h ↦ elim (Outcome-cases (f w).0) [
      | inl (a, g) ↦ inr (inl (a, (h, (g, cached-ok v k f w a h g))))
      | inr (e, g) ↦ inr (inr (e, (g, cached-raised v k f w e h g)))
    ]
  ]

module _ {K A : Type 0} (same : K → K → Bool) (sound : (j k : K) → same j k ≡ true → j ≡ k)
    (k : K) where
  keep-get_entry :
      (p : K → Bool) (es : List (K × A))
      → p k ≡ false
      → get_entry same k (keep (λ e. not (p e.0)) es) ≡ get_entry same k es
  keep-get_entry p [] h = refl
  keep-get_entry p (e ∷ es) h = elim (Bool-cases (same e.0 k)) [
    | inl g ↦
        let q : p e.0 ≡ false = subst (λ x. p x ≡ false) (sym (sound e.0 k g)) h in
        ground (arith, g, q)
    | inr g ↦ ground (arith, g, keep-get_entry p es h)
  ]

module _ {D K A : Type 0} (same : K → K → Bool) (sound : (j k : K) → same j k ≡ true → j ≡ k)
    (v : A → Bool) (k : K) (a : A) where
  -- The request leaves an answer of the key in the cache.
  abbrev pub Holds : Request D K A A → Type 0
  Holds f =
      (w : World D K A) → hit same v k w.entries ≡ some a → hit same v k (f w).1.entries ≡ some a

  pub on_session-Holds : (m : Action D A) → Holds (on_session m)
  on_session-Holds m w h = h

  pub cached-Holds : (j : K) (f : Request D K A A) → Holds f → Holds (cached same v j f)
  cached-Holds j f s w h = elim (cached-cases same v j f w) [
    | inl (b, (g, q)) ↦ rw q h
    | inr (inl (b, (g, (o, q)))) ↦ rw q (elim (Bool-cases (same j k)) [
      | inl e ↦
          let g' : hit same v k w.entries ≡ none =
            subst (λ x. hit same v x w.entries ≡ none) (sound j k e) g in
          ground (arith, g', h)
      | inr e ↦ ground (arith, e, s w h)
    ])
    | inr (inr (e, (o, q))) ↦ rw q (s w h)
  ]

  pub drop_keys-Holds :
      (p : K → Bool) (w : World D K A)
      → p k ≡ false
      → hit same v k w.entries ≡ some a
      → hit same v k (drop_keys p w).entries ≡ some a
  drop_keys-Holds p w n h = ground (arith, h, keep-get_entry same sound k p w.entries n)

  pub then_drop-Holds :
      (m : Action D A) (p : K → Bool) → p k ≡ false → Holds (then_drop (on_session m) p)
  then_drop-Holds m p n w h = elim (Outcome-cases (m (open_on w.tables)).0) [
    | inl (b, g) ↦ rw (g, then_drop) (ground (arith, h, keep-get_entry same sound k p w.entries n))
    | inr (e, g) ↦ rw (g, then_drop) h
  ]

  -- After an answer that is a value, the cache has it.
  pub cached-stored :
      (f : Request D K A A) (w : World D K A)
      → same k k ≡ true
      → v a ≡ true
      → (cached same v k f w).0 ≡ ok a
      → hit same v k (cached same v k f w).1.entries ≡ some a
  cached-stored f w r o h = elim (cached-cases same v k f w) [
    | inl (b, (g, q)) ↦
        let e : ok b ≡ ok a = sym (ap (λ x. x.0) q) ∙ h in rw q (ground (arith, g, e))
    | inr (inl (b, (g, (i, q)))) ↦
        let e : ok b ≡ ok a = sym (ap (λ x. x.0) q) ∙ h in rw q (ground (arith, e, r, o))
    | inr (inr (x, (i, q))) ↦
        let e : raised x ≡ ok a = sym (ap (λ x. x.0) q) ∙ h in ground (arith, e)
  ]
