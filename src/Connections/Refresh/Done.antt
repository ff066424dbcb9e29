-- ===== src/Connections/Refresh/Done.antt =====
-- What the background refresh leaves to do.
use spoutbreeze_backend.Prelude.{
  ℕ, ◌≤◌, ◌<◌, ◌≡◌, inl, inr, refl, ◌∙◌, true, false, ◌||◌, some, List, [], ◌∷◌, String, arith,
  ◌==◌, ==-refl, leb, given, elem, keep, update_where, Bool-cases, All,
}
use spoutbreeze_backend.Prelude.Session.{Session, ok, bind_ok}
use spoutbreeze_backend.Connections.Store.{Fernet, Connection, Tables}
use spoutbreeze_backend.Connections.Service.{
  TokenData, lifetime, Platforms, has_refresher, refreshed_tokens, refreshed_row,
  refresh_connection,
}
use spoutbreeze_backend.Connections.Service.Valid.{stored}
use spoutbreeze_backend.Connections.Refresh.{
  background_threshold, is_due, insert_by_expiry, by_expiry, refresh_all, refresh_expiring_tokens,
}

-- The ids of the rows.
abbrev ids : List Connection → List ℕ
ids [] = []
ids (c ∷ cs) = c.id ∷ ids cs

elem-insert_by_expiry :
    (k : ℕ) (c : Connection) (cs : List Connection)
    → elem k (ids (insert_by_expiry c cs)) ≡ (k == c.id || elem k (ids cs))
elem-insert_by_expiry k c [] = refl
elem-insert_by_expiry k c (d ∷ ds) = ground (arith, elem-insert_by_expiry k c ds)

elem-by_expiry : (k : ℕ) (cs : List Connection) → elem k (ids (by_expiry cs)) ≡ elem k (ids cs)
elem-by_expiry k [] = refl
elem-by_expiry k (c ∷ cs) =
    ground (arith, elem-insert_by_expiry k c (by_expiry cs), elem-by_expiry k cs)

-- The rows that are due are among those with these ids.
abbrev Left : ℕ → List ℕ → List Connection → Type 0
Left now ks cs = All (λ c. is_due now c ≡ true → elem c.id ks ≡ true) cs

ids_keep :
    (now : ℕ) (ks : List ℕ) (cs : List Connection)
    → ((j : ℕ) → elem j (ids (keep (is_due now) cs)) ≡ true → elem j ks ≡ true)
    → Left now ks cs
ids_keep now ks [] h = tt
ids_keep now ks (c ∷ cs) h = (
  λ e. h c.id (rw e (rw (==-refl c.id) refl)),
  ids_keep now ks cs (λ j e. h j (ground (arith, e))),
)

-- A row that is refreshed is not due.
Left-refreshed :
    (now : ℕ) (k : ℕ) (ks : List ℕ) (f : Connection → Connection) (cs : List Connection)
    → ((c : Connection) → is_due now (f c) ≡ false)
    → Left now (k ∷ ks) cs
    → Left now ks (update_where (λ c. c.id == k) f cs)
Left-refreshed now k ks f [] h l = tt
Left-refreshed now k ks f (c ∷ cs) h l = elim (Bool-cases (c.id == k)) [
  | inl e ↦ rw e (λ g. ground (arith, g, h c), Left-refreshed now k ks f cs h l.1)
  | inr e ↦ rw e (λ g. ground (arith, l.0 g, e), Left-refreshed now k ks f cs h l.1)
]

none-Left : (now : ℕ) (cs : List Connection) → Left now [] cs → keep (is_due now) cs ≡ []
none-Left now [] l = refl
none-Left now (c ∷ cs) l = elim (Bool-cases (is_due now c)) [
  | inl e ↦ ground (arith, l.0 e)
  | inr e ↦ rw e (none-Left now cs l.1)
]

module _ (fernet : Fernet) where
  -- The platform of the connection is known and answers to its refresh token with one that lasts
  -- for more than the window of the job.
  pub record Answered (platforms : Platforms) (c : Connection) : Type 0 where
    pub cipher : String
    pub tokens : TokenData × String
    pub of_row : c.refresh_token ≡ some cipher
    pub not_empty : given (some cipher) ≡ true
    pub known : has_refresher c.provider ≡ true
    pub answers : refreshed_tokens fernet platforms c.provider cipher ≡ some tokens
    pub lasts : background_threshold < lifetime tokens.0

  refresh_connection-Answered :
      (later : ℕ) (platforms : Platforms) (c : Connection) (s : Session Tables)
      → (w : Answered platforms c)
      → refresh_connection fernet later platforms c s ≡ (
        ok (true, refreshed_row fernet later w.tokens.0 w.tokens.1 c),
        stored fernet c later w.tokens s,
      )
  unfolding refresh_connection
  refresh_connection-Answered later platforms c s w =
      ground (arith, w.of_row, w.not_empty, w.known, w.answers)

  refresh_all-done :
      (now later : ℕ) (platforms : Platforms) (cs : List Connection) (s : Session Tables)
      → now ≤ later
      → All (Answered platforms) cs
      → Left now (ids cs) s.work.connections
      → keep (is_due now) (refresh_all fernet later platforms cs s).1.work.connections ≡ []
  unfolding refresh_all
  refresh_all-done now later platforms [] s n a l = none-Left now s.work.connections l
  refresh_all-done now later platforms (c ∷ cs) s n a l =
      let w = a.0 in
      let f = refreshed_row fernet later w.tokens.0 w.tokens.1 in
      let rest = refresh_all fernet later platforms cs in
      let e =
        bind_ok (refresh_connection fernet later platforms c) (λ _. rest) s
          (refresh_connection-Answered later platforms c s w) in
      let fresh : (x : Connection) → is_due now (f x) ≡ false = λ x. ground (arith, w.lasts, n) in
      rw e (
        refresh_all-done now later platforms cs (stored fernet c later w.tokens s) n a.1
          (Left-refreshed now c.id (ids cs) f s.work.connections fresh l))

  All-insert_by_expiry :
      (P : Connection → Type 0) (c : Connection) (cs : List Connection)
      → P c
      → All P cs
      → All P (insert_by_expiry c cs)
  All-insert_by_expiry P c [] p a = (p, tt)
  All-insert_by_expiry P c (d ∷ ds) p a = elim (Bool-cases (leb c.expires_at d.expires_at)) [
    | inl e ↦ rw e (p, a)
    | inr e ↦ rw e (a.0, All-insert_by_expiry P c ds p a.1)
  ]

  All-by_expiry : (P : Connection → Type 0) (cs : List Connection) → All P cs → All P (by_expiry cs)
  All-by_expiry P [] a = tt
  All-by_expiry P (c ∷ cs) a = All-insert_by_expiry P c (by_expiry cs) a.0 (All-by_expiry P cs a.1)

  -- If the platform of every connection that is due answers the background job, with a token that
  -- lasts for more than half an hour, then after the job no connection is due: every active one
  -- with a refresh token expires later than half an hour after the start of the job.
  pub refresh_expiring_tokens-done :
      (now later : ℕ) (platforms : Platforms) (s : Session Tables)
      → now ≤ later
      → All (Answered platforms) (keep (is_due now) s.work.connections)
      → keep (is_due now) (refresh_expiring_tokens fernet now later platforms s).1.work.connections
        ≡ []
  unfolding refresh_expiring_tokens
  refresh_expiring_tokens-done now later platforms s n a =
      let due = keep (is_due now) s.work.connections in
      refresh_all-done now later platforms (by_expiry due) s n
        (All-by_expiry (Answered platforms) due a)
        (ids_keep now (ids (by_expiry due)) s.work.connections (λ j e. elem-by_expiry j due ∙ e))
