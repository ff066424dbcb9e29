-- ===== src/Connections/Calls/Accepted.antt =====
-- Saving a connection after any calls.
use mathlib.Core.Path.{subst}
use spoutbreeze_backend.Prelude.{
  ℕ, ◌≡◌, inl, inr, refl, sym, Bool, true, none, some, List, [], ◌∷◌, String, arith, ◌==◌, elem,
  find?, Bool-cases, Option-cases, All,
}
use spoutbreeze_backend.Prelude.Session.{Session, ok, open_on}
use spoutbreeze_backend.Connections.Store.{Fernet, Connection, Tables, active_of}
use spoutbreeze_backend.Connections.Service.{
  Account, TokenData, Platforms, save_connection, get_valid_token, revoke_connection,
  refresh_connection, refreshed_row, get_active_connection, unless_expired, needs_refresh, token_of,
}
use spoutbreeze_backend.Connections.Service.Keys.{keys, Apart, named, keys-update_where}
use spoutbreeze_backend.Connections.Service.Accepting.{save_accepted, save_kept}
use spoutbreeze_backend.Connections.Service.Valid.{
  refresh_connection-cases, refresh_connection-continues,
}
use spoutbreeze_backend.Connections.Refresh.{refresh_all, refresh_expiring_tokens}
use spoutbreeze_backend.Connections.Calls.{Call, save, valid, revoke, refresh, perform, run}

-- A save gives a name, if any, to the account of the platform.
abbrev pub IsNamed : Call → Type 0
IsNamed (save now k a t scopes) = named a.provider_user_id ≡ true
IsNamed _ = Unit

-- Neither what is durable nor what is pending has a key twice.
record Sound (s : Session Tables) : Type 0 where
  work : Apart (keys s.work.connections)
  durable : Apart (keys s.durable.connections)

module _ (fernet : Fernet) where
  refresh_connection-Sound :
      (later : ℕ) (platforms : Platforms) (c : Connection) (s : Session Tables)
      → Sound s
      → Sound (refresh_connection fernet later platforms c s).1
  refresh_connection-Sound later platforms c s h =
      elim (refresh_connection-cases fernet later platforms c s) [
        | inl q ↦ rw q h
        | inr r ↦
            let f = refreshed_row fernet later r.tokens.0 r.tokens.1 in
            let k = keys-update_where (λ x. x.id == c.id) f s.work.connections (λ x. refl) in
            let p = subst Apart (sym k) h.work in rw r.ends (record { work = p; durable = p })
      ]

  refresh_all-Sound :
      (now : ℕ) (platforms : Platforms) (cs : List Connection) (s : Session Tables)
      → Sound s
      → Sound (refresh_all fernet now platforms cs s).1
  unfolding refresh_all
  refresh_all-Sound now platforms [] s h = h
  refresh_all-Sound now platforms (c ∷ cs) s h =
      let (b, p) =
        refresh_connection-continues fernet now platforms c s
          (λ _. refresh_all fernet now platforms cs) in
      let s' = (refresh_connection fernet now platforms c s).1 in
      rw p (refresh_all-Sound now platforms cs s' (refresh_connection-Sound now platforms c s h))

  unless_expired-session :
      (now : ℕ) (b : Bool) (c : Connection) (s : Session Tables)
      → (unless_expired fernet now b c s).1 ≡ s
  unfolding unless_expired token_of
  unless_expired-session now b c s = ground arith

  get_valid_token-Sound :
      (now later : ℕ) (platforms : Platforms) (u : ℕ) (p : String) (s : Session Tables)
      → Sound s
      → Sound (get_valid_token fernet now later platforms u p s).1
  unfolding get_valid_token get_active_connection
  get_valid_token-Sound now later platforms u p s h =
      elim (Option-cases (find? (active_of u p) s.work.connections)) [
        | inl g ↦
            let e : (get_valid_token fernet now later platforms u p s).1 ≡ s = ground (arith, g) in
            rw e h
        | inr (c, g) ↦ elim (Bool-cases (needs_refresh now c)) [
          | inr f ↦
              let e : (get_valid_token fernet now later platforms u p s).1 ≡ s =
                ground (arith, g, f, unless_expired-session now true c s) in
              rw e h
          | inl f ↦
              let (b, q) =
                refresh_connection-continues fernet later platforms c s
                  (λ r. unless_expired fernet now r.0 r.1) in
              let s' = (refresh_connection fernet later platforms c s).1 in
              let e : get_valid_token fernet now later platforms u p s
                  ≡ unless_expired fernet now b.0 b.1 s' =
                ground (arith, g, f, q) in
              rw e (
                rw (unless_expired-session now b.0 b.1 s')
                  (refresh_connection-Sound later platforms c s h))
        ]
      ]

  perform-Apart :
      (c : Call) (d : Tables)
      → IsNamed c
      → Apart (keys d.connections)
      → Apart (keys (perform fernet c d).connections)
  unfolding revoke_connection refresh_expiring_tokens
  perform-Apart (save now k a t scopes) d n h = save_kept fernet now k a t scopes (open_on d) n h h
  perform-Apart (valid now later platforms u p) d n h =
      (get_valid_token-Sound now later platforms u p (open_on d)
        (record { work = h; durable = h })).durable
  perform-Apart (revoke now u p) d n h =
      rw
        (keys-update_where (active_of u p)
          (λ c. record c { revoked_at = some now; updated_at = now }) d.connections (λ c. refl))
        h
  perform-Apart (refresh now later platforms) d n h =
      (refresh_all-Sound later platforms _ (open_on d) (record { work = h; durable = h })).durable

  run-Apart :
      (cs : List Call) (d : Tables)
      → All IsNamed cs
      → Apart (keys d.connections)
      → Apart (keys (run fernet cs d).connections)
  run-Apart [] d n h = h
  run-Apart (c ∷ cs) d n h = run-Apart cs (perform fernet c d) n.1 (perform-Apart c d n.0 h)

  -- After any saves, refreshes, revocations and uses of tokens, by any users and with any answers
  -- of the platforms, a save with an access token for a known user is accepted, by the unique index
  -- too, if its id is on no row, no save names an account by the empty text, and at the start no
  -- two rows, revoked ones included, have the same user, provider and account.
  pub save_connection-run :
      (cs : List Call) (d : Tables) (now k : ℕ) (a : Account) (t : TokenData)
      (scopes access : String)
      → All IsNamed cs
      → Apart (keys d.connections)
      → named a.provider_user_id ≡ true
      → t.access_token ≡ some access
      → elem a.user_id (run fernet cs d).users ≡ true
      → find? (λ c. c.id == k) (run fernet cs d).connections ≡ none
      → (c : Connection) × ((save_connection fernet now k a t scopes (open_on (run fernet cs d))).0
          ≡ ok c)
  save_connection-run cs d now k a t scopes access n h m g u i =
      (save_accepted fernet now k a t scopes access (open_on (run fernet cs d)) g u i m
        (run-Apart cs d n h)).0
