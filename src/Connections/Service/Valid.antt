-- ===== src/Connections/Service/Valid.antt =====
-- The tokens that `get_valid_token` gives out.
use spoutbreeze_backend.Prelude.{
  ℕ, ◌≤◌, ◌<◌, ◌≡◌, ◌⊎◌, inl, inr, ap, sym, ◌∙◌, Bool, true, false, not, ◌||◌, some, String, arith,
  given, find?, Bool-cases, Option-cases,
}
use spoutbreeze_backend.Prelude.Session.{Action, Session, ok, ◌>>=◌, bind_ok}
use spoutbreeze_backend.Connections.Store.{
  Fernet, Connection, Tables, is_expired, active_of, change_connection,
}
use spoutbreeze_backend.Connections.Service.{
  TokenData, lifetime, Platforms, call_refresher, has_refresher, refreshed_tokens, refreshed_row,
  refresh_connection, Token, token_of, needs_refresh, get_active_connection, unless_expired,
  get_valid_token,
}

module _ (fernet : Fernet) where
  -- What the platforms answer lasts for a while.
  abbrev pub Lasting : Platforms → Type 0
  Lasting platforms =
      (p token : String) (t : TokenData) → platforms p token ≡ some t → 0 < lifetime t

  call_refresher-lifetime :
      (platforms : Platforms) (p token : String) (t : TokenData)
      → Lasting platforms
      → call_refresher platforms p token ≡ some t
      → 0 < lifetime t
  unfolding call_refresher
  call_refresher-lifetime platforms p token t l h = elim (Option-cases (platforms p token)) [
    | inl g ↦ ground (arith, h, g)
    | inr (q, g) ↦ let f = l p token q g in ground (arith, h, g, f)
  ]

  refreshed_tokens-lifetime :
      (platforms : Platforms) (p cipher : String) (t : TokenData) (access : String)
      → Lasting platforms
      → refreshed_tokens fernet platforms p cipher ≡ some (t, access)
      → 0 < lifetime t
  unfolding refreshed_tokens
  refreshed_tokens-lifetime platforms p cipher t access l h =
      elim (Option-cases (fernet.decrypt_token cipher)) [
        | inl g ↦ ground (arith, h, g)
        | inr (token, g) ↦ elim (Option-cases (call_refresher platforms p token)) [
          | inl f ↦ ground (arith, h, g, f)
          | inr (q, f) ↦
              let e = call_refresher-lifetime platforms p token q l f in ground (arith, h, g, f, e)
        ]
      ]

  -- A session after a commit of a change to the row.
  abbrev pub stored : Connection → ℕ → TokenData × String → Session Tables → Session Tables
  stored c later r s =
      let d = change_connection c.id (refreshed_row fernet later r.0 r.1) s.work in
      record { durable = d; work = d }

  -- What a refresh that succeeds has done.
  pub record Refreshed (later : ℕ) (platforms : Platforms) (c : Connection) (s : Session Tables)
      : Type 0 where
    pub cipher : String
    pub tokens : TokenData × String
    pub of_row : c.refresh_token ≡ some cipher
    pub answered : refreshed_tokens fernet platforms c.provider cipher ≡ some tokens
    pub ends :
        refresh_connection fernet later platforms c s
        ≡ (ok (true, refreshed_row fernet later tokens.0 tokens.1 c), stored c later tokens s)

  -- A refresh fails and changes nothing, or succeeds.
  pub refresh_connection-cases :
      (later : ℕ) (platforms : Platforms) (c : Connection) (s : Session Tables)
      → (refresh_connection fernet later platforms c s ≡ (ok (false, c), s))
        ⊎ Refreshed later platforms c s
  unfolding refresh_connection
  refresh_connection-cases later platforms c s = elim (Option-cases c.refresh_token) [
    | inl g ↦ inl (ground (arith, g))
    | inr (cipher, g) ↦ elim (Option-cases (refreshed_tokens fernet platforms c.provider cipher)) [
      | inl f ↦ inl (ground (arith, g, f))
      | inr (r, f) ↦
          elim (Bool-cases (not (given c.refresh_token) || not (has_refresher c.provider))) [
            | inl k ↦ inl (ground (arith, k))
            | inr k ↦ inr (record {
              cipher = cipher;
              tokens = r;
              of_row = g;
              answered = f;
              ends = ground (arith, g, f, k);
            })
          ]
    ]
  ]

  token_of-expiry :
      (c : Connection) (s s' : Session Tables) (t : Token)
      → token_of fernet c s ≡ (ok t, s')
      → t.expires_at ≡ c.expires_at
  unfolding token_of
  token_of-expiry c s s' t h = ground (arith, h)

  unless_expired-expiry :
      (now : ℕ) (b : Bool) (c : Connection) (s s' : Session Tables) (t : Token)
      → unless_expired fernet now b c s ≡ (ok (some t), s')
      → (t.expires_at ≡ c.expires_at)
        × ((b ≡ true) ⊎ (now < c.expires_at))
        × ((given c.refresh_token ≡ true) ⊎ (now < c.expires_at))
  unfolding unless_expired token_of is_expired
  unless_expired-expiry now b c s s' t h = ground (arith, h)

  -- A token that `get_valid_token` gives out has not expired at the time of the call, if what the
  -- platforms answer to a refresh lasts for a while, whether it was refreshed, the refresh failed,
  -- or none was due.
  pub get_valid_token-unexpired :
      (now later : ℕ) (platforms : Platforms) (u : ℕ) (p : String) (s s' : Session Tables)
      (t : Token)
      → now ≤ later
      → Lasting platforms
      → get_valid_token fernet now later platforms u p s ≡ (ok (some t), s')
      → now < t.expires_at
  unfolding get_valid_token get_active_connection
  get_valid_token-unexpired now later platforms u p s s' t n l h =
      elim (Option-cases (find? (active_of u p) s.work.connections)) [
        | inl g ↦ ground (arith, h, g)
        | inr (c, g) ↦ elim (Bool-cases (needs_refresh now c)) [
          | inr f ↦
              let e : unless_expired fernet now true c s ≡ (ok (some t), s') =
                ground (arith, h, g, f) in
              let (q, _, w) = unless_expired-expiry now true c s s' t e in ground (arith, f, q, w)
          | inl f ↦ elim (refresh_connection-cases later platforms c s) [
            | inl k ↦
                let e : unless_expired fernet now false c s ≡ (ok (some t), s') =
                  ground (arith, h, g, f, k) in
                let (q, w, _) = unless_expired-expiry now false c s s' t e in ground (arith, q, w)
            | inr r ↦
                let c' = refreshed_row fernet later r.tokens.0 r.tokens.1 c in
                let e : unless_expired fernet now true c' (stored c later r.tokens s)
                    ≡ (ok (some t), s') =
                  ground (arith, h, g, f, r.ends) in
                let (q, _, _) =
                  unless_expired-expiry now true c' (stored c later r.tokens s) s' t e in
                let m =
                  refreshed_tokens-lifetime platforms c.provider r.cipher r.tokens.0 r.tokens.1 l
                    r.answered in
                ground (arith, q, m, n)
          ]
        ]
      ]

  -- A refresh never raises, so that what follows goes on from its session.
  pub refresh_connection-continues :
      {A : Type 0} (later : ℕ) (platforms : Platforms) (c : Connection) (s : Session Tables)
      (m : Bool × Connection → Action Tables A)
      → (b : Bool × Connection) × ((refresh_connection fernet later platforms c >>= m) s
          ≡ m b (refresh_connection fernet later platforms c s).1)
  refresh_connection-continues later platforms c s m =
      elim (refresh_connection-cases later platforms c s) [
        | inl q ↦ (
          (false, c),
          bind_ok (refresh_connection fernet later platforms c) m s q
              ∙ ap (λ x. m (false, c) x.1) (sym q),
        )
        | inr r ↦
            let c' = refreshed_row fernet later r.tokens.0 r.tokens.1 c in
            (
              (true, c'),
              bind_ok (refresh_connection fernet later platforms c) m s r.ends
                  ∙ ap (λ x. m (true, c') x.1) (sym r.ends),
            )
      ]
