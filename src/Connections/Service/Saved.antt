-- ===== src/Connections/Service/Saved.antt =====
-- What is saved is what a caller gets, until it is about to expire or is revoked.
use mathlib.Core.Path.{subst}
use spoutbreeze_backend.Prelude.{
  ℕ, ◌+◌, ◌≤◌, ◌≡◌, inl, inr, refl, ap, ◌∙◌, sym, true, Option, none, some, List, [], ◌∷◌, String,
  arith, ◌==◌, ==-refl, given, find?, update_where, Bool-cases, Option-cases, if◌then◌else◌,
}
use text.Mathlib.TextPositions.{eq_refl}
use spoutbreeze_backend.Prelude.Session.{Session, ok}
use spoutbreeze_backend.Connections.Store.{
  Fernet, Connection, Tables, is_active, of_provider, active_of,
}
use spoutbreeze_backend.Connections.Service.{
  TokenData, lifetime, Platforms, Account, encrypted, saved_row, save_existing, save_first,
  save_connection, token_of, get_active_connection, unless_expired, get_valid_token,
}

find?-changed :
    (u k : ℕ) (p : String) (f : Connection → Connection) (x : Connection) (cs : List Connection)
    → ((c : Connection) → of_provider u p (f c) ≡ of_provider u p c)
    → ((c : Connection) → is_active (f c) ≡ true)
    → find? (of_provider u p) cs ≡ some x
    → (x.id == k) ≡ true
    → find? (active_of u p) (update_where (λ c. c.id == k) f cs) ≡ some (f x)
find?-changed u k p f x [] h a g i = ground (arith, g)
find?-changed u k p f x (c ∷ cs) h a g i = elim (Bool-cases (of_provider u p c)) [
  | inl e ↦
      let q : c ≡ x = ground (arith, g, e) in
      let i' : (c.id == k) ≡ true = subst (λ y. (y.id == k) ≡ true) (sym q) i in
      rw i' (rw (h c ∙ e) (rw (a c) (ap (λ y. some (f y)) q)))
  | inr e ↦
      let rest = find?-changed u k p f x cs h a (ground (arith, g, e)) i in
      elim (Bool-cases (c.id == k)) [ inl j ↦ rw j (rw (h c ∙ e) rest) | inr j ↦ rw j (rw e rest) ]
]

module _ (fernet : Fernet) where
  -- What is saved without an account of the provider is the active connection.
  saved_active :
      (now new_id : ℕ) (a : Account) (t : TokenData) (scopes access : String)
      (s s' : Session Tables) (c : Connection)
      → a.provider_user_id ≡ none
      → t.access_token ≡ some access
      → save_connection fernet now new_id a t scopes s ≡ (ok c, s')
      → (find? (active_of a.user_id a.provider) s'.work.connections ≡ some c)
        × (c.access_token ≡ fernet.encrypt_token access)
        × (c.refresh_token ≡ encrypted fernet t.refresh_token)
        × (c.expires_at ≡ now + lifetime t)
  unfolding save_connection save_existing save_first
  saved_active now new_id a t scopes access s s' c n k h =
      elim (Option-cases (find? (of_provider a.user_id a.provider) s.work.connections)) [
        | inl g ↦ ground (arith, n, k, h, g, ==-refl a.user_id, eq_refl a.provider)
        | inr (x, g) ↦
            let f =
              find?-changed a.user_id x.id a.provider (saved_row fernet now a t access scopes) x
                s.work.connections (λ y. refl) (λ y. refl) g (==-refl x.id) in
            ground (arith, n, k, h, g, f)
      ]

  -- What Fernet promises: a text that it made is not empty and decrypts to the one it was made of.
  pub record Lawful : Type 0 where
    pub decrypts : (x : String) → fernet.decrypt_token (fernet.encrypt_token x) ≡ some x
    pub made : (x : String) → given (some (fernet.encrypt_token x)) ≡ true

  -- A refresh token that is sent empty is none.
  abbrev pub not_empty : Option String → Option String
  not_empty none = none
  not_empty (some r) = if given (some r) then some r else none

  token_of-encrypted :
      (c : Connection) (access : String) (refresh : Option String) (s : Session Tables)
      → Lawful
      → c.access_token ≡ fernet.encrypt_token access
      → c.refresh_token ≡ encrypted fernet refresh
      → token_of fernet c s ≡ (
        ok (record {
          access_token = access;
          refresh_token = not_empty refresh;
          expires_at = c.expires_at;
        }),
        s,
      )
  unfolding token_of
  token_of-encrypted c access none s l a r = ground (arith, a, r, l.decrypts access)
  token_of-encrypted c access (some x) s l a r =
      ground (arith, a, r, l.decrypts access, l.decrypts x, l.made x)

  -- The tokens that were saved for a platform without the id of an account there, first or over an
  -- earlier connection, revoked or not, are those that a caller gets, decrypted, until five minutes
  -- before they expire; nothing is refreshed then, and the database stays as it is.
  pub get_valid_token-save_connection :
      (now new_id now' later : ℕ) (a : Account) (t : TokenData) (scopes access : String)
      (platforms : Platforms) (s s' : Session Tables) (c : Connection)
      → Lawful
      → a.provider_user_id ≡ none
      → t.access_token ≡ some access
      → save_connection fernet now new_id a t scopes s ≡ (ok c, s')
      → now' + 300 ≤ now + lifetime t
      → get_valid_token fernet now' later platforms a.user_id a.provider s' ≡ (
        ok (
            some (record {
              access_token = access;
              refresh_token = not_empty t.refresh_token;
              expires_at = now + lifetime t;
            })),
        s',
      )
  unfolding get_valid_token get_active_connection unless_expired
  get_valid_token-save_connection now new_id now' later a t scopes access platforms s s' c l n k h
        e =
      let (f, q, r, x) = saved_active now new_id a t scopes access s s' c n k h in
      let made = token_of-encrypted c access t.refresh_token s' l q r in
      ground (arith, f, made, x, e)
