-- ===== src/Connections/Service.antt =====
-- `ConnectionService` of app/services/connection_service.py. The clock, the ids of new rows, the
-- JSON text of a list of scopes and the answers of the platforms are inputs. Which random bits
-- encryption takes is left out, as no ciphertext is compared.
pub mod Valid
pub mod Saved
pub mod Keys
pub mod Accepting
use spoutbreeze_backend.Prelude.{
  ℕ, ◌+◌, Bool, true, false, Option, none, some, List, [], ◌∷◌, String, ◌==◌, str_eq, ◌&&◌, ◌||◌,
  not, ltb, leb, given, is_some, elem, find?, keep, count_if, update_where, if◌then◌else◌,
}
use spoutbreeze_backend.Prelude.Session.{
  Action, Outcome, ok, raised, value_error, integrity_error, pure, raise, raise_if, gets, modify,
  commit, ◌>>=◌, ◌>>◌,
}
use spoutbreeze_backend.Connections.Store.{
  Fernet, Connection, Tables, is_active, is_expired, of_provider, of_account, active_of,
  index_refuses, change_connection,
}

-- What a platform answers; a key may be missing.
pub record TokenData : Type 0 where
  pub access_token : Option String
  pub refresh_token : Option String
  pub expires_in : Option ℕ

abbrev pub lifetime : TokenData → ℕ
lifetime t = elim t.expires_in [ none ↦ 3600 | some n ↦ n ]

-- The endpoints for refreshing: provider and token to the answer, none when the call raises.
abbrev pub Platforms : Type 0
Platforms = String → String → Option TokenData

-- `_REFRESHERS`
unfoldable pub has_refresher : String → Bool
has_refresher p =
    str_eq p "twitch" || str_eq p "youtube" || str_eq p "facebook" || str_eq p "facebook_page"

-- `_refresh_facebook`: the new token stands for a missing refresh token. Without either it raises.
abbrev with_refresh_token : TokenData → Option TokenData
with_refresh_token t = elim t.refresh_token [
  | some r ↦ some t
  | none ↦ elim t.access_token [ none ↦ none | some a ↦ some (record t { refresh_token = some a }) ]
]

-- `refresher(token)`
unfoldable pub call_refresher : Platforms → String → String → Option TokenData
call_refresher platforms p token = elim (platforms p token) [
  | none ↦ none
  | some t ↦
      if str_eq p "facebook" || str_eq p "facebook_page" then with_refresh_token t else some t
]

-- What a call is about.
pub record Account : Type 0 where
  pub user_id : ℕ
  pub provider : String
  pub provider_user_id : Option String
  pub display_name : Option String

abbrev pub or_kept : Option String → Option String → Option String
or_kept none old = old
or_kept (some s) old = some s

abbrev require : {A : Type 0} → Option A → Action Tables A
require none = raise value_error
require (some a) = pure a

-- What a caller gets.
pub record Token : Type 0 where
  pub access_token : String
  pub refresh_token : Option String
  pub expires_at : ℕ

-- `REFRESH_THRESHOLD_SECONDS`
abbrev pub refresh_threshold : ℕ
refresh_threshold = 300

abbrev pub needs_refresh : ℕ → Connection → Bool
needs_refresh now c = ltb c.expires_at (now + refresh_threshold) && given c.refresh_token

-- What `get_connection_status` says of a connection that is there.
pub record ConnectionStatus : Type 0 where
  pub expires_at : ℕ
  pub is_expired : Bool
  pub expires_soon : Bool
  pub has_refresh_token : Bool
  pub scopes : Option String
  pub created_at : ℕ

-- `get_active_connection`
unfoldable pub get_active_connection : ℕ → String → Action Tables (Option Connection)
get_active_connection u p = gets (λ d. find? (active_of u p) d.connections)

-- `revoke_connection`
unfoldable pub revoke_connection : ℕ → ℕ → String → Action Tables ℕ
revoke_connection now u p = do
  n ← gets (λ d. count_if (active_of u p) d.connections)
  modify (λ d. record d {
    connections =
        update_where (active_of u p) (λ c. record c { revoked_at = some now; updated_at = now })
          d.connections;
  })
  commit
  pure n

-- `revoke_all_connections`
unfoldable pub revoke_all_connections : ℕ → ℕ → String → Action Tables ℕ
revoke_all_connections now u p = do
  n ← gets (λ d. count_if (active_of u p) d.connections)
  modify (λ d. record d {
    connections =
        update_where (active_of u p) (λ c. record c { revoked_at = some now; updated_at = now })
          d.connections;
  })
  commit
  pure n

-- `get_connections_by_provider`
unfoldable pub get_connections_by_provider : ℕ → String → Action Tables (List Connection)
get_connections_by_provider u p = gets (λ d. keep (active_of u p) d.connections)

-- `get_connection_status`
unfoldable pub get_connection_status : ℕ → ℕ → String → Action Tables (Option ConnectionStatus)
unfolding get_active_connection is_expired
get_connection_status now u p = do
  found ← get_active_connection u p
  elim found [
    | none ↦ pure none
    | some c ↦ pure (
        some (record {
          expires_at = c.expires_at;
          is_expired = is_expired now c;
          expires_soon = ltb c.expires_at (now + 3600);
          has_refresh_token = is_some c.refresh_token;
          scopes = c.scopes;
          created_at = c.created_at;
        }))
  ]

module _ (fernet : Fernet) where
  -- `encrypt_token(t) if t else None`
  abbrev pub encrypted : Option String → Option String
  encrypted none = none
  encrypted (some s) = if given (some s) then some (fernet.encrypt_token s) else none

  abbrev pub saved_row : ℕ → Account → TokenData → String → String → Connection → Connection
  saved_row now a t access scopes c = record c {
    access_token = fernet.encrypt_token access;
    refresh_token = encrypted t.refresh_token;
    scopes = some scopes;
    expires_at = now + lifetime t;
    updated_at = now;
    revoked_at = none;
    provider_user_id = or_kept a.provider_user_id c.provider_user_id;
    display_name = or_kept a.display_name c.display_name;
  }

  abbrev pub first_row : ℕ → ℕ → Account → TokenData → String → String → Connection
  first_row now new_id a t access scopes = record {
    id = new_id;
    user_id = a.user_id;
    provider = a.provider;
    provider_user_id = a.provider_user_id;
    display_name = a.display_name;
    access_token = fernet.encrypt_token access;
    refresh_token = encrypted t.refresh_token;
    scopes = some scopes;
    expires_at = now + lifetime t;
    created_at = now;
    updated_at = now;
    revoked_at = none;
  }

  -- The branch of `save_connection` for a row that is there.
  unfoldable pub save_existing :
      ℕ → Account → TokenData → String → String → Connection → Action Tables Connection
  unfolding index_refuses
  save_existing now a t access scopes c = do
    refused ← gets (λ d. index_refuses (saved_row now a t access scopes c) d.connections)
    raise_if refused integrity_error
    modify (change_connection c.id (saved_row now a t access scopes))
    commit
    pure (saved_row now a t access scopes c)

  -- The other branch; the user is a foreign key.
  unfoldable pub save_first :
      ℕ → ℕ → Account → TokenData → String → String → Action Tables Connection
  unfolding index_refuses
  save_first now new_id a t access scopes = do
    known ← gets (λ d. elem a.user_id d.users)
    refused ← gets (λ d.
        is_some (find? (λ c. c.id == new_id) d.connections)
        || index_refuses (first_row now new_id a t access scopes) d.connections)
    raise_if (not known || refused) integrity_error
    modify (λ d. record d { connections = first_row now new_id a t access scopes ∷ d.connections })
    commit
    pure (first_row now new_id a t access scopes)

  -- `save_connection`
  unfoldable pub save_connection : ℕ → ℕ → Account → TokenData → String → Action Tables Connection
  unfolding save_existing save_first
  save_connection now new_id a t scopes = do
    access ← require t.access_token
    found ← gets (λ d. find? (of_account a.user_id a.provider a.provider_user_id) d.connections)
    elim found [
      | some c ↦ save_existing now a t access scopes c
      | none ↦ save_first now new_id a t access scopes
    ]

  abbrev pub refreshed_row : ℕ → TokenData → String → Connection → Connection
  refreshed_row now t access c = record c {
    access_token = fernet.encrypt_token access;
    refresh_token = elim (encrypted t.refresh_token) [ none ↦ c.refresh_token | some r ↦ some r ];
    expires_at = now + lifetime t;
    updated_at = now;
  }

  -- The answer of the platform to the refresh token of a row; none is any exception.
  unfoldable pub refreshed_tokens : Platforms → String → String → Option (TokenData × String)
  unfolding call_refresher
  refreshed_tokens platforms p cipher = elim (fernet.decrypt_token cipher) [
    | none ↦ none
    | some token ↦ elim (call_refresher platforms p token) [
      | none ↦ none
      | some t ↦ elim t.access_token [ none ↦ none | some access ↦ some (t, access) ]
    ]
  ]

  -- `refresh_connection`: whether it succeeds, and the row as the caller then holds it.
  unfoldable pub refresh_connection : ℕ → Platforms → Connection → Action Tables (Bool × Connection)
  unfolding has_refresher refreshed_tokens
  refresh_connection now platforms c =
      if not (given c.refresh_token) || not (has_refresher c.provider)
      then pure (false, c)
      else elim c.refresh_token [
        | none ↦ pure (false, c)
        | some cipher ↦ elim (refreshed_tokens platforms c.provider cipher) [
          | none ↦ pure (false, c)
          | some r ↦ do
            modify (change_connection c.id (refreshed_row now r.0 r.1))
            commit
            pure (true, refreshed_row now r.0 r.1 c)
        ]
      ]

  -- `decrypt_token(...)` raises on a text that was not encrypted.
  unfoldable pub token_of : Connection → Action Tables Token
  token_of c = do
    access ← require (fernet.decrypt_token c.access_token)
    if given c.refresh_token
        then elim c.refresh_token [
          | none ↦ raise value_error
          | some r ↦ do
            refresh ← require (fernet.decrypt_token r)
            pure (record {
              access_token = access;
              refresh_token = some refresh;
              expires_at = c.expires_at;
            })
        ]
        else pure
            (record { access_token = access; refresh_token = none; expires_at = c.expires_at })

  abbrev some_token : Connection → Action Tables (Option Token)
  some_token c = token_of c >>= λ t. pure (some t)

  -- The end of `get_valid_token`, after a refresh that succeeded or not.
  unfoldable pub unless_expired : ℕ → Bool → Connection → Action Tables (Option Token)
  unfolding token_of is_expired
  unless_expired now refreshed c =
      if not refreshed && is_expired now c || is_expired now c && not (given c.refresh_token)
      then pure none
      else some_token c

  -- `get_valid_token`; `later` is the clock of the refresh.
  unfoldable pub get_valid_token : ℕ → ℕ → Platforms → ℕ → String → Action Tables (Option Token)
  unfolding get_active_connection refresh_connection unless_expired
  get_valid_token now later platforms u p = do
    found ← get_active_connection u p
    elim found [
      | none ↦ pure none
      | some c ↦ do
        r ← if needs_refresh now c then refresh_connection later platforms c else pure (true, c)
        unless_expired now r.0 r.1
    ]

  -- `get_decrypted_token`
  unfoldable pub get_decrypted_token : ℕ → String → Option String → Action Tables (Option Token)
  unfolding token_of
  get_decrypted_token u p account = do
    found ← gets (λ d. find? (λ c. of_account u p account c && is_active c) d.connections)
    elim found [ none ↦ pure none | some c ↦ some_token c ]
