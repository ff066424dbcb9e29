-- ===== src/Connections/Store.antt =====
-- The table of app/models/connection_model.py, newest row first, and app/utils/token_encryption.py.
use spoutbreeze_backend.Prelude.{
  ℕ, Bool, false, Option, none, some, List, String, ◌==◌, str_eq, ◌&&◌, not, leb, is_some, find?,
  update_where,
}

-- `encrypt_token` and `decrypt_token`: a library encrypts, and refuses a text that it did not make.
pub record Fernet : Type 0 where
  pub encrypt_token : String → String
  pub decrypt_token : String → Option String

pub record Connection : Type 0 where
  pub id : ℕ
  pub user_id : ℕ
  pub provider : String
  pub provider_user_id : Option String
  pub display_name : Option String
  pub access_token : String
  pub refresh_token : Option String
  pub scopes : Option String
  pub expires_at : ℕ
  pub created_at : ℕ
  pub updated_at : ℕ
  pub revoked_at : Option ℕ

pub record Tables : Type 0 where
  pub users : List ℕ
  pub connections : List Connection

-- `is_active` and `is_expired`
abbrev pub is_active : Connection → Bool
is_active c = not (is_some c.revoked_at)

unfoldable pub is_expired : ℕ → Connection → Bool
is_expired now c = leb c.expires_at now

abbrev pub of_provider : ℕ → String → Connection → Bool
of_provider u p c = c.user_id == u && str_eq c.provider p

-- The filters that the service adds for an account of the provider.
abbrev pub of_account : ℕ → String → Option String → Connection → Bool
of_account u p none c = of_provider u p c
of_account u p (some a) c =
    of_provider u p c && (elim c.provider_user_id [ none ↦ false | some b ↦ str_eq b a ])

abbrev pub active_of : ℕ → String → Connection → Bool
active_of u p c = of_provider u p c && is_active c

-- `COALESCE(provider_user_id, '')`
abbrev pub coalesce : Option String → String
coalesce none = ""
coalesce (some a) = a

-- The same user, provider and account.
abbrev pub same_key : Connection → Connection → Bool
same_key c d =
    of_provider c.user_id c.provider d
    && str_eq (coalesce d.provider_user_id) (coalesce c.provider_user_id)

-- The partial unique index refuses the row.
unfoldable pub index_refuses : Connection → List Connection → Bool
index_refuses c cs = is_some (find? (λ d. (not (d.id == c.id) && is_active d) && same_key c d) cs)

abbrev pub change_connection : ℕ → (Connection → Connection) → Tables → Tables
change_connection k f d = record d { connections = update_where (λ c. c.id == k) f d.connections }
