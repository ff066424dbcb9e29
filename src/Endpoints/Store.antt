-- ===== src/Endpoints/Store.antt =====
-- The table of app/models/stream_models.py, the names of users, and app/models/stream_schemas.py.
use spoutbreeze_backend.Prelude.{
  ℕ, Bool, Option, List, String, ◌==◌, str_eq, ◌&&◌, not, is_some, find?,
}

pub record User : Type 0 where
  pub id : ℕ
  pub first_name : String
  pub last_name : String

pub record RtmpEndpoint : Type 0 where
  pub id : ℕ
  pub title : String
  pub rtmp_url : String
  pub stream_key : String
  pub created_at : ℕ
  pub updated_at : ℕ
  pub user_id : ℕ

pub record Tables : Type 0 where
  pub users : List User
  pub endpoints : List RtmpEndpoint

pub record RtmpEndpointCreate : Type 0 where
  pub title : String
  pub stream_key : String
  pub rtmp_url : String

pub record RtmpEndpointUpdate : Type 0 where
  pub title : Option String
  pub rtmp_url : Option String
  pub stream_key : Option String

pub record RtmpEndpointResponse : Type 0 where
  pub endpoint : RtmpEndpoint
  pub user_first_name : String
  pub user_last_name : String

abbrev pub user_by_id : ℕ → List User → Option User
user_by_id k us = find? (λ u. u.id == k) us

-- Another row has the id or the stream key.
unfoldable pub key_taken : ℕ → String → List RtmpEndpoint → Bool
key_taken k key es = is_some (find? (λ e. not (e.id == k) && str_eq e.stream_key key) es)
