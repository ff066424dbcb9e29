-- ===== src/Endpoints/Service.antt =====
-- `RtmpEndpointService` of app/services/rtmp_service.py. The clock and the ids of new rows are
-- inputs.
use spoutbreeze_backend.Prelude.{
  ℕ, Bool, Option, none, some, List, [], ◌∷◌, String, ◌==◌, ◌&&◌, ◌||◌, not, is_some, find?, keep,
  update_where, if◌then◌else◌,
}
use spoutbreeze_backend.Prelude.Session.{
  Action, ok, raised, Error, value_error, integrity_error, pure, raise, raise_if, gets, modify,
  commit, rolling_back, ◌>>=◌, ◌>>◌,
}
use spoutbreeze_backend.Endpoints.Store.{
  User, RtmpEndpoint, Tables, RtmpEndpointCreate, RtmpEndpointUpdate, RtmpEndpointResponse,
  user_by_id, key_taken,
}

-- `_create_rtmp_endpoints_response`
abbrev pub respond : RtmpEndpoint → User → RtmpEndpointResponse
respond e u = record { endpoint = e; user_first_name = u.first_name; user_last_name = u.last_name }

-- The join of rows with their users.
unfoldable pub with_user : List User → List RtmpEndpoint → List RtmpEndpointResponse
with_user us [] = []
with_user us (e ∷ es) =
    let rest = with_user us es in
    elim (user_by_id e.user_id us) [ none ↦ rest | some u ↦ respond e u ∷ rest ]

abbrev pub first : {A : Type 0} → List A → Option A
first [] = none
first (x ∷ xs) = some x

abbrev pub owned : ℕ → ℕ → RtmpEndpoint → Bool
owned k user_id e = e.id == k && e.user_id == user_id

-- The exceptions of `create_rtmp_endpoints`: a row that the database refuses is a ValueError.
abbrev pub as_value_error : Error → Error
as_value_error Error.integrity_error = value_error
as_value_error e = e

abbrev pub refusing : {A : Type 0} → Action Tables A → Action Tables A
refusing m s =
    let (r, s') = rolling_back m s in
    elim r [ ok a ↦ (ok a, s') | raised e ↦ (raised (as_value_error e), s') ]

abbrev new_row : ℕ → ℕ → RtmpEndpointCreate → ℕ → RtmpEndpoint
new_row now new_id c user_id = record {
  id = new_id;
  title = c.title;
  rtmp_url = c.rtmp_url;
  stream_key = c.stream_key;
  created_at = now;
  updated_at = now;
  user_id = user_id;
}

-- `scalar_one()`
abbrev require_user : Option User → Action Tables User
require_user none = raise value_error
require_user (some u) = pure u

-- `create_rtmp_endpoints`; the stream key and the id are unique, and the user is a foreign key.
unfoldable pub create_rtmp_endpoints :
    ℕ → ℕ → RtmpEndpointCreate → ℕ → Action Tables RtmpEndpointResponse
unfolding key_taken
create_rtmp_endpoints now new_id c user_id = refusing (do
  refused ← gets (λ d.
      not (is_some (user_by_id user_id d.users))
      || (is_some (find? (λ e. e.id == new_id) d.endpoints)
          || key_taken new_id c.stream_key d.endpoints))
  raise_if refused integrity_error
  modify (λ d. record d { endpoints = new_row now new_id c user_id ∷ d.endpoints })
  commit
  found ← gets (λ d. user_by_id user_id d.users)
  u ← require_user found
  pure (respond (new_row now new_id c user_id) u))

-- `get_all_rtmp_endpoints`
unfoldable pub get_all_rtmp_endpoints : Action Tables (List RtmpEndpointResponse)
unfolding with_user
get_all_rtmp_endpoints = gets (λ d. with_user d.users d.endpoints)

-- `get_rtmp_endpoints_by_user_id`
unfoldable pub get_rtmp_endpoints_by_user_id : ℕ → Action Tables (List RtmpEndpointResponse)
unfolding with_user
get_rtmp_endpoints_by_user_id user_id =
    gets (λ d. with_user d.users (keep (λ e. e.user_id == user_id) d.endpoints))

-- `get_rtmp_endpoints_by_id`
unfoldable pub get_rtmp_endpoints_by_id : ℕ → ℕ → Action Tables (Option RtmpEndpointResponse)
unfolding with_user
get_rtmp_endpoints_by_id k user_id =
    gets (λ d. first (with_user d.users (keep (owned k user_id) d.endpoints)))

-- `update_data` without the keys that are None
abbrev pub or_old : Option String → String → String
or_old none old = old
or_old (some t) old = t

abbrev pub has_changes : RtmpEndpointUpdate → Bool
has_changes c = is_some c.title || (is_some c.rtmp_url || is_some c.stream_key)

abbrev pub changed : ℕ → RtmpEndpointUpdate → RtmpEndpoint → RtmpEndpoint
changed now c e = record e {
  title = or_old c.title e.title;
  rtmp_url = or_old c.rtmp_url e.rtmp_url;
  stream_key = or_old c.stream_key e.stream_key;
  updated_at = now;
}

-- `update_rtmp_endpoints`; an empty update does not touch the row.
unfoldable pub update_rtmp_endpoints :
    ℕ → ℕ → ℕ → RtmpEndpointUpdate → Action Tables (Option RtmpEndpointResponse)
unfolding with_user key_taken
update_rtmp_endpoints now k user_id c = rolling_back (do
  found ← gets (λ d. first (with_user d.users (keep (owned k user_id) d.endpoints)))
  elim found [
    | none ↦ pure none
    | some r ↦
        if has_changes c
        then (do
          refused ← gets (λ d. key_taken k (or_old c.stream_key r.endpoint.stream_key) d.endpoints)
          raise_if refused integrity_error
          modify (λ d. record d {
            endpoints = update_where (λ e. e.id == k) (changed now c) d.endpoints;
          })
          commit
          pure (some (record r { endpoint = changed now c r.endpoint })))
        else pure (some r)
  ])

-- `delete_rtmp_endpoints`: the id that the answer names.
unfoldable pub delete_rtmp_endpoints : ℕ → ℕ → Action Tables (Option ℕ)
delete_rtmp_endpoints k user_id = rolling_back (do
  found ← gets (λ d. find? (owned k user_id) d.endpoints)
  elim found [
    | none ↦ pure none
    | some e ↦ do
      modify (λ d. record d { endpoints = keep (λ x. not (x.id == k)) d.endpoints })
      commit
      pure (some k)
  ])
