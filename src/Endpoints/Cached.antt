-- ===== src/Endpoints/Cached.antt =====
-- `RtmpEndpointServiceCached` of app/services/cached/rtmp_service_cached.py.
pub mod Refines
use spoutbreeze_backend.Prelude.{
  ℕ, Bool, true, false, Option, none, some, List, [], ◌∷◌, ◌==◌, ◌&&◌, is_some,
}
use spoutbreeze_backend.Prelude.Session.{Action, Outcome, ok, raised, open_on}
use spoutbreeze_backend.Cache.Through.{
  World, Request, answered, on_session, then_drop, drop_keys, cached,
}
use spoutbreeze_backend.Cache.Through.Runs.{request}
use spoutbreeze_backend.Endpoints.Store.{
  Tables, RtmpEndpointCreate, RtmpEndpointUpdate, RtmpEndpointResponse,
}
use spoutbreeze_backend.Endpoints.Service.{
  create_rtmp_endpoints, get_all_rtmp_endpoints, get_rtmp_endpoints_by_user_id,
  get_rtmp_endpoints_by_id, update_rtmp_endpoints, delete_rtmp_endpoints,
}

-- The keys: a prefix and the arguments.
pub data Key : Type 0 where
  rtmp_all : Key
  rtmp_user : ℕ → Key
  rtmp_by_id : ℕ → ℕ → Key

abbrev pub same : Key → Key → Bool
same Key.rtmp_all Key.rtmp_all = true
same (Key.rtmp_user u) (Key.rtmp_user v) = u == v
same (Key.rtmp_by_id k u) (Key.rtmp_by_id j v) = k == j && u == v
same _ _ = false

pub data Answer : Type 0 where
  rows : List RtmpEndpointResponse → Answer
  row : Option RtmpEndpointResponse → Answer
  deleted : Option ℕ → Answer

-- None is no hit.
abbrev pub is_value : Answer → Bool
is_value (rows rs) = true
is_value (row r) = is_some r
is_value (deleted k) = is_some k

-- The reads of the service that is inherited from.
abbrev pub read : Key → Action Tables Answer
read Key.rtmp_all = answered rows get_all_rtmp_endpoints
read (Key.rtmp_user u) = answered rows (get_rtmp_endpoints_by_user_id u)
read (Key.rtmp_by_id k u) = answered row (get_rtmp_endpoints_by_id k u)

-- The reads: `get_all_rtmp_endpoints`, `get_rtmp_endpoints_by_user_id`, `get_rtmp_endpoints_by_id`
abbrev pub read_cached : Key → Request Tables Key Answer Answer
read_cached k = cached same is_value k (on_session (read k))

-- `_invalidate_after_change`
unfoldable pub invalidated : Key → Bool
invalidated Key.rtmp_all = true
invalidated (Key.rtmp_user u) = true
invalidated (Key.rtmp_by_id k u) = true

-- The writes.
pub data Write : Type 0 where
  create : ℕ → ℕ → RtmpEndpointCreate → ℕ → Write
  update : ℕ → ℕ → ℕ → RtmpEndpointUpdate → Write
  delete : ℕ → ℕ → Write

abbrev pub write : Write → Action Tables Answer
write (create now new_id c u) = answered (λ r. row (some r)) (create_rtmp_endpoints now new_id c u)
write (update now k u c) = answered row (update_rtmp_endpoints now k u c)
write (delete k u) = answered deleted (delete_rtmp_endpoints k u)

-- `create_rtmp_endpoints`, `update_rtmp_endpoints` and `delete_rtmp_endpoints`
unfoldable pub write_cached : Write → Request Tables Key Answer Answer
write_cached c = then_drop (on_session (write c)) invalidated

-- What may happen: a read, a write, and that entries run out.
pub data Call : Type 0 where
  asks : Key → Call
  writes : Write → Call
  expires : (Key → Bool) → Call

-- A call with the cache, and one of the service that is inherited from.
abbrev pub perform_cached : Call → Request Tables Key Answer Answer
perform_cached (asks k) w = read_cached k w
perform_cached (writes c) w = write_cached c w
perform_cached (expires p) w = (ok (rows []), drop_keys p w)

abbrev pub perform : Call → Tables → Outcome Answer × Tables
perform (asks k) d = ((read k (open_on d)).0, d)
perform (writes c) d = request (write c) d
perform (expires p) d = (ok (rows []), d)
