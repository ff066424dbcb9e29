-- ===== src/Endpoints/Tests.antt =====
-- Two users, one of them with an endpoint.
use spoutbreeze_backend.Prelude.{◌≡◌, refl, true, none, some, List, [], ◌∷◌}
use spoutbreeze_backend.Prelude.Session.{raised, value_error, open_on}
use spoutbreeze_backend.Cache.Through.Runs.{run_through, run_plain}
use spoutbreeze_backend.Endpoints.Store.{RtmpEndpoint, Tables}
use spoutbreeze_backend.Endpoints.Service.{create_rtmp_endpoints}
use spoutbreeze_backend.Endpoints.Cached.{
  Key, update, delete, Call, asks, writes, expires, perform, perform_cached,
}
use spoutbreeze_backend.Endpoints.Cached.Refines.{perform_cached-perform}

abbrev live_row : RtmpEndpoint
live_row = record {
  id = 5;
  title = "Live";
  rtmp_url = "rtmp://a";
  stream_key = "k1";
  created_at = 10;
  updated_at = 10;
  user_id = 1;
}

abbrev tables : Tables
tables = record {
  users =
      record { id = 1; first_name = "Ana"; last_name = "Diaz" }
      ∷ record { id = 2; first_name = "Ben"; last_name = "Fox" }
      ∷ [];
  endpoints = live_row ∷ [];
}

-- A stream key that is taken.
taken :
    (create_rtmp_endpoints 20 6
      (record { title = "Copy"; stream_key = "k1"; rtmp_url = "rtmp://b" })
      2
      (open_on tables)).0
    ≡ raised value_error
unfolding create_rtmp_endpoints
taken = refl

abbrev calls : List Call
calls =
    asks (Key.rtmp_by_id 5 1)
    ∷ writes (update 30 5 1 (record { title = some "Later"; rtmp_url = none; stream_key = none }))
    ∷ asks (Key.rtmp_by_id 5 1)
    ∷ writes (delete 5 2)
    ∷ expires (λ k. true)
    ∷ asks Key.rtmp_all
    ∷ []

perform_cached-perform_example :
    run_through perform_cached calls (record { tables = tables; entries = [] })
    ≡ run_plain perform calls tables
perform_cached-perform_example = perform_cached-perform calls tables
