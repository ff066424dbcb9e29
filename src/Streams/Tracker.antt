-- ===== src/Streams/Tracker.antt =====
-- `StreamTracker` of app/services/broadcaster_service.py: the running streams by user, the user and
-- the platform of a stream, in Redis or in the process while Redis is not connected, and the rows
-- of app/models/stream_session_models.py. Users and streams are numbers; the life times of keys are
-- left out. Whether the database takes a row is an input.
pub mod Sets
pub mod RoundTrip
use spoutbreeze_backend.Prelude.{
  ℕ, Bool, true, false, Option, none, some, List, [], ◌∷◌, String, ◌==◌, ◌&&◌, not, is_some, given,
  elem, keep, find?, update_where, length, if◌then◌else◌,
}
use spoutbreeze_backend.Prelude.Dict.{Entry, get, put, del}

-- The three groups of keys.
pub record Store : Type 0 where
  pub user_streams : List (Entry (List ℕ))
  pub stream_to_user : List (Entry ℕ)
  pub stream_platforms : List (Entry String)

pub data StreamSessionStatus : Type 0 where
  active ended failed : StreamSessionStatus

pub record StreamSession : Type 0 where
  pub stream_id : ℕ
  pub user_id : ℕ
  pub platform : Option String
  pub status : StreamSessionStatus

pub record Tracker : Type 0 where
  pub redis : Option Store
  pub fallback : Store
  pub sessions : List StreamSession

-- `_record_stream_session_start`: the stream id is unique, and an error is only logged.
unfoldable pub record_stream_session_start :
    Bool → ℕ → ℕ → Option String → List StreamSession → List StreamSession
record_stream_session_start saved u sid platform rows =
    if saved && not (is_some (find? (λ r. r.stream_id == sid) rows))
    then record {
      stream_id = sid;
      user_id = u;
      platform = platform;
      status = StreamSessionStatus.active;
    }
      ∷ rows
    else rows

abbrev pub is_running : StreamSessionStatus → Bool
is_running StreamSessionStatus.active = true
is_running _ = false

-- `_record_stream_session_end`
unfoldable pub record_stream_session_end : Bool → ℕ → List StreamSession → List StreamSession
record_stream_session_end saved sid rows =
    if saved
    then update_where (λ r. r.stream_id == sid && is_running r.status)
        (λ r. record r { status = StreamSessionStatus.ended }) rows
    else rows

abbrev pub listed : Option (List ℕ) → List ℕ
listed none = []
listed (some xs) = xs

abbrev pub members : ℕ → List (Entry (List ℕ)) → List ℕ
members u d = listed (get u d)

abbrev pub insert : ℕ → List ℕ → List ℕ
insert s xs = if elem s xs then xs else s ∷ xs

abbrev pub discard : ℕ → List ℕ → List ℕ
discard s xs = keep (λ x. not (x == s)) xs

-- `if platform:`
abbrev pub put_platform : ℕ → Option String → List (Entry String) → List (Entry String)
put_platform sid none d = d
put_platform sid (some p) d = if given (some p) then put sid p d else d

-- The writes of `add_stream`, the same to both stores.
abbrev pub added : ℕ → ℕ → Option String → Store → Store
added u sid platform t = record {
  user_streams = put u (insert sid (members u t.user_streams)) t.user_streams;
  stream_to_user = put sid u t.stream_to_user;
  stream_platforms = put_platform sid platform t.stream_platforms;
}

-- The store in use: Redis if it is connected.
abbrev pub choose : Option Store → Store → Store
choose (some r) f = r
choose none f = f

abbrev pub store : Tracker → Store
store t = choose t.redis t.fallback

-- A change of the store in use.
abbrev pub write : Store → Option Store → Store → Option Store × Store
write s (some r) f = (some s, f)
write s none f = (none, s)

abbrev pub with_store : Store → Tracker → Tracker
with_store s t = let (r, f) = write s t.redis t.fallback in record t { redis = r; fallback = f }

-- `add_stream`
unfoldable pub add_stream : Bool → ℕ → ℕ → Option String → Tracker → Tracker
unfolding record_stream_session_start
add_stream saved u sid platform t = record (with_store (added u sid platform (store t)) t) {
  sessions = record_stream_session_start saved u sid platform t.sessions;
}

-- A set without members is deleted.
abbrev pub put_members : ℕ → List ℕ → List (Entry (List ℕ)) → List (Entry (List ℕ))
put_members u [] d = del u d
put_members u (x ∷ xs) d = put u (x ∷ xs) d

abbrev pub without : Option ℕ → ℕ → List (Entry (List ℕ)) → List (Entry (List ℕ))
without none sid d = d
without (some u) sid d =
    if elem sid (members u d) then put_members u (discard sid (members u d)) d else d

-- The writes of `remove_stream`, the same to both stores.
abbrev pub removed : ℕ → Store → Store
removed sid t = record {
  user_streams = without (get sid t.stream_to_user) sid t.user_streams;
  stream_to_user = del sid t.stream_to_user;
  stream_platforms = del sid t.stream_platforms;
}

abbrev pub owner : ℕ → Store → Option ℕ × Option String
owner sid t = (get sid t.stream_to_user, get sid t.stream_platforms)

-- `remove_stream`: the user and the platform of the stream.
unfoldable pub remove_stream : Bool → ℕ → Tracker → (Option ℕ × Option String) × Tracker
unfolding record_stream_session_end
remove_stream saved sid t = (
  owner sid (store t),
  record (with_store (removed sid (store t)) t) {
    sessions = record_stream_session_end saved sid t.sessions;
  },
)

-- `get_user_streams` and `get_active_stream_count`
unfoldable pub get_user_streams : ℕ → Tracker → List ℕ
get_user_streams u t = members u (store t).user_streams

unfoldable pub get_active_stream_count : ℕ → Tracker → ℕ
unfolding get_user_streams
get_active_stream_count u t = length (get_user_streams u t)
