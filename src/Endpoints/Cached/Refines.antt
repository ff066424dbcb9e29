-- ===== src/Endpoints/Cached/Refines.antt =====
-- The cache before the endpoints does not show.
use spoutbreeze_backend.Prelude.{
  ℕ, ◌≡◌, inl, inr, refl, true, List, [], arith, find?, keep, Option-cases,
}
use spoutbreeze_backend.Prelude.Session.{Outcome, open_on}
use spoutbreeze_backend.Cache.Through.{World, on_session}
use spoutbreeze_backend.Cache.Through.Serving.{Coherent, on_session-Serves, cached-Serves}
use spoutbreeze_backend.Cache.Through.Runs.{
  Undone, Undone-answered, run_through, run_plain, Along-all, Matches, Serves-Matches,
  write-Matches, drop_keys-Matches, run_through-run_plain,
}
use spoutbreeze_backend.Endpoints.Store.{Tables, RtmpEndpointCreate, RtmpEndpointUpdate, user_by_id}
use spoutbreeze_backend.Endpoints.Service.{
  first, owned, with_user, create_rtmp_endpoints, get_all_rtmp_endpoints,
  get_rtmp_endpoints_by_user_id, get_rtmp_endpoints_by_id, update_rtmp_endpoints,
  delete_rtmp_endpoints,
}
use spoutbreeze_backend.Endpoints.Cached.{
  Key, same, Answer, is_value, read, read_cached, invalidated, Write, create, update, delete, write,
  write_cached, Call, asks, writes, expires, perform, perform_cached,
}

same_sound : (j k : Key) → same j k ≡ true → j ≡ k
same_sound Key.rtmp_all Key.rtmp_all h = refl
same_sound Key.rtmp_all (Key.rtmp_user v) h = ground (arith, h)
same_sound Key.rtmp_all (Key.rtmp_by_id k v) h = ground (arith, h)
same_sound (Key.rtmp_user u) Key.rtmp_all h = ground (arith, h)
same_sound (Key.rtmp_user u) (Key.rtmp_user v) h = ground (arith, h)
same_sound (Key.rtmp_user u) (Key.rtmp_by_id k v) h = ground (arith, h)
same_sound (Key.rtmp_by_id j u) Key.rtmp_all h = ground (arith, h)
same_sound (Key.rtmp_by_id j u) (Key.rtmp_user v) h = ground (arith, h)
same_sound (Key.rtmp_by_id j u) (Key.rtmp_by_id k v) h = ground (arith, h)

abbrev truth : Key → Tables → Outcome Answer
truth k d = (read k (open_on d)).0

read_keeps : (k : Key) (d : Tables) → (read k (open_on d)).1.durable ≡ d
unfolding get_all_rtmp_endpoints get_rtmp_endpoints_by_user_id get_rtmp_endpoints_by_id
read_keeps Key.rtmp_all d = refl
read_keeps (Key.rtmp_user u) d = refl
read_keeps (Key.rtmp_by_id k u) d = refl

create-Undone :
    (now new_id : ℕ) (c : RtmpEndpointCreate) (u : ℕ) (d : Tables)
    → Undone (create_rtmp_endpoints now new_id c u) d
unfolding create_rtmp_endpoints
create-Undone now new_id c u d e h = elim (Option-cases (user_by_id u d.users)) [
  | inl g ↦ ground (arith, g, h)
  | inr (x, g) ↦ ground (arith, g, h)
]

update-Undone :
    (now k u : ℕ) (c : RtmpEndpointUpdate) (d : Tables) → Undone (update_rtmp_endpoints now k u c) d
unfolding update_rtmp_endpoints
update-Undone now k u c d e h =
    elim (Option-cases (first (with_user d.users (keep (owned k u) d.endpoints)))) [
      | inl g ↦ ground (arith, g, h)
      | inr (x, g) ↦ ground (arith, g, h)
    ]

delete-Undone : (k u : ℕ) (d : Tables) → Undone (delete_rtmp_endpoints k u) d
unfolding delete_rtmp_endpoints
delete-Undone k u d e h = elim (Option-cases (find? (owned k u) d.endpoints)) [
  | inl g ↦ ground (arith, g, h)
  | inr (x, g) ↦ ground (arith, g, h)
]

write-Undone : (c : Write) (d : Tables) → Undone (write c) d
write-Undone (create now new_id c u) d =
    Undone-answered _ (create_rtmp_endpoints now new_id c u) d (create-Undone now new_id c u d)
write-Undone (update now k u c) d =
    Undone-answered _ (update_rtmp_endpoints now k u c) d (update-Undone now k u c d)
write-Undone (delete k u) d = Undone-answered _ (delete_rtmp_endpoints k u) d (delete-Undone k u d)

all_invalidated : (k : Key) → invalidated k ≡ true
unfolding invalidated
all_invalidated Key.rtmp_all = refl
all_invalidated (Key.rtmp_user u) = refl
all_invalidated (Key.rtmp_by_id k u) = refl

perform-Matches :
    (c : Call) (w : World Tables Key Answer)
    → Coherent same same_sound truth invalidated w
    → Matches same same_sound truth invalidated (perform_cached c w) (perform c w.tables)
unfolding write_cached
perform-Matches (asks k) w h =
    let plain =
      on_session-Serves same same_sound truth invalidated (read k) k (λ d. refl) (read_keeps k) in
    Serves-Matches same same_sound truth invalidated (read_cached k) k w
      (cached-Serves same same_sound truth invalidated is_value k (on_session (read k)) plain)
      (all_invalidated k) h
perform-Matches (writes c) w h =
    write-Matches same same_sound truth invalidated invalidated (write c) w (λ k e. e)
      (write-Undone c w.tables) h
perform-Matches (expires p) w h = drop_keys-Matches same same_sound truth invalidated _ p w h

-- Any reads, creations, updates and deletions of endpoints, by any users and with entries that run
-- out between them, are answered through the cache, empty at first, as they are without it.
pub perform_cached-perform :
    (cs : List Call) (d : Tables)
    → run_through perform_cached cs (record { tables = d; entries = [] }) ≡ run_plain perform cs d
perform_cached-perform cs d =
    run_through-run_plain same same_sound truth invalidated perform_cached perform (λ c d'. Unit)
      (λ c w u h. perform-Matches c w h) cs (record { tables = d; entries = [] }) d refl
      (Along-all perform (λ c d'. Unit) (λ c d'. tt) cs d) tt
