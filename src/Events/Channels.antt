-- ===== src/Events/Channels.antt =====
-- `ChannelsService` of app/services/channels_service.py, but for the recordings.
use spoutbreeze_backend.Prelude.{
  ℕ, Bool, true, false, Option, none, some, List, [], ◌∷◌, String, ◌==◌, str_eq, ◌&&◌, ◌||◌, find?,
  keep, update_where, not,
}
use spoutbreeze_backend.Prelude.Session.{
  Action, Outcome, ok, raised, value_error, integrity_error, raise_if, pure, raise, gets, modify,
  commit, rolling_back, ◌>>=◌, ◌>>◌,
}
use spoutbreeze_backend.Events.Store.{Channel, User, Tables, user_by_id}

-- A response is the channel with its creator.
pub record ChannelResponse : Type 0 where
  pub channel : Channel
  pub creator_first_name : String
  pub creator_last_name : String

abbrev pub respond : Channel → User → ChannelResponse
respond c u = record {
  channel = c;
  creator_first_name = u.first_name;
  creator_last_name = u.last_name;
}

-- `scalar_one()`
abbrev require_row : {A : Type 0} → Option A → Action Tables A
require_row none = raise value_error
require_row (some a) = pure a

-- The name is unique for a creator; `k` is the channel that is left out.
unfoldable pub name_taken : ℕ → String → ℕ → List Channel → Bool
name_taken k name user_id [] = false
name_taken k name user_id (c ∷ cs) =
    not (c.id == k) && (str_eq c.name name && c.creator_id == user_id)
    || name_taken k name user_id cs

-- `create_channel`
unfoldable pub create_channel : ℕ → String → ℕ → Action Tables ChannelResponse
unfolding name_taken
create_channel new_id name user_id = rolling_back (do
  taken ← gets (λ d. name_taken new_id name user_id d.channels)
  raise_if taken integrity_error
  modify (λ d. record d {
    channels = record { id = new_id; name = name; creator_id = user_id } ∷ d.channels;
  })
  commit
  found ← gets (user_by_id user_id)
  creator ← require_row found
  pure (respond (record { id = new_id; name = name; creator_id = user_id }) creator))

-- `scalar_one_or_none()`
unfoldable pub one_or_none : {A : Type 0} → List A → Outcome (Option A)
one_or_none [] = ok none
one_or_none (x ∷ []) = ok (some x)
one_or_none (x ∷ y ∷ r) = raised value_error

-- `get_channel_by_name`
unfoldable pub get_channel_by_name : String → ℕ → Action Tables (Option Channel)
unfolding one_or_none
get_channel_by_name name user_id s =
    (one_or_none (keep (λ c. str_eq c.name name && c.creator_id == user_id) s.work.channels), s)

-- A channel with its creator, as the joins give them.
unfoldable pub with_creator : List User → List Channel → List ChannelResponse
with_creator us [] = []
with_creator us (c ∷ cs) =
    let rest = with_creator us cs in
    elim (find? (λ u. u.id == c.creator_id) us) [ none ↦ rest | some u ↦ respond c u ∷ rest ]

abbrev pub first : {A : Type 0} → List A → Option A
first [] = none
first (x ∷ xs) = some x

-- `get_channels_by_user_id`
unfoldable pub get_channels_by_user_id : ℕ → Action Tables (List ChannelResponse)
unfolding with_creator
get_channels_by_user_id user_id =
    gets (λ d. with_creator d.users (keep (λ c. c.creator_id == user_id) d.channels))

-- `get_channel_by_id`
unfoldable pub get_channel_by_id : ℕ → Action Tables (Option ChannelResponse)
unfolding with_creator
get_channel_by_id k = gets (λ d. first (with_creator d.users (keep (λ c. c.id == k) d.channels)))

abbrev pub rename : Option String → Channel → Channel
rename none c = c
rename (some n) c = record c { name = n }

abbrev name_after : Option String → String → String
name_after none old = old
name_after (some n) old = n

-- `update_channel`; an update without a name changes nothing of the model.
unfoldable pub update_channel : ℕ → Option String → ℕ → Action Tables (Option ChannelResponse)
unfolding with_creator name_taken
update_channel k name user_id = do
  found ← gets (λ d.
      first (with_creator d.users (keep (λ c. c.id == k && c.creator_id == user_id) d.channels)))
  elim found [
    | none ↦ pure none
    | some r ↦ rolling_back (do
      taken ← gets (λ d. name_taken k (name_after name r.channel.name) user_id d.channels)
      raise_if taken integrity_error
      modify (λ d. record d { channels = update_where (λ c. c.id == k) (rename name) d.channels })
      commit
      pure (some (record r { channel = rename name r.channel })))
  ]

-- `delete_channel`; the events of the channel are deleted with it (`ondelete="CASCADE"`).
unfoldable pub delete_channel : ℕ → ℕ → Action Tables Bool
unfolding one_or_none
delete_channel k user_id s =
    elim (one_or_none (keep (λ c. c.id == k && c.creator_id == user_id) s.work.channels)) [
      | raised e ↦ (raised e, s)
      | ok none ↦ (ok false, s)
      | ok (some c) ↦
          let d = record (s.work) {
            channels = keep (λ c. not (c.id == k)) s.work.channels;
            events = keep (λ e. not (e.channel_id == k)) s.work.events;
          } in
          (ok true, record { durable = d; work = d })
    ]
