-- ===== src/Connections/Calls.antt =====
-- Any sequence of calls that change connections, each on a session of its own.
pub mod Accepted
use spoutbreeze_backend.Prelude.{ℕ, List, [], ◌∷◌, String}
use spoutbreeze_backend.Prelude.Session.{open_on}
use spoutbreeze_backend.Connections.Store.{Fernet, Tables}
use spoutbreeze_backend.Connections.Service.{
  Account, TokenData, Platforms, save_connection, get_valid_token, revoke_connection,
}
use spoutbreeze_backend.Connections.Refresh.{refresh_expiring_tokens}

pub data Call : Type 0 where
  save : ℕ → ℕ → Account → TokenData → String → Call
  valid : ℕ → ℕ → Platforms → ℕ → String → Call
  revoke : ℕ → ℕ → String → Call
  refresh : ℕ → ℕ → Platforms → Call

module _ (fernet : Fernet) where
  abbrev pub perform : Call → Tables → Tables
  perform (save now k a t scopes) d =
      (save_connection fernet now k a t scopes (open_on d)).1.durable
  perform (valid now later platforms u p) d =
      (get_valid_token fernet now later platforms u p (open_on d)).1.durable
  perform (revoke now u p) d = (revoke_connection now u p (open_on d)).1.durable
  perform (refresh now later platforms) d =
      (refresh_expiring_tokens fernet now later platforms (open_on d)).1.durable

  abbrev pub run : List Call → Tables → Tables
  run [] d = d
  run (c ∷ cs) d = run cs (perform c d)
