-- ===== src/Connections/Refresh.antt =====
-- `refresh_expiring_tokens` of app/services/token_refresh_service.py.
pub mod Done
use spoutbreeze_backend.Prelude.{
  ℕ, ◌+◌, Bool, true, false, Option, none, some, List, [], ◌∷◌, String, ◌==◌, ◌&&◌, leb, is_some,
  keep, if◌then◌else◌,
}
use spoutbreeze_backend.Prelude.Session.{Action, pure, gets, ◌>>=◌, ◌>>◌}
use spoutbreeze_backend.Connections.Store.{Fernet, Connection, Tables, is_active}
use spoutbreeze_backend.Connections.Service.{Platforms, refresh_connection}

-- `BACKGROUND_REFRESH_THRESHOLD_SECONDS`
abbrev pub background_threshold : ℕ
background_threshold = 1800

-- The condition of the query.
abbrev pub is_due : ℕ → Connection → Bool
is_due now c =
    is_active c && (leb c.expires_at (now + background_threshold) && is_some c.refresh_token)

abbrev pub insert_by_expiry : Connection → List Connection → List Connection
insert_by_expiry c [] = c ∷ []
insert_by_expiry c (d ∷ ds) =
    let rest = insert_by_expiry c ds in
    if leb c.expires_at d.expires_at then c ∷ d ∷ ds else d ∷ rest

-- `order_by(Connection.expires_at.asc())`
abbrev pub by_expiry : List Connection → List Connection
by_expiry [] = []
by_expiry (c ∷ cs) = insert_by_expiry c (by_expiry cs)

module _ (fernet : Fernet) where
  -- The loop over the rows of the query.
  unfoldable pub refresh_all : ℕ → Platforms → List Connection → Action Tables (Unit {0})
  refresh_all now platforms [] = pure tt
  refresh_all now platforms (c ∷ cs) = do
    refresh_connection fernet now platforms c
    refresh_all now platforms cs

  -- `refresh_expiring_tokens`; `later` is the clock of the refreshes.
  unfoldable pub refresh_expiring_tokens : ℕ → ℕ → Platforms → Action Tables (Unit {0})
  unfolding refresh_all
  refresh_expiring_tokens now later platforms = do
    due ← gets (λ d. by_expiry (keep (is_due now) d.connections))
    refresh_all later platforms due
