-- ===== src/Billing/Plan/Quality.antt =====
-- The order of the stream qualities: `quality_hierarchy` in app/utils/subscription_middleware.py,
-- which is also `_QUALITY_ORDER` in app/services/broadcaster_service.py, and the clamp there.
use spoutbreeze_backend.Prelude.{ℕ, Option, none, some, String, str_eq, truthy, leb, if◌then◌else◌}

unfoldable pub quality_order : String → Option ℕ
quality_order q =
    if str_eq q "360p"
    then some 0
    else if str_eq q "480p"
    then some 1
    else if str_eq q "720p"
    then some 2
    else if str_eq q "1080p"
    then some 3
    else if str_eq q "1440p"
    then some 4
    else if str_eq q "4K"
    then some 5
    else none

-- `quality_hierarchy.get(q, 0)`.
unfoldable pub quality_level : String → ℕ
quality_level q = elim (quality_order q) [ none ↦ 0 | some n ↦ n ]

-- An unknown maximum is read as 720p.
unfoldable pub known_quality : String → String
known_quality q = elim (quality_order q) [ none ↦ "720p" | some _ ↦ q ]

-- The choice between a request of a known level and the maximum.
unfoldable pub clamp_level : String → String → Option ℕ → Option ℕ → String
clamp_level requested top none m = top
clamp_level requested top (some r) none = top
clamp_level requested top (some r) (some m) = if leb r m then requested else top

-- `_clamp_resolution`.
unfoldable pub clamp_resolution : Option String → String → String
unfolding clamp_level
clamp_resolution none top = known_quality top
clamp_resolution (some requested) top =
    if truthy requested
    then clamp_level requested (known_quality top) (quality_order requested)
        (quality_order (known_quality top))
    else known_quality top
