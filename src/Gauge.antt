-- ===== src/Gauge.antt =====
-- The gauge of process data that pkg/proxy, pkg/dumbproxy and pkg/client set.
use comfoconnectbridge.Prelude.{ℕ, String, Option, none, some}
use comfoconnectbridge.Prelude.Int.{ℤ}
use comfoconnectbridge.Go.Errors.{Go, value, panic, and_then}
use comfoconnectbridge.Comfoconnect.Rpdo.{Converter, to_float64}

-- The gauge that `generateMetrics` sets: the id, the description and the value.
pub record Metric : Type 0 where
  pub id : ℕ
  pub description : String
  pub reading : ℤ

-- A nil converter has no method to call.
unfoldable pub metric_of : Option Converter → Go (Option Metric)
unfolding to_float64
metric_of none = panic
metric_of (some r) =
    and_then (to_float64 r)
      λ x. value (some (record { id = r.id; description = r.description; reading = x }))
