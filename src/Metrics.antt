-- ===== src/Metrics.antt =====
-- backend/src/modules/observability/metrics.service.ts: a buffer of measurements that is handed to
-- CloudWatch in requests of at most twenty. The client of AWS is a parameter: whether it could be
-- loaded. What it answers changes nothing, since a request that fails is dropped. The
-- requests of a flush are handed over before those of the next.
pub mod Buffer
pub mod Client
use messageries.Base.{
  Bool, List, Option, [], drop, if◌then◌else◌, leb, length, not, suc, take, zero, ℕ, ◌++◌, ◌||◌,
  ◌∷◌,
}
use messageries.Base.Text.{Text}
use messageries.Scanner.{is_empty}

pub data MetricUnit : Type 0 where
  count_unit milliseconds : MetricUnit
  other_unit : Text → MetricUnit

pub record MetricDatum : Type 0 where
  pub metric_name : Text
  pub value : ℕ
  pub unit : MetricUnit
  pub timestamp : ℕ
  pub dimensions : Option (List (Text × Text))

-- `requests` is the log of what was given to `PutMetricData`.
pub record MetricsService : Type 0 where
  pub enabled : Bool
  pub client : Bool
  pub buffer : List MetricDatum
  pub requests : List (List MetricDatum)

-- `datums.splice(0, 20)` until none is left; the fuel is the number of datums.
unfoldable pub chunks : ℕ → List MetricDatum → List (List MetricDatum)
chunks fuel [] = []
chunks zero (d ∷ ds) = []
chunks (suc fuel) (d ∷ ds) = take 20 (d ∷ ds) ∷ chunks fuel (drop 20 (d ∷ ds))

unfoldable pub flush : MetricsService → MetricsService
flush m =
    if not m.enabled || not m.client || is_empty m.buffer
    then m
    else record m { buffer = []; requests = m.requests ++ chunks (length m.buffer) m.buffer }

-- The end of `push`: a buffer with twenty measurements is flushed.
unfoldable pub flush_full : MetricsService → MetricsService
flush_full m = if leb 20 (length m.buffer) then flush m else m

unfoldable pub push : MetricDatum → MetricsService → MetricsService
push d m = if not m.enabled then m else flush_full (record m { buffer = m.buffer ++ d ∷ [] })

module _ (now : ℕ) (name : Text) (value : ℕ) (dimensions : Option (List (Text × Text))) where
  abbrev pub datum_of : MetricUnit → MetricDatum
  datum_of unit = record {
    metric_name = name;
    value = value;
    unit = unit;
    timestamp = now;
    dimensions = dimensions;
  }

  abbrev pub count_metric : MetricsService → MetricsService
  count_metric m = push (datum_of count_unit) m

  abbrev pub gauge : Text → MetricsService → MetricsService
  gauge unit m = push (datum_of (other_unit unit)) m

  abbrev pub timing : MetricsService → MetricsService
  timing m = push (datum_of milliseconds) m

-- What the service meets: a measurement, the timer of thirty seconds, and the end of `bootstrap`,
-- with whether the package could be loaded.
pub data MetricEvent : Type 0 where
  measured : MetricDatum → MetricEvent
  timer : MetricEvent
  loaded : Bool → MetricEvent

-- Without a client the timer is not set, and `flush` would do nothing.
unfoldable pub meet : MetricEvent → MetricsService → MetricsService
meet (measured d) m = push d m
meet timer m = flush m
meet (loaded there) m = record m { client = there }

unfoldable pub meet_all : List MetricEvent → MetricsService → MetricsService
meet_all [] m = m
meet_all (e ∷ es) m = meet_all es (meet e m)
