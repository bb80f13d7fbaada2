-- ===== src/Tests/Measuring.antt =====
-- The theorems on the metrics: three measurements and a turn of the timer.
use messageries.Base.{All, List, [], false, none, refl, true, ℕ, ◌∷◌, ◌≡◌}
use messageries.Base.Text.{codes}
use messageries.Metrics.{
  MetricDatum, MetricEvent, MetricsService, count_unit, datum_of, loaded, measured, meet_all, timer,
}
use messageries.Metrics.Buffer.{IsRequest, accounted, measurements_accounted}

abbrev quiet : MetricsService
quiet = record { enabled = true; client = false; buffer = []; requests = [] }

abbrev one : ℕ → MetricDatum
one n = datum_of 1000 (codes "OutboxProcessed") n none count_unit

abbrev day : List MetricEvent
day = measured (one 1) ∷ loaded true ∷ measured (one 2) ∷ timer ∷ measured (one 3) ∷ []

measurements_accounted_example :
    (accounted (meet_all day quiet) ≡ one 1 ∷ one 2 ∷ one 3 ∷ [])
    × All IsRequest (meet_all day quiet).requests
measurements_accounted_example = measurements_accounted day quiet refl tt
