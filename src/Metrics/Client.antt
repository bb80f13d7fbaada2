-- ===== src/Metrics/Client.antt =====
-- The buffer of backend/src/modules/observability/metrics.service.ts with and without the client.
use mathlib.Core.List.{append-nil, append_assoc}
use messageries.Base.{
  Bool, List, [], any, ap, arith, false, length, length-append, not, refl, sym, true, ◌++◌, ◌<◌,
  ◌∙◌, ◌∷◌, ◌≡◌,
}
use messageries.Metrics.{
  MetricDatum, MetricEvent, MetricsService, flush, flush_full, loaded, measured, meet, meet_all,
  push, timer,
}
use messageries.Metrics.Buffer.{measured_in, meet-enabled}

-- An end of `bootstrap` of the given kind.
abbrev pub loads : Bool → MetricEvent → Bool
loads true (loaded there) = there
loads false (loaded there) = not there
loads there event = false

-- A service that is switched on and has its client keeps fewer than twenty measurements, unless the
-- client is lost.
pub client_keeps_room :
    (es : List MetricEvent) (m : MetricsService)
    → m.enabled ≡ true
    → m.client ≡ true
    → length m.buffer < 20
    → any (loads false) es ≡ false
    → length (meet_all es m).buffer < 20
unfolding meet_all meet push flush_full flush
client_keeps_room [] m on there room kept = room
client_keeps_room (measured d ∷ es) m on there room kept =
    let longer = length-append m.buffer (d ∷ []) in
    client_keeps_room es (push d m) (meet-enabled (measured d) m ∙ on) (ground arith)
      (ground (arith, longer)) (ground arith)
client_keeps_room (timer ∷ es) m on there room kept =
    client_keeps_room es (flush m) (meet-enabled timer m ∙ on) (ground arith) (ground arith)
      (ground arith)
client_keeps_room (loaded found ∷ es) m on there room kept =
    client_keeps_room es (record m { client = found }) on (ground arith) room (ground arith)

flush-unloaded : (m : MetricsService) → m.client ≡ false → flush m ≡ m
unfolding flush
flush-unloaded m missing = ground arith

push-unloaded :
    (d : MetricDatum) (m : MetricsService)
    → m.enabled ≡ true
    → m.client ≡ false
    → push d m ≡ record m { buffer = m.buffer ++ d ∷ [] }
unfolding push flush_full
push-unloaded d m on missing =
    let stays = flush-unloaded (record m { buffer = m.buffer ++ d ∷ [] }) missing in ground arith

-- A service that is switched on and whose client could not be loaded keeps every measurement in its
-- buffer, and hands none on.
pub unloaded_grows :
    (es : List MetricEvent) (m : MetricsService)
    → m.enabled ≡ true
    → m.client ≡ false
    → any (loads true) es ≡ false
    → ((meet_all es m).buffer ≡ m.buffer ++ measured_in es)
      × ((meet_all es m).requests ≡ m.requests)
unfolding meet_all meet
unloaded_grows [] m on missing kept = (sym (append-nil m.buffer), refl)
unloaded_grows (measured d ∷ es) m on missing kept =
    let longer = record m { buffer = m.buffer ++ d ∷ [] } in
    let ended = ap (meet_all es) (push-unloaded d m on missing) in
    let (grown, same) = unloaded_grows es longer on missing (ground arith) in
    (
      ap (λ x. x.buffer) ended ∙ grown ∙ append_assoc m.buffer (d ∷ []) (measured_in es),
      ap (λ x. x.requests) ended ∙ same,
    )
unloaded_grows (timer ∷ es) m on missing kept =
    let ended = ap (meet_all es) (flush-unloaded m missing) in
    let (grown, same) = unloaded_grows es m on missing (ground arith) in
    (ap (λ x. x.buffer) ended ∙ grown, ap (λ x. x.requests) ended ∙ same)
unloaded_grows (loaded found ∷ es) m on missing kept =
    unloaded_grows es (record m { client = found }) on (ground arith) (ground arith)
