-- ===== src/Metrics/Buffer.antt =====
-- What becomes of the measurements in the buffer of
-- backend/src/modules/observability/metrics.service.ts.
use mathlib.Core.List.{append-nil, append_assoc}
use messageries.Base.{
  All, All-append, Bool-cases, List, [], ap, arith, drop, inl, inr, leb, length, length-take-le,
  not, refl, subst, suc, sym, take, true, zero, ℕ, ◌++◌, ◌||◌, ◌∙◌, ◌∷◌, ◌≡◌, ◌≤◌,
}
use messageries.Metrics.{
  MetricDatum, MetricEvent, MetricsService, chunks, flush, flush_full, loaded, measured, meet,
  meet_all, push, timer,
}
use messageries.Scanner.{is_empty}

abbrev pub concat : List (List MetricDatum) → List MetricDatum
concat [] = []
concat (ds ∷ dss) = ds ++ concat dss

concat-append : (xss yss : List (List MetricDatum)) → concat (xss ++ yss) ≡ concat xss ++ concat yss
concat-append [] yss = refl
concat-append (xs ∷ xss) yss =
    ap (λ l. xs ++ l) (concat-append xss yss) ∙ sym (append_assoc xs (concat xss) (concat yss))

take-drop : (n : ℕ) (xs : List MetricDatum) → take n xs ++ drop n xs ≡ xs
take-drop zero xs = refl
take-drop (suc n) [] = refl
take-drop (suc n) (x ∷ xs) = ap (λ l. x ∷ l) (take-drop n xs)

length-drop_le : (n : ℕ) (xs : List MetricDatum) → length (drop n xs) ≤ length xs
length-drop_le zero xs = omega arith
length-drop_le (suc n) [] = omega arith
length-drop_le (suc n) (x ∷ xs) = omega (arith, length-drop_le n xs)

-- A request that CloudWatch takes.
abbrev pub IsRequest : List MetricDatum → Type 0
IsRequest ds = (1 ≤ length ds) × (length ds ≤ 20)

chunks-concat : (fuel : ℕ) (ds : List MetricDatum) → length ds ≤ fuel → concat (chunks fuel ds) ≡ ds
unfolding chunks
chunks-concat fuel [] h = refl
chunks-concat zero (d ∷ ds) h = absurd (omega arith)
chunks-concat (suc fuel) (d ∷ ds) h =
    let short : length (drop 19 ds) ≤ fuel = omega (arith, length-drop_le 19 ds) in
    ap (λ l. d ∷ (take 19 ds ++ l)) (chunks-concat fuel (drop 19 ds) short)
    ∙ ap (λ l. d ∷ l) (take-drop 19 ds)

chunks-All : (fuel : ℕ) (ds : List MetricDatum) → All IsRequest (chunks fuel ds)
unfolding chunks
chunks-All fuel [] = tt
chunks-All zero (d ∷ ds) = tt
chunks-All (suc fuel) (d ∷ ds) =
    ((omega arith, length-take-le 20 (d ∷ ds)), chunks-All fuel (drop 19 ds))

-- The measurements that the service knows of, oldest first.
abbrev pub accounted : MetricsService → List MetricDatum
accounted m = concat m.requests ++ m.buffer

flush-accounted : (m : MetricsService) → accounted (flush m) ≡ accounted m
unfolding flush
flush-accounted m =
    let whole = chunks-concat (length m.buffer) m.buffer (omega arith) in
    let joined : concat (m.requests ++ chunks (length m.buffer) m.buffer) ++ [] ≡ accounted m =
      append-nil _
      ∙ concat-append m.requests (chunks (length m.buffer) m.buffer)
      ∙ ap (λ l. concat m.requests ++ l) whole in
    ground (arith, joined)

flush_full-accounted : (m : MetricsService) → accounted (flush_full m) ≡ accounted m
unfolding flush_full
flush_full-accounted m = ground (arith, flush-accounted m)

push-accounted :
    (d : MetricDatum) (m : MetricsService)
    → m.enabled ≡ true
    → accounted (push d m) ≡ accounted m ++ d ∷ []
unfolding push
push-accounted d m on =
    let longer = record m { buffer = m.buffer ++ d ∷ [] } in
    let ended : push d m ≡ flush_full longer = ground (arith, on) in
    ap accounted ended
    ∙ flush_full-accounted longer
    ∙ sym (append_assoc (concat m.requests) m.buffer (d ∷ []))

-- What was measured, in order.
abbrev pub measured_in : List MetricEvent → List MetricDatum
measured_in [] = []
measured_in (measured d ∷ es) = d ∷ measured_in es
measured_in (timer ∷ es) = measured_in es
measured_in (loaded there ∷ es) = measured_in es

-- Every request has a size that CloudWatch takes.
abbrev AreSized : MetricsService → Type 0
AreSized m = All IsRequest m.requests

flush-AreSized : (m : MetricsService) → AreSized m → AreSized (flush m)
unfolding flush
flush-AreSized m sized =
    let more =
      All-append IsRequest m.requests (chunks (length m.buffer) m.buffer) sized
        (chunks-All (length m.buffer) m.buffer) in
    elim (Bool-cases (not m.enabled || not m.client || is_empty m.buffer)) [
      | inl stays ↦ rw stays sized
      | inr goes ↦ rw goes more
    ]

flush_full-AreSized : (m : MetricsService) → AreSized m → AreSized (flush_full m)
unfolding flush_full
flush_full-AreSized m sized = elim (Bool-cases (leb 20 (length m.buffer))) [
  | inl full ↦ rw full (flush-AreSized m sized)
  | inr room ↦ rw room sized
]

push-AreSized : (d : MetricDatum) (m : MetricsService) → AreSized m → AreSized (push d m)
unfolding push
push-AreSized d m sized = elim (Bool-cases m.enabled) [
  | inl on ↦
      let longer = record m { buffer = m.buffer ++ d ∷ [] } in
      let ended : push d m ≡ flush_full longer = ground (arith, on) in
      subst AreSized (sym ended) (flush_full-AreSized longer sized)
  | inr off ↦ let ended : push d m ≡ m = ground (arith, off) in subst AreSized (sym ended) sized
]

meet-AreSized : (e : MetricEvent) (m : MetricsService) → AreSized m → AreSized (meet e m)
unfolding meet
meet-AreSized (measured d) m sized = push-AreSized d m sized
meet-AreSized timer m sized = flush-AreSized m sized
meet-AreSized (loaded there) m sized = sized

pub meet-enabled : (e : MetricEvent) (m : MetricsService) → (meet e m).enabled ≡ m.enabled
unfolding meet push flush_full flush
meet-enabled (measured d) m = ground arith
meet-enabled timer m = ground arith
meet-enabled (loaded there) m = refl

-- While the service is switched on no measurement is lost or repeated, whatever comes in between and
-- whether or not there is a client: the requests and the buffer, one after the other, are what was
-- measured, in order; and every request holds one to twenty measurements.
pub measurements_accounted :
    (es : List MetricEvent) (m : MetricsService)
    → m.enabled ≡ true
    → All IsRequest m.requests
    → (accounted (meet_all es m) ≡ accounted m ++ measured_in es)
      × All IsRequest (meet_all es m).requests
unfolding meet_all meet
measurements_accounted [] m on sized = (sym (append-nil (accounted m)), sized)
measurements_accounted (measured d ∷ es) m on sized =
    let (rest, sizes) =
      measurements_accounted es (push d m) (meet-enabled (measured d) m ∙ on)
        (push-AreSized d m sized) in
    (
      rest
          ∙ ap (λ l. l ++ measured_in es) (push-accounted d m on)
          ∙ append_assoc (accounted m) (d ∷ []) (measured_in es),
      sizes,
    )
measurements_accounted (timer ∷ es) m on sized =
    let (rest, sizes) =
      measurements_accounted es (flush m) (meet-enabled timer m ∙ on) (flush-AreSized m sized) in
    (rest ∙ ap (λ l. l ++ measured_in es) (flush-accounted m), sizes)
measurements_accounted (loaded there ∷ es) m on sized =
    measurements_accounted es (record m { client = there }) on sized
