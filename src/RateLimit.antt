-- ===== src/RateLimit.antt =====
-- ws-gateway/src/rate-limit.ts and `rateLimitOk` of backend/src/modules/realtime/realtime.gateway.ts:
-- a Redis counter for each user and minute, which expires after 65 seconds.
pub mod Bounds
use messageries.Base.{Bool, Option, if◌then◌else◌, leb, ltb, none, some, ℕ, ◌&&◌, ◌+◌, ◌/◌, ◌==◌}

pub record Counter : Type 0 where
  pub count : ℕ
  pub expires : ℕ

-- The keys `ws_rl:<user>:<minute>`.
abbrev pub Counters : Type 0
Counters = ℕ → ℕ → Option Counter

abbrev pub minute_of : ℕ → ℕ
minute_of now = now / 60000

-- `INCR`, and `EXPIRE` where the counter is new.
unfoldable pub incremented : ℕ → Option Counter → Counter
incremented now none = record { count = 1; expires = now + 65000 }
incremented now (some c) =
    if ltb now c.expires
    then record { count = c.count + 1; expires = c.expires }
    else record { count = 1; expires = now + 65000 }

unfoldable pub check : ℕ → ℕ → ℕ → Counters → Bool × Counters
check limit now user cs =
    let c = incremented now (cs user (minute_of now)) in
    (leb c.count limit, λ u m. if u == user && m == minute_of now then some c else cs u m)
