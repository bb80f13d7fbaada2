-- ===== src/RateLimit/Bounds.antt =====
-- How many calls of a minute the limiter lets through.
use messageries.Base.{
  Bool-cases, List, Option, [], ap, arith, count, false, if◌then◌else◌, inl, inr, none, refl, some,
  some_inj, subst, suc, sym, zero, ℕ, ◌&&◌, ◌*◌, ◌+◌, ◌-◌, ◌<◌, ◌==◌, ◌∙◌, ◌∷◌, ◌≡◌, ◌≤◌,
}
use messageries.RateLimit.{Counter, Counters, check, incremented, minute_of}

-- The calls of a log, each with its time and its user, that were let through for one user in one
-- minute.
unfoldable pub accepted : ℕ → ℕ → ℕ → List (ℕ × ℕ) → Counters → ℕ
accepted limit user minute [] cs = 0
accepted limit user minute (call ∷ calls) cs =
    let r = check limit call.0 call.1 cs in
    let rest = accepted limit user minute calls r.1 in
    if call.1 == user && minute_of call.0 == minute && r.0 then suc rest else rest

-- After `n` calls of the user in the minute.
abbrev Counted : ℕ → ℕ → Option Counter → Type 0
Counted minute zero o = o ≡ none
Counted minute (suc n) o =
    (c : Counter) × (o ≡ some c) × (c.count ≡ suc n) × (minute * 60000 + 60000 ≤ c.expires)

incremented-Counted :
    (t minute n : ℕ) (o : Option Counter)
    → minute_of t ≡ minute
    → Counted minute n o
    → Counted minute (suc n) (some (incremented t o))
unfolding incremented
incremented-Counted t minute zero none e h =
    (record { count = 1; expires = t + 65000 }, refl, refl, omega arith)
incremented-Counted t minute zero (some c) e h = absurd (ground arith)
incremented-Counted t minute (suc n) none e (c, h, count, bound) = absurd (ground arith)
incremented-Counted t minute (suc n) (some d) e (c, h, count, bound) =
    let same = some_inj d c h in
    let alive : t < d.expires = omega (arith, ap (λ x. x.expires) same) in
    (
      record { count = d.count + 1; expires = d.expires },
      ground arith,
      ground (arith, ap (λ x. x.count) same),
      omega (arith, ap (λ x. x.expires) same),
    )

check-other :
    (limit t caller user minute : ℕ) (cs : Counters)
    → ((caller == user) && (minute_of t == minute)) ≡ false
    → (check limit t caller cs).1 user minute ≡ cs user minute
unfolding check
check-other limit t caller user minute cs h = ground arith

check-same :
    (limit t user : ℕ) (cs : Counters)
    → (check limit t user cs).1 user (minute_of t) ≡ some (incremented t (cs user (minute_of t)))
unfolding check
check-same limit t user cs = ground arith

accepted_le :
    (limit user minute n : ℕ) (calls : List (ℕ × ℕ)) (cs : Counters)
    → Counted minute n (cs user minute)
    → accepted limit user minute calls cs ≤ limit - n
unfolding accepted check
accepted_le limit user minute n [] cs h = omega arith
accepted_le limit user minute n (call ∷ calls) cs h =
    let next = (check limit call.0 call.1 cs).1 in
    elim (Bool-cases ((call.1 == user) && (minute_of call.0 == minute))) [
      | inr other ↦
          let kept = check-other limit call.0 call.1 user minute cs other in
          ground (
            arith,
            accepted_le limit user minute n calls next (subst (Counted minute n) (sym kept) h),
          )
      | inl hit ↦
          let user_same : call.1 ≡ user = ground arith in
          let minute_same : minute_of call.0 ≡ minute = ground arith in
          let o = cs user minute in
          let stepped = incremented-Counted call.0 minute n o minute_same h in
          let written : next user minute ≡ some (incremented call.0 o) = ground arith in
          let (c, is_c, count, bound) = stepped in
          let counted = ap (λ x. x.count) (some_inj _ _ is_c) ∙ count in
          let ih =
            accepted_le limit user minute (suc n) calls next
              (subst (Counted minute (suc n)) (sym written) stepped) in
          ground arith
    ]

-- Whatever calls come, in whatever order and of whatever users, at most `limit` of one user are let
-- through in one minute.
pub accepted-le-limit :
    (limit user minute : ℕ) (calls : List (ℕ × ℕ))
    → accepted limit user minute calls (λ u m. none) ≤ limit
accepted-le-limit limit user minute calls =
    omega (arith, accepted_le limit user minute 0 calls (λ u m. none) refl)
