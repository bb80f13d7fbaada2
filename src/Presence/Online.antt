-- ===== src/Presence/Online.antt =====
-- Who is online, by presence.service.ts.
use messageries.Base.{
  ==_refl, List, [], any, arith, false, if◌then◌else◌, ltb, none, refl, some, true, ℕ, ◌+◌, ◌<◌,
  ◌==◌, ◌∷◌, ◌≡◌, ◌≢◌, ◌≤◌,
}
use messageries.Presence.{
  Presence, PresenceKey, connect, disconnect, heartbeat, is_online, live_key, members_of, ttl,
  without,
}
use messageries.Scanner.{is_empty}

connected :
    (t user socket : ℕ) (p : Presence)
    → connect t user socket p user ≡ (
        let old = members_of (live_key t (p user)) in
        some (record {
          members = if any (λ m. m == socket) old then old else socket ∷ old;
          expires = t + ttl;
        }))
unfolding connect
connected t user socket p = rw (==_refl user) refl

disconnected :
    (t user socket : ℕ) (p : Presence) (k : PresenceKey)
    → p user ≡ some k
    → t < k.expires
    → disconnect t user socket p user ≡ (
        if is_empty (without socket k.members)
        then none
        else some (record { members = without socket k.members; expires = k.expires }))
unfolding disconnect
disconnected t user socket p k h alive = ground arith

-- Closing the last socket of a user, in time or late, leaves no key.
closed :
    (t now user b expires : ℕ) (p : Presence)
    → p user ≡ some (record { members = b ∷ []; expires = expires })
    → is_online now user (disconnect t user b p) ≡ false
unfolding disconnect is_online
closed t now user b expires p h = ground arith

-- Of two sockets of a user, closing the one leaves the user online until the time of the other is
-- over, and closing both does not.
pub two_sockets :
    (t1 t2 t3 t4 now user a b : ℕ) (p : Presence)
    → a ≢ b
    → t1 ≤ t2
    → t2 ≤ t3
    → t3 < t2 + ttl
    → now < t2 + ttl
    → p user ≡ none
    → let both = connect t2 user b (connect t1 user a p) in
      let one = disconnect t3 user a both in
      (is_online now user one ≡ true) × (is_online now user (disconnect t4 user b one) ≡ false)
unfolding is_online
two_sockets t1 t2 t3 t4 now user a b p distinct h12 h23 h3 hn empty =
    let q1 = connect t1 user a p in
    let q2 = connect t2 user b q1 in
    let q3 = disconnect t3 user a q2 in
    let first : q1 user ≡ some (record { members = a ∷ []; expires = t1 + ttl }) =
      ground (arith, connected t1 user a p) in
    let both : q2 user
        ≡ some (record {
          members = if ltb t2 (t1 + ttl) then b ∷ a ∷ [] else b ∷ [];
          expires = t2 + ttl;
        }) =
      ground (arith, connected t2 user b q1) in
    let one : q3 user ≡ some (record { members = b ∷ []; expires = t2 + ttl }) =
      ground (arith, disconnected t3 user a q2 _ both (omega arith)) in
    (ground arith, closed t4 now user b (t2 + ttl) q3 one)

abbrev pub beats : ℕ → List ℕ → Presence → Presence
beats user [] p = p
beats user (t ∷ ts) p = beats user ts (heartbeat t user p)

-- Each beat comes less than the time to live after the one before.
abbrev pub Regular : ℕ → List ℕ → Type 0
Regular last [] = Unit
Regular last (t ∷ ts) = (last ≤ t) × (t < last + ttl) × Regular t ts

abbrev pub last_beat : ℕ → List ℕ → ℕ
last_beat last [] = last
last_beat last (t ∷ ts) = last_beat t ts

beats-online :
    (user last : ℕ) (ts : List ℕ) (now : ℕ) (p : Presence) (k : PresenceKey)
    → p user ≡ some k
    → k.expires ≡ last + ttl
    → Regular last ts
    → now < last_beat last ts + ttl
    → is_online now user (beats user ts p) ≡ true
unfolding is_online heartbeat
beats-online user last [] now p k h e r hn = ground arith
beats-online user last (t ∷ ts) now p k h e (r1, r2, rs) hn =
    let renewed : heartbeat t user p user
        ≡ some (record { members = k.members; expires = t + ttl }) =
      ground arith in
    beats-online user t ts now (heartbeat t user p)
      (record { members = k.members; expires = t + ttl }) renewed refl rs hn

-- A user whose beats are regular stays online from the connection to the time to live after the
-- last beat.
pub heartbeats-online :
    (start user socket now : ℕ) (ts : List ℕ) (p : Presence)
    → Regular start ts
    → now < last_beat start ts + ttl
    → is_online now user (beats user ts (connect start user socket p)) ≡ true
heartbeats-online start user socket now ts p r hn =
    beats-online user start ts now (connect start user socket p) _ (connected start user socket p)
      refl r hn
