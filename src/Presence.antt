-- ===== src/Presence.antt =====
-- backend/src/modules/presence/presence.service.ts: for each user a Redis set of sockets that expires
-- unless it is renewed. Redis drops a set that is empty and a key whose time has come.
pub mod Online
use messageries.Base.{
  Bool, List, Option, [], any, filter, if◌then◌else◌, is_some, ltb, none, not, some, ℕ, ◌&&◌, ◌+◌,
  ◌==◌, ◌∷◌,
}
use messageries.Scanner.{is_empty}

pub record PresenceKey : Type 0 where
  pub members : List ℕ
  pub expires : ℕ

-- The keys `presence:user:<id>`.
abbrev pub Presence : Type 0
Presence = ℕ → Option PresenceKey

abbrev pub ttl : ℕ
ttl = 60000

-- What Redis finds under the key at a time.
abbrev pub live_key : ℕ → Option PresenceKey → Option PresenceKey
live_key now none = none
live_key now (some k) = if ltb now k.expires then some k else none

abbrev pub members_of : Option PresenceKey → List ℕ
members_of none = []
members_of (some k) = k.members

abbrev pub set_at : ℕ → Option PresenceKey → Presence → Presence
set_at user k p = λ u. if u == user then k else p u

-- `SADD` and `EXPIRE`
unfoldable pub connect : ℕ → ℕ → ℕ → Presence → Presence
connect now user socket p =
    let old = members_of (live_key now (p user)) in
    set_at user
      (some (record {
        members = if any (λ m. m == socket) old then old else socket ∷ old;
        expires = now + ttl;
      }))
      p

-- `EXPIRE` does nothing where there is no key.
unfoldable pub heartbeat : ℕ → ℕ → Presence → Presence
heartbeat now user p = elim (live_key now (p user)) [
  | none ↦ p
  | some k ↦ set_at user (some (record { members = k.members; expires = now + ttl })) p
]

abbrev pub without : ℕ → List ℕ → List ℕ
without socket ms = filter (λ m. not (m == socket)) ms

-- `SREM`, `SCARD`, and `DEL` where no member remains.
unfoldable pub disconnect : ℕ → ℕ → ℕ → Presence → Presence
disconnect now user socket p = elim (live_key now (p user)) [
  | none ↦ set_at user none p
  | some k ↦
      set_at user
        (if is_empty (without socket k.members)
          then none
          else some (record { members = without socket k.members; expires = k.expires }))
        p
]

-- `EXISTS`
unfoldable pub is_online : ℕ → ℕ → Presence → Bool
is_online now user p = is_some (live_key now (p user))

-- The record that is returned, read at a user: a user who was not asked for is not in it.
unfoldable pub are_online : ℕ → List ℕ → Presence → ℕ → Bool
are_online now users p u = any (λ x. x == u) users && is_online now u p
