-- ===== src/WsGateway/Membership.antt =====
-- The rooms of ws-gateway/src/server.ts as sets of sockets.
use messageries.Base.{
  ==_refl, Bool, Bool-cases, List, [], any, ap, arith, count, false, filter, inl, inr, map, not,
  refl, subst, true, ℕ, ◌==◌, ◌∷◌, ◌≡◌, ◌≤◌,
}
use messageries.Base.Text.{text_eq_refl, text_eq_sound}
use messageries.WsGateway.{
  ClientEvent, Room, WsServer, conv_room, is_member, join, room_eq, user_room,
}

-- The events that a socket is sent.
abbrev pub deliveries_to : ℕ → List (ℕ × ClientEvent) → ℕ
deliveries_to socket ds = count (λ d. d.0 == socket) ds

-- No socket is in a room twice.
abbrev pub IsSingle : WsServer → Type 0
IsSingle g = (socket : ℕ) (room : Room) → count (is_member socket room) g.rooms ≤ 1

pub room_eq_sound : (r s : Room) → room_eq r s ≡ true → r ≡ s
room_eq_sound (user_room u) (user_room v) h = ground arith
room_eq_sound (user_room u) (conv_room d) h = ground arith
room_eq_sound (conv_room c) (user_room v) h = ground arith
room_eq_sound (conv_room c) (conv_room d) h = ap conv_room (text_eq_sound c d h)

pub room_eq_refl : (r : Room) → room_eq r r ≡ true
room_eq_refl (user_room u) = ==_refl u
room_eq_refl (conv_room c) = text_eq_refl c

count_none : (p : ℕ × Room → Bool) (ms : List (ℕ × Room)) → any p ms ≡ false → count p ms ≡ 0
count_none p [] h = refl
count_none p (m ∷ ms) h = ground (arith, count_none p ms)

pub count_some : (p : ℕ × Room → Bool) (ms : List (ℕ × Room)) → any p ms ≡ true → 1 ≤ count p ms
count_some p [] h = ground arith
count_some p (m ∷ ms) h = ground (arith, count_some p ms)

pub count-filter_le :
    (p q : ℕ × Room → Bool) (ms : List (ℕ × Room)) → count p (filter q ms) ≤ count p ms
count-filter_le p q [] = omega arith
count-filter_le p q (m ∷ ms) = ground (arith, count-filter_le p q ms)

pub count-filter-not :
    (p : ℕ × Room → Bool) (ms : List (ℕ × Room)) → count p (filter (λ m. not (p m)) ms) ≡ 0
count-filter-not p [] = refl
count-filter-not p (m ∷ ms) = ground (arith, count-filter-not p ms)

-- A socket is sent an event once for each time that it is in the room.
pub deliveries-emit_to :
    (socket : ℕ) (room : Room) (event : ClientEvent) (ms : List (ℕ × Room))
    → deliveries_to socket (map (λ m. (m.0, event)) (filter (λ m. room_eq m.1 room) ms))
      ≡ count (is_member socket room) ms
deliveries-emit_to socket room event [] = refl
deliveries-emit_to socket room event (m ∷ ms) =
    ground (arith, deliveries-emit_to socket room event ms)

pub join-IsSingle :
    (socket : ℕ) (room : Room) (g : WsServer) → IsSingle g → IsSingle (join socket room g)
unfolding join
join-IsSingle socket room g h s r = elim (Bool-cases (any (is_member socket room) g.rooms)) [
  | inl t ↦ rw t (h s r)
  | inr f ↦ rw f (elim (Bool-cases (is_member s r (socket, room))) [
    | inr other ↦ rw other (h s r)
    | inl same ↦
        let same_socket : socket ≡ s = ground arith in
        let same_room : room ≡ r = room_eq_sound room r (ground arith) in
        let absent : count (is_member s r) g.rooms ≡ 0 =
          subst (λ x. count (is_member x r) g.rooms ≡ 0) same_socket
            (subst (λ x. count (is_member socket x) g.rooms ≡ 0) same_room
              (count_none (is_member socket room) g.rooms f)) in
        ground arith
  ])
]
