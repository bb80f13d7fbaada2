-- ===== src/WsGateway/Fanout.antt =====
-- What the events of the stream reach by way of the rooms of ws-gateway/src/server.ts.
use messageries.Base.{[], false, filter, length, not, some, true, ℕ, ◌∙◌, ◌≡◌, ◌≤◌}
use messageries.Auth.{Jwt, JwtPayload}
use messageries.RateLimit.{check}
use messageries.Scanner.{is_empty}
use messageries.WsGateway.{
  ClientEvent, MessageCreatedEvent, WsServer, conv_room, conversation_join, conversation_leave,
  created_for_client, default_limit, is_member, max_id_length, message_created, on_event,
}
use messageries.WsGateway.Events.{Reach, Reach-IsSingle, conversation_join-IsSingle}
use messageries.WsGateway.Membership.{count-filter-not, deliveries-emit_to, deliveries_to}
use messageries.WsGateway.Staying.{Stays, Stays-IsSingle, inside_once, joined-IsIn, Stays-IsIn}

module _ (jwt : Jwt) where
  -- In every state that the server can reach from one without rooms, a socket may join a
  -- conversation by an identifier of 1 to 64 units, within its limit. From then on, whatever the
  -- sockets do, until it leaves that conversation or is closed, it is sent each message of it
  -- exactly once, whoever its user is and whoever the recipients are; and once it has left, it is
  -- not sent the next one.
  pub joined_hears :
      {g h k : WsServer} (now socket : ℕ) (user : JwtPayload) (e : MessageCreatedEvent)
      → g.rooms ≡ []
      → Reach jwt g h
      → (check default_limit now user.sub h.counters).0 ≡ true
      → length e.conversation_id ≤ max_id_length
      → is_empty e.conversation_id ≡ false
      → Stays jwt socket e.conversation_id
          (conversation_join now socket user (some e.conversation_id) h).1
          k
      → let left = (conversation_leave socket (some e.conversation_id) k).1 in
        (deliveries_to socket (on_event (message_created e) k) ≡ 1)
        × (deliveries_to socket (on_event (message_created e) left) ≡ 0)
  unfolding on_event conversation_leave
  joined_hears {g} {h} {k} now socket user e empty r allowed short real way =
      let room = conv_room e.conversation_id in
      let body = some e.conversation_id in
      let event : ClientEvent =
        created_for_client e.message_id e.conversation_id e.sender_id e.sequence e.body e.created_at
          e.moderation_flags in
      let at_join =
        conversation_join-IsSingle now socket user body h (Reach-IsSingle jwt empty r) in
      let entered = joined-IsIn now socket user e.conversation_id h allowed short in
      let once =
        inside_once socket room k (Stays-IsSingle jwt socket e.conversation_id way at_join)
          (Stays-IsIn jwt socket e.conversation_id way entered) in
      rw real (
        deliveries-emit_to socket room event k.rooms ∙ once,
        deliveries-emit_to socket room event (filter (λ m. not (is_member socket room m)) k.rooms)
            ∙ count-filter-not (is_member socket room) k.rooms,
      )
