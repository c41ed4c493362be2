-- ===== src/Engine/Announcement.antt =====
-- The message in which the engine announces its state (link/engine.go), on its way to a peer.
use abletonlink_client_go.Base.{
  ℕ, ◌<◌, ◌≡◌, sym, ap, ◌∙◌, arith, some, List, [], ◌∷◌, ◌++◌, length, length-append,
}
use abletonlink_client_go.Float.{Float64}
use abletonlink_client_go.Wire.{
  ok, be_bytes, encode_entries, encode_discovery_message, parse_discovery_message, discovery_ttl,
  discovery_group_id, discovery_magic,
}
use abletonlink_client_go.Wire.Bytes.{length-be_bytes}
use abletonlink_client_go.Wire.Entries.{payload_bytes, encode_entries-append}
use abletonlink_client_go.Wire.Messages.{parse_discovery_message-encode}
use abletonlink_client_go.PeerState.{encode_peer_state_entries, decode_peer_state}
use abletonlink_client_go.PeerState.RoundTrip.{IsSendable, received, decode_peer_state-encode}
use abletonlink_client_go.Engine.State.{World, Engine}
use abletonlink_client_go.Engine.Sizes.{length-payload_bytes, room_for_state, short_message}
use abletonlink_client_go.Engine.Session.{current_peer_state, state_message}

module _ {F : Type 0} ⦃fl : Float64 F⦄ where
  -- An engine with an 8-byte identifier, whose state fits its machine types (IsSendable), can announce
  -- its state: the encoder does not panic, the message is below 512 bytes, and a peer that receives it
  -- parses the header with the identifier, and decodes the state with its tempo rounded to whole
  -- microseconds per beat.
  pub state_message-arrives :
      (w : World) (msg_type : ℕ) (e : Engine F)
      → length e.node_id ≡ 8
      → IsSendable (current_peer_state w.network e)
      → let state = current_peer_state w.network e in
        (msg : List ℕ) × (payload : List ℕ) × (state_message w msg_type e ≡ some msg)
        × (length msg < 512)
        × (parse_discovery_message msg
            ≡ some (
              record {
                msg_type = msg_type;
                ttl = discovery_ttl;
                group_id = discovery_group_id;
                node_id = e.node_id;
              },
              payload,
            ))
        × (decode_peer_state {F = F} e.node_id payload ≡ ok (received e.node_id state))
  unfolding state_message encode_discovery_message
  state_message-arrives w msg_type e id_bytes sendable =
      let state = current_peer_state w.network e in
      let entries = encode_peer_state_entries state in
      let head =
        discovery_magic
        ++ (msg_type ∷ discovery_ttl ∷ (be_bytes 2 discovery_group_id ++ e.node_id)) in
      let msg = encode_entries head entries in
      let small : length msg < 512 = omega (
        arith,
        ap length (encode_entries-append head entries),
        length-append head (payload_bytes entries),
        length-append (be_bytes 2 discovery_group_id) e.node_id,
        length-be_bytes 2 discovery_group_id,
        length-payload_bytes entries,
        room_for_state state sendable.session_bytes,
      ) in
      let sent = short_message msg small in
      let (_, parsed) =
        parse_discovery_message-encode msg_type discovery_ttl discovery_group_id e.node_id entries
          (omega arith) id_bytes sent in
      let decoded : decode_peer_state e.node_id (payload_bytes entries)
          ≡ ok (received e.node_id state) =
        ap (decode_peer_state e.node_id) (sym (encode_entries-append [] entries))
        ∙ decode_peer_state-encode e.node_id state sendable in
      (msg, payload_bytes entries, sent, small, parsed, decoded)
