-- ===== src/Engine/Sizes.antt =====
-- The sizes of the messages that the engine sends: all are far below the limit of link/wire.go.
use abletonlink_client_go.Base.{
  ℕ, true, ◌+◌, ◌%◌, ◌^◌, ◌≤◌, ◌<◌, ◌≡◌, refl, ap, arith, Option, none, some, List, [], ◌∷◌, ◌++◌,
  length, length-append, ◌==◌, Bool-cases, inl, inr,
}
use abletonlink_client_go.Float.{Float64}
use abletonlink_client_go.NodeId.{NodeId}
use abletonlink_client_go.Wire.{
  Entry, be_bytes, bounded_message, encode_entries, encode_discovery_message, discovery_ttl,
  discovery_group_id, discovery_magic, encode_link_message, link_magic,
}
use abletonlink_client_go.Wire.Bytes.{length-be_bytes}
use abletonlink_client_go.Wire.Entries.{entry_bytes, payload_bytes, encode_entries-append}
use abletonlink_client_go.PeerState.{
  PeerState, UdpAddr, to4, v4_entries, endpoint_entries, encode_peer_state_entries,
  encode_timeline_entry, encode_start_stop_entry,
}
use abletonlink_client_go.PeerState.RoundTrip.{to4-length}
use abletonlink_client_go.Engine.State.{World, Engine}
use abletonlink_client_go.Engine.Session.{current_peer_state, state_message}
use abletonlink_client_go.Base.Results.{is_some}

-- At most: a key and a size of four bytes each, and the value.
abbrev pub room_for : List Entry → ℕ
room_for [] = 0
room_for (e ∷ es) = 8 + length e.value + room_for es

length-entry_bytes : (e : Entry) → length (entry_bytes e) ≤ 8 + length e.value
length-entry_bytes e = elim (Bool-cases (length e.value == 0)) [
  | inl empty ↦ rw empty (omega arith)
  | inr full ↦ rw full (
      let size = be_bytes 4 (length e.value % 2 ^ 32) in
      omega (
        arith,
        length-append (be_bytes 4 e.key) (size ++ e.value),
        length-append size e.value,
        length-be_bytes 4 e.key,
        length-be_bytes 4 (length e.value % 2 ^ 32),
      ))
]

pub length-payload_bytes : (es : List Entry) → length (payload_bytes es) ≤ room_for es
length-payload_bytes [] = omega arith
length-payload_bytes (e ∷ es) = omega (
  arith,
  length-append (entry_bytes e) (payload_bytes es),
  length-entry_bytes e,
  length-payload_bytes es,
)

room_for_v4 :
    (o : Option (List ℕ)) (port : ℕ)
    → ((v4 : List ℕ) → o ≡ some v4 → length v4 ≡ 4)
    → room_for (v4_entries o port) ≤ 14
room_for_v4 none port four = omega arith
room_for_v4 (some v4) port four = omega (
  arith,
  four v4 refl,
  length-append v4 (be_bytes 2 (port % 2 ^ 16)),
  length-be_bytes 2 (port % 2 ^ 16),
)

room_for_endpoint : (ep : Option UdpAddr) → room_for (endpoint_entries ep) ≤ 14
room_for_endpoint none = omega arith
room_for_endpoint (some ep) = room_for_v4 (to4 ep.ip) ep.port (λ v4. to4-length ep.ip)

pub short_message : (buf : List ℕ) → length buf < 512 → bounded_message buf ≡ some buf
short_message buf h = ground arith

head_room :
    (head : List ℕ) (es : List Entry)
    → length head ≤ 20
    → room_for es ≤ 400
    → is_some (bounded_message (encode_entries head es)) ≡ true
head_room head es short room =
    let small : length (encode_entries head es) < 512 = omega (
      arith,
      ap length (encode_entries-append head es),
      length-append head (payload_bytes es),
      length-payload_bytes es,
    ) in
    rw (short_message (encode_entries head es) small) refl

pub is_some-encode_discovery_message :
    (msg_type ttl group : ℕ) (id : NodeId) (es : List Entry)
    → length id ≡ 8
    → room_for es ≤ 400
    → is_some (encode_discovery_message msg_type ttl group id es) ≡ true
unfolding encode_discovery_message be_bytes
is_some-encode_discovery_message msg_type ttl group id es bytes room =
    head_room (discovery_magic ++ (msg_type ∷ ttl ∷ (be_bytes 2 group ++ id))) es
      (omega (arith, bytes)) room

pub is_some-encode_link_message :
    (msg_type : ℕ) (es : List Entry)
    → room_for es ≤ 400
    → is_some (encode_link_message msg_type es) ≡ true
unfolding encode_link_message
is_some-encode_link_message msg_type es room =
    head_room (link_magic ++ msg_type ∷ []) es (omega arith) room

module _ {F : Type 0} ⦃fl : Float64 F⦄ where
  pub room_for_state :
      (s : PeerState F) → length s.session_id ≡ 8 → room_for (encode_peer_state_entries s) ≤ 95
  unfolding encode_peer_state_entries encode_timeline_entry encode_start_stop_entry be_bytes
  room_for_state s h = omega (arith, room_for_endpoint s.measurement_endpoint)

  pub is_some-state_message :
      (w : World) (msg_type : ℕ) (e : Engine F)
      → length e.node_id ≡ 8
      → length e.session_id ≡ 8
      → is_some (state_message w msg_type e) ≡ true
  unfolding state_message current_peer_state
  is_some-state_message w msg_type e own session =
      is_some-encode_discovery_message msg_type discovery_ttl discovery_group_id e.node_id
        (encode_peer_state_entries (current_peer_state w.network e)) own
        (omega (arith, room_for_state (current_peer_state w.network e) session))
