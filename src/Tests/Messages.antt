-- ===== src/Tests/Messages.antt =====
-- Runs of the codecs.
use abletonlink_client_go.Base.{ℕ, ◌<◌, ◌≡◌, ◌≢◌, refl, ◌++◌, arith, some, List, [], ◌∷◌, length}
use abletonlink_client_go.Exact.{exact_float}
use abletonlink_client_go.Wire.{
  Entry, Result, ok, stuck, encode_entries, parse_entries, encode_discovery_message,
  parse_discovery_message, encode_link_message, parse_link_message, be_bytes,
}
use abletonlink_client_go.Wire.Entries.{
  handle_all, payload_bytes, parse_entries-ne-stuck, parse_entries-encode_entries,
}
use abletonlink_client_go.Wire.Messages.{parse_discovery_message-encode, parse_link_message-encode}
use abletonlink_client_go.Base.Int64.{wrap}
use abletonlink_client_go.Clock.{llround}
use abletonlink_client_go.Timeline.{micros_per_beat}
use abletonlink_client_go.PeerState.{decode_peer_state, encode_peer_state_entries}
use abletonlink_client_go.PeerState.RoundTrip.{received, IsSendable, decode_peer_state-encode}
use abletonlink_client_go.Tests.Values.{id_a, id_b, peer_b}

-- A handler that keeps the entries.
abbrev collect : List Entry → ℕ → List ℕ → Result (List Entry)
collect es key value = ok (record { key = key; value = value } ∷ es)

parse_entries-ne-stuck_example :
    parse_entries collect (0 ∷ 0 ∷ 0 ∷ 1 ∷ 0 ∷ 0 ∷ 0 ∷ 9 ∷ 5 ∷ []) [] ≢ stuck
parse_entries-ne-stuck_example =
    parse_entries-ne-stuck collect (0 ∷ 0 ∷ 0 ∷ 1 ∷ 0 ∷ 0 ∷ 0 ∷ 9 ∷ 5 ∷ []) [] λ t k v. cc

abbrev two_entries : List Entry
two_entries = record { key = 3; value = 7 ∷ 8 ∷ [] } ∷ record { key = 4; value = 9 ∷ [] } ∷ []

parse_entries-encode_entries_example :
    parse_entries collect (encode_entries [] two_entries) [] ≡ handle_all collect two_entries []
parse_entries-encode_entries_example =
    parse_entries-encode_entries collect two_entries []
      ((omega arith, omega arith), ((omega arith, omega arith), tt))

abbrev discovery_header : List ℕ
discovery_header = 95 ∷ 97 ∷ 115 ∷ 100 ∷ 112 ∷ 95 ∷ 118 ∷ 1 ∷ 1 ∷ 5 ∷ 0 ∷ 0 ∷ id_a

alive_bytes :
    encode_discovery_message 1 5 0 id_a two_entries
    ≡ some (discovery_header ++ payload_bytes two_entries)
unfolding encode_discovery_message encode_entries be_bytes
alive_bytes = refl

parse_discovery_message-encode_example :
    (length (discovery_header ++ payload_bytes two_entries) < 512)
    × (parse_discovery_message (discovery_header ++ payload_bytes two_entries)
        ≡ some (
          record { msg_type = 1; ttl = 5; group_id = 0; node_id = id_a },
          payload_bytes two_entries,
        ))
parse_discovery_message-encode_example =
    parse_discovery_message-encode 1 5 0 id_a two_entries (omega arith) refl alive_bytes

link_bytes :
    encode_link_message 1 two_entries
    ≡ some (95 ∷ 108 ∷ 105 ∷ 110 ∷ 107 ∷ 95 ∷ 118 ∷ 1 ∷ 1 ∷ payload_bytes two_entries)
unfolding encode_link_message encode_entries be_bytes
link_bytes = refl

parse_link_message-encode_example :
    (length (95 ∷ 108 ∷ 105 ∷ 110 ∷ 107 ∷ 95 ∷ 118 ∷ 1 ∷ 1 ∷ payload_bytes two_entries) < 512)
    × (parse_link_message
          (95 ∷ 108 ∷ 105 ∷ 110 ∷ 107 ∷ 95 ∷ 118 ∷ 1 ∷ 1 ∷ payload_bytes two_entries)
        ≡ some (1, payload_bytes two_entries))
parse_link_message-encode_example = parse_link_message-encode 1 two_entries link_bytes

peer_b-IsSendable : IsSendable peer_b
unfolding micros_per_beat llround wrap
peer_b-IsSendable = record {
  session_bytes = refl;
  micros = 499_999;
  tempo_eq = refl;
  tempo_fits = omega arith;
  beat_fits = (omega arith, omega arith);
  time_fits = (omega arith, omega arith);
  start_beat_fits = (omega arith, omega arith);
  start_time_fits = (omega arith, omega arith);
}

decode_peer_state-encode_example :
    decode_peer_state id_b (encode_entries [] (encode_peer_state_entries peer_b))
    ≡ ok (received id_b peer_b)
decode_peer_state-encode_example = decode_peer_state-encode id_b peer_b peer_b-IsSendable
