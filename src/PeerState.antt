-- ===== src/PeerState.antt =====
-- link/peerstate.go: the state that a peer advertises, and its payload entries. Of package net the
-- code uses the address record and To4.
pub mod RoundTrip
pub mod Sizes
use abletonlink_client_go.Base.{
  ℕ, ◌+◌, ◌%◌, ◌^◌, Bool, true, false, Option, none, some, List, [], ◌∷◌, ◌++◌, ◌&&◌, leb, ltb,
  ◌==◌, not, eqb, if◌then◌else◌, length, take, drop, get_or,
}
use abletonlink_client_go.Base.Int.{ℤ, pos, eqb_ℤ, leb_ℤ}
use abletonlink_client_go.Base.Int64.{to_word, of_word}
use abletonlink_client_go.Float.{Float64}
use abletonlink_client_go.Clock.{Micros}
use abletonlink_client_go.Beats.{Beats, beats, eq_beats}
use abletonlink_client_go.NodeId.{NodeId, zero_node_id, eq_node_id}
use abletonlink_client_go.Timeline.{Tempo, Timeline, tempo_from_bpm, micros_per_beat}
use abletonlink_client_go.Wire.{
  Entry, Result, ok, err, WireError, bad_start_stop_size, bad_timeline_size, bad_micros_per_beat,
  bad_session_size, bad_endpoint_size, be_bytes, be_value, parse_entries, key_timeline, key_session,
  key_start_stop, key_meep_v4, and_then,
}

pub record StartStopState : Type 0 where
  pub is_playing : Bool
  pub beat : Beats
  pub timestamp : Micros

abbrev pub zero_start_stop : StartStopState
zero_start_stop = record { is_playing = false; beat = beats (pos 0); timestamp = pos 0 }

unfoldable pub eq_start_stop : StartStopState → StartStopState → Bool
eq_start_stop s o =
    eqb s.is_playing o.is_playing && eq_beats s.beat o.beat && eqb_ℤ s.timestamp o.timestamp

unfoldable pub is_empty : StartStopState → Bool
unfolding eq_start_stop
is_empty s = eq_start_stop s zero_start_stop

-- *net.UDPAddr: a net.IP is a list of 4 or 16 bytes.
pub record UdpAddr : Type 0 where
  pub ip : List ℕ
  pub port : ℕ

abbrev v4_in_v6_prefix : List ℕ
v4_in_v6_prefix = 0 ∷ 0 ∷ 0 ∷ 0 ∷ 0 ∷ 0 ∷ 0 ∷ 0 ∷ 0 ∷ 0 ∷ 0xff ∷ 0xff ∷ []

-- net.IP.To4: nil if the address is no IPv4 address.
unfoldable pub to4 : List ℕ → Option (List ℕ)
to4 ip =
    if length ip == 4
    then some ip
    else if (length ip == 16) && eq_node_id (take 12 ip) v4_in_v6_prefix
    then some (drop 12 ip)
    else none

unfoldable pub encode_start_stop_entry : StartStopState → Entry
encode_start_stop_entry s = record {
  key = key_start_stop;
  value =
      (if s.is_playing then 1 else 0)
      ∷ (be_bytes 8 (to_word s.beat.micro) ++ be_bytes 8 (to_word s.timestamp));
}

unfoldable pub decode_start_stop_entry : List ℕ → Result StartStopState
decode_start_stop_entry value =
    if length value == 17
    then ok (record {
      is_playing = not (get_or value 0 0 == 0);
      beat = beats (of_word (be_value (take 8 (drop 1 value))));
      timestamp = of_word (be_value (take 8 (drop 9 value)));
    })
    else err bad_start_stop_size

pub record NodeState (F : Type 0) : Type 0 where
  pub node_id : NodeId
  pub session_id : NodeId
  pub timeline : Timeline F
  pub start_stop : StartStopState

pub record PeerState (F : Type 0) : Type 0 where
  pub node : NodeState F
  pub open node use *
  pub measurement_endpoint : Option UdpAddr

abbrev pub v4_entries : Option (List ℕ) → ℕ → List Entry
v4_entries none port = []
v4_entries (some v4) port =
    record { key = key_meep_v4; value = v4 ++ be_bytes 2 (port % 2 ^ 16) } ∷ []

abbrev pub endpoint_entries : Option UdpAddr → List Entry
endpoint_entries none = []
endpoint_entries (some ep) = v4_entries (to4 ep.ip) ep.port

module _ {F : Type 0} ⦃fl : Float64 F⦄ where
  unfoldable pub encode_timeline_entry : Timeline F → Entry
  encode_timeline_entry tl = record {
    key = key_timeline;
    value =
        be_bytes 8 (to_word (micros_per_beat tl.tempo))
        ++ (be_bytes 8 (to_word tl.beat_origin.micro) ++ be_bytes 8 (to_word tl.time_origin));
  }

  unfoldable pub decode_timeline_entry : List ℕ → Result (Timeline F)
  decode_timeline_entry value =
      let micros = of_word (be_value (take 8 value)) in
      if not (length value == 24)
      then err bad_timeline_size
      else if leb_ℤ micros (pos 0)
      then err bad_micros_per_beat
      else ok (record {
        tempo = tempo_from_bpm (fl.div (fl.decimal 60_000_000 0) (fl.of_int micros));
        beat_origin = beats (of_word (be_value (take 8 (drop 8 value))));
        time_origin = of_word (be_value (take 8 (drop 16 value)));
      })

  unfoldable pub encode_peer_state_entries : PeerState F → List Entry
  encode_peer_state_entries state =
      encode_timeline_entry state.timeline
      ∷ record { key = key_session; value = state.session_id }
      ∷ encode_start_stop_entry state.start_stop
      ∷ endpoint_entries state.measurement_endpoint

  -- Go's zero values.
  abbrev pub zero_timeline : Timeline F
  zero_timeline = record {
    tempo = record { bpm = fl.decimal 0 0 };
    beat_origin = beats (pos 0);
    time_origin = pos 0;
  }

  abbrev pub zero_peer_state : NodeId → PeerState F
  zero_peer_state id = record {
    node = record {
      node_id = id;
      session_id = zero_node_id;
      timeline = zero_timeline;
      start_stop = zero_start_stop;
    };
    measurement_endpoint = none;
  }

  -- The closure that decodePeerState hands to parseEntries.
  unfoldable pub peer_state_entry : PeerState F → ℕ → List ℕ → Result (PeerState F)
  peer_state_entry state key value =
      if key == key_timeline
      then and_then (decode_timeline_entry value)
          (λ tl. ok (record state { node = record state.node { timeline = tl } }))
      else if key == key_session
      then (if length value == 8
          then ok (record state { node = record state.node { session_id = value } })
          else err bad_session_size)
      else if key == key_start_stop
      then and_then (decode_start_stop_entry value)
          (λ ss. ok (record state { node = record state.node { start_stop = ss } }))
      else if key == key_meep_v4
      then (if length value == 6
          then ok (record state {
            measurement_endpoint =
                some (record { ip = take 4 value; port = be_value (drop 4 value) });
          })
          else err bad_endpoint_size)
      else ok state

  unfoldable pub decode_peer_state : NodeId → List ℕ → Result (PeerState F)
  decode_peer_state id payload = parse_entries peer_state_entry payload (zero_peer_state id)

-- net.IP.Equal: an IPv4 address equals its 16-byte form.
unfoldable pub ip_equal : List ℕ → List ℕ → Bool
ip_equal a b =
    if length a == length b
    then eq_node_id a b
    else if (length a == 4) && (length b == 16)
    then eq_node_id (take 12 b) v4_in_v6_prefix && eq_node_id a (drop 12 b)
    else if (length a == 16) && (length b == 4)
    then eq_node_id (take 12 a) v4_in_v6_prefix && eq_node_id (drop 12 a) b
    else false
