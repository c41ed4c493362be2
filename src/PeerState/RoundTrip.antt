-- ===== src/PeerState/RoundTrip.antt =====
-- The payload of link/peerstate.go, written and read back.
use abletonlink_client_go.Base.{
  ℕ, zero, suc, ◌-◌, ◌%◌, ◌^◌, ◌<◌, ◌≡◌, refl, ap, ◌∙◌, arith, List, [], ◌∷◌, ◌++◌, Option, some,
  none, true, false, Bool, length, drop, length-append, take_of_length, drop_of_length, not, All,
  ◌==◌, if◌then◌else◌,
}
use abletonlink_client_go.Base.Int.{ℤ, pos}
use abletonlink_client_go.Base.Int64.{IsI64, to_word, of_word, to_word-lt, of_word-to_word}
use abletonlink_client_go.Float.{Float64}
use abletonlink_client_go.NodeId.{NodeId}
use abletonlink_client_go.Timeline.{Timeline, tempo_from_bpm, micros_per_beat}
use abletonlink_client_go.Wire.{
  Entry, ok, be_bytes, be_value, encode_entries, key_timeline, key_session, key_start_stop,
  key_meep_v4,
}
use abletonlink_client_go.Wire.Bytes.{length-be_bytes, be_value-be_bytes}
use abletonlink_client_go.Wire.Entries.{parse_entries-encode_entries, handle_all, IsEncodable}
use abletonlink_client_go.PeerState.{
  StartStopState, UdpAddr, PeerState, to4, encode_start_stop_entry, decode_start_stop_entry,
  encode_timeline_entry, decode_timeline_entry, encode_peer_state_entries, v4_entries,
  endpoint_entries, peer_state_entry, decode_peer_state, zero_peer_state,
}

abbrev word : ℤ → List ℕ
word z = be_bytes 8 (to_word z)

word_back : (z : ℤ) → IsI64 z → of_word (be_value (word z)) ≡ z
word_back z h = ap of_word (be_value-be_bytes 8 (to_word z) (to_word-lt z)) ∙ of_word-to_word z h

flag_back : (b : Bool) → not ((if b then 1 else 0) == 0) ≡ b
flag_back true = refl
flag_back false = refl

decode_start_stop-encode :
    (s : StartStopState)
    → IsI64 s.beat.micro
    → IsI64 s.timestamp
    → decode_start_stop_entry (encode_start_stop_entry s).value ≡ ok s
unfolding decode_start_stop_entry encode_start_stop_entry be_bytes
decode_start_stop-encode s hb ht =
    rw (word_back s.beat.micro hb, word_back s.timestamp ht, flag_back s.is_playing)

abbrev pub v4_endpoint : Option (List ℕ) → ℕ → Option UdpAddr
v4_endpoint none port = none
v4_endpoint (some v4) port = some (record { ip = v4; port = port % 2 ^ 16 })

-- What a peer keeps of an advertised endpoint: an IPv4 address and a 16-bit port.
abbrev pub advertised : Option UdpAddr → Option UdpAddr
advertised none = none
advertised (some ep) = v4_endpoint (to4 ep.ip) ep.port

length-drop : (n : ℕ) (xs : List ℕ) → length (drop n xs) ≡ length xs - n
length-drop zero xs = omega arith
length-drop (suc n) [] = omega arith
length-drop (suc n) (x ∷ xs) = omega (arith, length-drop n xs)

pub to4-length : (ip : List ℕ) {v4 : List ℕ} → to4 ip ≡ some v4 → length v4 ≡ 4
unfolding to4
to4-length ip e = ground (arith, length-drop 12 ip)

six_bytes : (v4 : List ℕ) (p : ℕ) → length v4 ≡ 4 → length (v4 ++ be_bytes 2 p) ≡ 6
six_bytes v4 p h = omega (arith, length-append v4 (be_bytes 2 p), length-be_bytes 2 p)

full_start_stop : (ss : StartStopState) → (length (encode_start_stop_entry ss).value == 0) ≡ false
unfolding encode_start_stop_entry be_bytes
full_start_stop ss = ground arith

v4_entries-IsEncodable :
    (o : Option (List ℕ)) (p : ℕ)
    → ((v4 : List ℕ) → o ≡ some v4 → length v4 ≡ 4)
    → All IsEncodable (v4_entries o p)
v4_entries-IsEncodable none p four = tt
v4_entries-IsEncodable (some v4) p four =
    ((omega arith, rw (six_bytes v4 (p % 2 ^ 16) (four v4 refl)) (omega arith)), tt)

endpoint_entries-IsEncodable : (ep : Option UdpAddr) → All IsEncodable (endpoint_entries ep)
endpoint_entries-IsEncodable none = tt
endpoint_entries-IsEncodable (some ep) =
    v4_entries-IsEncodable (to4 ep.ip) ep.port (λ v4. to4-length ep.ip)

module _ {F : Type 0} ⦃fl : Float64 F⦄ where
  -- The timeline that a peer decodes: the tempo is a whole number of microseconds per beat.
  abbrev pub on_the_wire : Timeline F → Timeline F
  on_the_wire tl = record tl {
    tempo = record {
      bpm = fl.div (fl.decimal 60_000_000 0) (fl.of_int (micros_per_beat tl.tempo));
    };
  }

  decode_timeline-encode :
      (tl : Timeline F) (n : ℕ)
      → micros_per_beat tl.tempo ≡ pos (suc n)
      → suc n < 2 ^ 63
      → IsI64 tl.beat_origin.micro
      → IsI64 tl.time_origin
      → decode_timeline_entry (encode_timeline_entry tl).value ≡ ok (on_the_wire tl)
  unfolding decode_timeline_entry encode_timeline_entry be_bytes tempo_from_bpm
  decode_timeline-encode tl n e hn hb ht =
      rw
        (
          e,
          word_back (pos (suc n)) (hn, omega arith),
          word_back tl.beat_origin.micro hb,
          word_back tl.time_origin ht,
        )
        (ground arith)

  abbrev pub received : NodeId → PeerState F → PeerState F
  received id s = record {
    node = record {
      node_id = id;
      session_id = s.session_id;
      timeline = on_the_wire s.timeline;
      start_stop = s.start_stop;
    };
    measurement_endpoint = advertised s.measurement_endpoint;
  }

  -- The values fit their machine types, and the tempo is at least one microsecond per beat.
  pub record IsSendable (s : PeerState F) : Type 0 where
    pub session_bytes : length s.session_id ≡ 8
    pub micros : ℕ
    pub tempo_eq : micros_per_beat s.timeline.tempo ≡ pos (suc micros)
    pub tempo_fits : suc micros < 2 ^ 63
    pub beat_fits : IsI64 s.timeline.beat_origin.micro
    pub time_fits : IsI64 s.timeline.time_origin
    pub start_beat_fits : IsI64 s.start_stop.beat.micro
    pub start_time_fits : IsI64 s.start_stop.timestamp

  handle_step :
      (e : Entry) (es : List Entry) (s t : PeerState F)
      → (length e.value == 0) ≡ false
      → peer_state_entry s e.key e.value ≡ ok t
      → handle_all peer_state_entry (e ∷ es) s ≡ handle_all peer_state_entry es t
  handle_step e es s t full h = rw (full, h)

  full_timeline : (tl : Timeline F) → (length (encode_timeline_entry tl).value == 0) ≡ false
  unfolding encode_timeline_entry be_bytes
  full_timeline tl = ground arith

  timeline_step :
      (s : PeerState F) (tl : Timeline F) (n : ℕ)
      → micros_per_beat tl.tempo ≡ pos (suc n)
      → suc n < 2 ^ 63
      → IsI64 tl.beat_origin.micro
      → IsI64 tl.time_origin
      → peer_state_entry s key_timeline (encode_timeline_entry tl).value
        ≡ ok (record s { node = record s.node { timeline = on_the_wire tl } })
  unfolding peer_state_entry
  timeline_step s tl n e hn hb ht = rw (decode_timeline-encode tl n e hn hb ht)

  session_step :
      (s : PeerState F) (id : NodeId)
      → length id ≡ 8
      → peer_state_entry s key_session id
        ≡ ok (record s { node = record s.node { session_id = id } })
  unfolding peer_state_entry
  session_step s id h = rw h

  start_stop_step :
      (s : PeerState F) (ss : StartStopState)
      → IsI64 ss.beat.micro
      → IsI64 ss.timestamp
      → peer_state_entry s key_start_stop (encode_start_stop_entry ss).value
        ≡ ok (record s { node = record s.node { start_stop = ss } })
  unfolding peer_state_entry
  start_stop_step s ss hb ht = rw (decode_start_stop-encode ss hb ht)

  same_endpoint :
      (s : PeerState F)
      → s.measurement_endpoint ≡ none
      → ok s ≡ ok (record s { measurement_endpoint = none })
  same_endpoint s h = rw h

  meep_step :
      (s : PeerState F) (v4 : List ℕ) (p : ℕ)
      → length v4 ≡ 4
      → p < 2 ^ 16
      → peer_state_entry s key_meep_v4 (v4 ++ be_bytes 2 p)
        ≡ ok (record s { measurement_endpoint = some (record { ip = v4; port = p }) })
  unfolding peer_state_entry
  meep_step s v4 p h hp = rw (
    six_bytes v4 p h,
    take_of_length v4 (be_bytes 2 p) h,
    drop_of_length v4 (be_bytes 2 p) h,
    be_value-be_bytes 2 p hp,
  )

  v4_step :
      (s : PeerState F) (o : Option (List ℕ)) (p : ℕ)
      → ((v4 : List ℕ) → o ≡ some v4 → length v4 ≡ 4)
      → s.measurement_endpoint ≡ none
      → handle_all peer_state_entry (v4_entries o p) s
        ≡ ok (record s { measurement_endpoint = v4_endpoint o p })
  v4_step s none p four h = same_endpoint s h
  v4_step s (some v4) p four h =
      let len = four v4 refl in
      rw (six_bytes v4 (p % 2 ^ 16) len, meep_step s v4 (p % 2 ^ 16) len (omega arith))

  endpoint_step :
      (s : PeerState F) (ep : Option UdpAddr)
      → s.measurement_endpoint ≡ none
      → handle_all peer_state_entry (endpoint_entries ep) s
        ≡ ok (record s { measurement_endpoint = advertised ep })
  endpoint_step s none h = same_endpoint s h
  endpoint_step s (some ep) h = v4_step s (to4 ep.ip) ep.port (λ v4. to4-length ep.ip) h

  encodable : (s : PeerState F) → IsSendable s → All IsEncodable (encode_peer_state_entries s)
  unfolding encode_peer_state_entries encode_timeline_entry encode_start_stop_entry be_bytes
  encodable s h = (
    (omega arith, omega arith),
    (
      (omega arith, omega (arith, h.session_bytes)),
      ((omega arith, omega arith), endpoint_entries-IsEncodable s.measurement_endpoint),
    ),
  )

  -- A peer state that fits its machine types (IsSendable) survives encodePeerStateEntries and
  -- decodePeerState,
  -- with the sender's id from the header, its tempo rounded to whole microseconds per beat, and
  -- its endpoint if that is an IPv4 address.
  pub decode_peer_state-encode :
      (id : NodeId) (s : PeerState F)
      → IsSendable s
      → decode_peer_state id (encode_entries [] (encode_peer_state_entries s)) ≡ ok (received id s)
  unfolding decode_peer_state encode_peer_state_entries encode_timeline_entry
      encode_start_stop_entry
  decode_peer_state-encode id s h =
      let s0 = zero_peer_state {F = F} id in
      let s1 : PeerState F = record s0 {
        node = record s0.node { timeline = on_the_wire s.timeline };
      } in
      let s2 : PeerState F = record s1 { node = record s1.node { session_id = s.session_id } } in
      let s3 : PeerState F = record s2 { node = record s2.node { start_stop = s.start_stop } } in
      let session : Entry = record { key = key_session; value = s.session_id } in
      let last = endpoint_entries s.measurement_endpoint in
      let rest = encode_start_stop_entry s.start_stop ∷ last in
      parse_entries-encode_entries peer_state_entry _ s0 (encodable s h)
      ∙ handle_step (encode_timeline_entry s.timeline) (session ∷ rest) s0 s1
          (full_timeline s.timeline)
          (timeline_step s0 s.timeline h.micros h.tempo_eq h.tempo_fits h.beat_fits h.time_fits)
      ∙ handle_step session rest s1 s2 (rw h.session_bytes)
          (session_step s1 s.session_id h.session_bytes)
      ∙ handle_step (encode_start_stop_entry s.start_stop) last s2 s3 (full_start_stop s.start_stop)
          (start_stop_step s2 s.start_stop h.start_beat_fits h.start_time_fits)
      ∙ endpoint_step s3 s.measurement_endpoint refl
