-- ===== src/Engine/Measurement.antt =====
-- link/measurement.go: the ping and pong exchange that estimates the clock offset to a peer, and
-- the choice of the peer in link/engine.go. Two measurers with one target are told apart by the
-- order of a Go map; here the first one of the list is taken.
use abletonlink_client_go.Base.{
  ℕ, suc, ◌-◌, ◌/◌, ◌%◌, Bool, true, false, Option, none, some, List, [], ◌∷◌, ◌++◌, ◌&&◌, ◌||◌,
  not, ltb, ◌==◌, if◌then◌else◌, length, get_or,
}
use abletonlink_client_go.Base.Int.{pos, ltb_ℤ, eqb_ℤ}
use abletonlink_client_go.Base.Map.{find, delete, insert, modify}
use abletonlink_client_go.Float.{Float64}
use abletonlink_client_go.Clock.{Micros, llround}
use abletonlink_client_go.NodeId.{NodeId, eq_node_id, compare_node_id, zero_node_id}
use abletonlink_client_go.Timeline.{GhostXForm, zero_xform, host_to_ghost}
use abletonlink_client_go.Wire.{
  Entry, Result, ok, err, stuck, bad_entry, and_then, parse_entries, encode_link_message,
  parse_link_message, encode_micros_entry, decode_micros, link_ping, link_pong, key_session,
  key_ghost_time, key_host_time, key_prev_ghost_time,
}
use abletonlink_client_go.PeerState.{UdpAddr, ip_equal}
use abletonlink_client_go.Engine.State.{
  World, Engine, Measurer, PeerEntry, measurer_timer_fired, sent_measurement, send, tick,
  measure_timer, max_measure_points, max_measure_starts, node_id_key,
}
use abletonlink_client_go.Engine.Hub.{after, cancel, next_id}
use abletonlink_client_go.Engine.Join.{handle_session_measurement_result}

-- What the closure of handlePong has read of a pong.
pub record Pong : Type 0 where
  pub sess_id : NodeId
  pub ghost_time : Micros
  pub prev_ghost : Micros
  pub prev_host : Micros
  pub has_prev_g : Bool
  pub has_prev_h : Bool

abbrev pub no_pong : Pong
no_pong = record {
  sess_id = zero_node_id;
  ghost_time = pos 0;
  prev_ghost = pos 0;
  prev_host = pos 0;
  has_prev_g = false;
  has_prev_h = false;
}

unfoldable pub pong_entry : Pong → ℕ → List ℕ → Result Pong
pong_entry p key value =
    if key == key_session
    then (if length value == 8 then ok (record p { sess_id = value }) else err bad_entry)
    else if key == key_ghost_time
    then and_then (decode_micros value) (λ t. ok (record p { ghost_time = t }))
    else if key == key_prev_ghost_time
    then and_then (decode_micros value) (λ t. ok (record p { prev_ghost = t; has_prev_g = true }))
    else if key == key_host_time
    then and_then (decode_micros value) (λ t. ok (record p { prev_host = t; has_prev_h = true }))
    else ok p

abbrev pub ping_entries : Micros → Micros → List Entry
ping_entries host prev_ghost =
    encode_micros_entry key_host_time host
    ∷ (if eqb_ℤ prev_ghost (pos 0)
        then []
        else encode_micros_entry key_prev_ghost_time prev_ghost ∷ [])

module _ {F : Type 0} ⦃fl : Float64 F⦄ where
  -- sort.Float64s: NaN stands before all other values.
  abbrev sorts_before : F → F → Bool
  sorts_before x y = fl.lt x y || (not (fl.eq x x) && fl.eq y y)

  unfoldable pub insert_float : F → List F → List F
  insert_float x [] = x ∷ []
  insert_float x (y ∷ ys) = if sorts_before y x then y ∷ insert_float x ys else x ∷ y ∷ ys

  unfoldable pub sort_floats : List F → List F
  unfolding insert_float
  sort_floats [] = []
  sort_floats (x ∷ xs) = insert_float x (sort_floats xs)

  unfoldable pub median : List F → F
  unfolding sort_floats
  median xs =
      let sorted = sort_floats xs in
      let n = length xs in
      let zero_value = fl.decimal 0 0 in
      if n == 0
      then zero_value
      else if n % 2 == 0
      then fl.div
          (fl.add (get_or sorted (n / 2) zero_value) (get_or sorted ((n - 1) / 2) zero_value))
          (fl.decimal 2 0)
      else get_or sorted (n / 2) zero_value

  -- The estimates that one pong adds to the points.
  unfoldable pub pong_points : Micros → Pong → List F → List F
  pong_points now p points =
      let half = fl.decimal 5 1 in
      let forth =
        if not (eqb_ℤ p.ghost_time (pos 0)) && p.has_prev_h && not (eqb_ℤ p.prev_host (pos 0))
        then points
          ++ (fl.sub (fl.of_int p.ghost_time)
                (fl.mul (fl.add (fl.of_int now) (fl.of_int p.prev_host)) half)
              ∷ [])
        else points in
      if p.has_prev_g && not (eqb_ℤ p.prev_ghost (pos 0))
      then forth
        ++ (fl.sub (fl.mul (fl.add (fl.of_int p.ghost_time) (fl.of_int p.prev_ghost)) half)
              (fl.of_int p.prev_host)
            ∷ [])
      else forth

  unfoldable pub find_target : UdpAddr → List (NodeId × Measurer F) → Option (NodeId × Measurer F)
  find_target from [] = none
  find_target from ((sid, m) ∷ ms) =
      if ip_equal m.target.ip from.ip && (m.target.port == from.port)
      then some (sid, m)
      else find_target from ms

  -- The measurer is the one that the map holds under its session.
  unfoldable pub send_ping : NodeId → UdpAddr → Micros → Micros → Engine F → Engine F
  send_ping sid target host prev_ghost e =
      send (λ msg. sent_measurement msg target)
        (encode_link_message link_ping (ping_entries host prev_ghost))
        (record e { measurements = modify sid (λ m. record m { last_host = host }) e.measurements })

  -- (Re-)arms the watchdog of a measurer.
  abbrev arm_watchdog : NodeId → Engine F → Engine F
  arm_watchdog sid e = record e {
    measurements = modify sid (λ m. record m { timer_id = next_id e.hub }) e.measurements;
    hub = after (pos measure_timer) (measurer_timer_fired sid) e.hub;
  }

  -- launchSessionMeasurement: the peers of the session, by their identifiers.
  unfoldable pub insert_candidate : PeerEntry F → List (PeerEntry F) → List (PeerEntry F)
  insert_candidate p [] = p ∷ []
  insert_candidate p (q ∷ qs) =
      if ltb_ℤ (compare_node_id q.state.node_id p.state.node_id) (pos 0)
      then q ∷ insert_candidate p qs
      else p ∷ q ∷ qs

  unfoldable pub session_candidates : NodeId → List (NodeId × PeerEntry F) → List (PeerEntry F)
  unfolding insert_candidate
  session_candidates sid [] = []
  session_candidates sid ((id, p) ∷ ps) =
      let rest = session_candidates sid ps in
      if eq_node_id p.state.session_id sid then insert_candidate p rest else rest

  -- The founder if it is among the candidates, else the first one.
  unfoldable pub choose_candidate : NodeId → PeerEntry F → List (PeerEntry F) → PeerEntry F
  choose_candidate sid first [] = first
  choose_candidate sid first (c ∷ cs) =
      if eq_node_id c.state.node_id sid then c else choose_candidate sid first cs

  module _ (w : World) where
    unfoldable pub start_measurement : NodeId → UdpAddr → Engine F → Engine F
    unfolding send_ping
    start_measurement sid target e =
        let m : Measurer F = record {
          session_id = sid;
          target = target;
          points = [];
          started = 0;
          last_host = pos 0;
          last_ghost = pos 0;
          timer_id = 0;
        } in
        arm_watchdog sid (
          send_ping sid target (w.micros e.reads) (pos 0)
            (tick (record e { measurements = insert sid m e.measurements })))

    -- finishMeasurement, and failMeasurement with the zero transform.
    unfoldable pub end_measurement : NodeId → GhostXForm F → Engine F → Engine F
    end_measurement key xform e =
        handle_session_measurement_result w key xform (elim (find key e.measurements) [
          | none ↦ e
          | some m ↦ record e {
            hub = cancel m.timer_id e.hub;
            measurements = delete key e.measurements;
          }
        ])

    unfoldable pub fail_measurement : NodeId → Engine F → Engine F
    unfolding end_measurement
    fail_measurement key e = end_measurement key zero_xform e

    unfoldable pub handle_ping : UdpAddr → List ℕ → Engine F → Engine F
    handle_ping from ping_payload e =
        let ghost_time = host_to_ghost e.session_xform (w.micros e.reads) in
        let entries : List Entry =
          record { key = key_session; value = e.session_id }
          ∷ encode_micros_entry key_ghost_time ghost_time
          ∷ [] in
        send (λ msg. sent_measurement (msg ++ ping_payload) from)
          (encode_link_message link_pong entries) (tick e)

    unfoldable pub accept_pong : NodeId → Measurer F → Pong → Engine F → Engine F
    unfolding send_ping end_measurement
    accept_pong key m p e =
        let now = w.micros e.reads in
        let points = pong_points now p m.points in
        let pinged = send_ping key m.target now p.ghost_time (tick e) in
        let kept = record pinged {
          measurements = modify key (λ n. record n { points = points }) pinged.measurements;
        } in
        if ltb max_measure_points (length points)
        then end_measurement key
            (record { slope = fl.decimal 1 0; intercept = llround (median points) }) kept
        else arm_watchdog key (record kept { hub = cancel m.timer_id kept.hub })

    abbrev answer_pong : NodeId → Measurer F → List ℕ → Engine F → Engine F
    answer_pong key m payload e = elim (parse_entries pong_entry payload no_pong) [
      | ok p ↦
          if eq_node_id p.sess_id m.session_id
          then accept_pong key m p e
          else fail_measurement key e
      | err x ↦ fail_measurement key e
      | stuck ↦ e
    ]

    unfoldable pub handle_pong : UdpAddr → List ℕ → Engine F → Engine F
    unfolding accept_pong fail_measurement find_target
    handle_pong from payload e = elim (find_target from e.measurements) [
      | none ↦ e
      | some (key, m) ↦ answer_pong key m payload e
    ]

    unfoldable pub measurer_timer_fired_at : NodeId → Engine F → Engine F
    unfolding send_ping fail_measurement
    measurer_timer_fired_at key e = elim (find key e.measurements) [
      | none ↦ e
      | some m ↦
          if ltb m.started max_measure_starts
          then (let pinged = send_ping key m.target (w.micros e.reads) (pos 0) (tick e) in
              arm_watchdog key (record pinged {
                measurements =
                    modify key (λ n. record n { started = suc n.started }) pinged.measurements;
              }))
          else fail_measurement key e
    ]

    unfoldable pub handle_measurement_packet : UdpAddr → List ℕ → Engine F → Engine F
    unfolding handle_ping handle_pong
    handle_measurement_packet from bytes e =
        if not e.enabled_flag then e else elim (parse_link_message bytes) [
          | none ↦ e
          | some (msg_type, payload) ↦
              if msg_type == link_ping
              then handle_ping from payload e
              else if msg_type == link_pong
              then handle_pong from payload e
              else e
        ]

    abbrev pub measure_candidates : NodeId → List (PeerEntry F) → Engine F → Engine F
    measure_candidates sid [] e = record e { other_sessions = delete sid e.other_sessions }
    measure_candidates sid (c ∷ cs) e =
        elim (choose_candidate sid c (c ∷ cs)).state.measurement_endpoint [
          | none ↦ handle_session_measurement_result w sid zero_xform e
          | some ep ↦ start_measurement sid ep e
        ]

    unfoldable pub launch_session_measurement : NodeId → Engine F → Engine F
    unfolding session_candidates choose_candidate start_measurement
    launch_session_measurement sid e = elim (find sid e.measurements) [
      | some m ↦ e
      | none ↦ measure_candidates sid (session_candidates sid e.peers) e
    ]
