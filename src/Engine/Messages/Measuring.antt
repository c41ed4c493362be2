-- ===== src/Engine/Messages/Measuring.antt =====
-- What pongs and the end of a measurement need of the identifiers, and keep (link/measurement.go).
use abletonlink_client_go.Base.{
  ℕ, ◌≡◌, inl, inr, refl, List, [], ◌∷◌, length, if◌then◌else◌, Option-cases,
}
use abletonlink_client_go.Base.Map.{find}
use abletonlink_client_go.Base.Int.{pos}
use abletonlink_client_go.Float.{Float64}
use abletonlink_client_go.NodeId.{NodeId, eq_node_id}
use abletonlink_client_go.Timeline.{GhostXForm, zero_xform}
use abletonlink_client_go.Wire.{Result, ok, err, stuck, parse_link_message, parse_entries}
use abletonlink_client_go.PeerState.{UdpAddr}
use abletonlink_client_go.Engine.State.{World, Engine, PeerEntry, Measurer, node_id_key, tick}
use abletonlink_client_go.Engine.Measurement.{
  Pong, no_pong, pong_entry, find_target, end_measurement, fail_measurement, accept_pong,
  handle_pong, handle_measurement_packet, measurer_timer_fired_at, launch_session_measurement,
  measure_candidates, session_candidates, choose_candidate,
}
use abletonlink_client_go.Engine.Messages.Frame.{IsSized, IsSized-same, IsSized-if}
use abletonlink_client_go.Engine.Messages.Tables.{IsSized-delete_session}
use abletonlink_client_go.Engine.Messages.Sessions.{
  IsSized-hub, IsSized-send_ping, IsSized-start_measurement, IsSized-handle_ping,
  IsSized-handle_session_measurement_result,
}

module _ {F : Type 0} ⦃fl : Float64 F⦄ (w : World) (ids : (k : ℕ) → length (w.random k) ≡ 8) where
  pub IsSized-end_measurement :
      (key : NodeId) (xform : GhostXForm F) (e : Engine F)
      → IsSized e
      → IsSized (end_measurement w key xform e)
  unfolding end_measurement
  IsSized-end_measurement key xform e h = elim (Option-cases (find key e.measurements)) [
    | inl missing ↦ rw missing (IsSized-handle_session_measurement_result w ids key xform e h)
    | inr (m, known) ↦
        rw known (IsSized-handle_session_measurement_result w ids key xform _ (IsSized-hub e _ _ h))
  ]

  IsSized-fail_measurement :
      (key : NodeId) (e : Engine F) → IsSized e → IsSized (fail_measurement w key e)
  unfolding fail_measurement
  IsSized-fail_measurement key e h = IsSized-end_measurement key zero_xform e h

  IsSized-accept_pong :
      (key : NodeId) (m : Measurer F) (p : Pong) (e : Engine F)
      → IsSized e
      → IsSized (accept_pong w key m p e)
  unfolding accept_pong
  IsSized-accept_pong key m p e h =
      let pinged =
        IsSized-send_ping key m.target (w.micros e.reads) p.ghost_time (tick e)
          (IsSized-same _ _ h refl) in
      IsSized-if _ _ _ (IsSized-end_measurement key _ _ (IsSized-hub _ _ _ pinged))
        (IsSized-same _ _ pinged refl)

  IsSized-handle_pong :
      (from : UdpAddr) (payload : List ℕ) (e : Engine F)
      → IsSized e
      → IsSized (handle_pong w from payload e)
  unfolding handle_pong
  IsSized-handle_pong from payload e h = elim (Option-cases (find_target from e.measurements)) [
    | inl missing ↦ rw (handle_pong, missing) h
    | inr ((key, m), known) ↦
        rw (handle_pong, known) (answered key m (parse_entries pong_entry payload no_pong))
  ]
    where
      answered :
          (key : NodeId) (m : Measurer F) (r : Result Pong)
          → IsSized (elim r [
            | ok p ↦
                if eq_node_id p.sess_id m.session_id
                then accept_pong w key m p e
                else fail_measurement w key e
            | err x ↦ fail_measurement w key e
            | stuck ↦ e
          ])
      answered key m (ok p) =
          IsSized-if _ _ _ (IsSized-accept_pong key m p e h) (IsSized-fail_measurement key e h)
      answered key m (err x) = IsSized-fail_measurement key e h
      answered key m stuck = h

  pub IsSized-handle_measurement_packet :
      (from : UdpAddr) (bytes : List ℕ) (e : Engine F)
      → IsSized e
      → IsSized (handle_measurement_packet w from bytes e)
  unfolding handle_measurement_packet
  IsSized-handle_measurement_packet from bytes e h =
      elim (Option-cases (parse_link_message bytes)) [
        | inl garbage ↦ rw (handle_measurement_packet, garbage) (IsSized-if _ _ _ h h)
        | inr ((msg_type, payload), parsed) ↦
            rw (handle_measurement_packet, parsed)
              (IsSized-if _ _ _ h (
                IsSized-if _ _ _ (IsSized-handle_ping w from payload e h)
                  (IsSized-if _ _ _ (IsSized-handle_pong from payload e h) h)))
      ]

  pub IsSized-measurer_timer_fired :
      (key : NodeId) (e : Engine F) → IsSized e → IsSized (measurer_timer_fired_at w key e)
  unfolding measurer_timer_fired_at
  IsSized-measurer_timer_fired key e h = elim (Option-cases (find key e.measurements)) [
    | inl missing ↦ rw (measurer_timer_fired_at, missing) h
    | inr (m, known) ↦
        rw (measurer_timer_fired_at, known)
          (IsSized-if _ _ _
            (IsSized-hub _ _ _ (
              IsSized-send_ping key m.target (w.micros e.reads) (pos 0) (tick e)
                (IsSized-same _ _ h refl)))
            (IsSized-fail_measurement key e h))
  ]

  measured :
      (sid : NodeId) (cs : List (PeerEntry F)) (e : Engine F)
      → IsSized e
      → IsSized (measure_candidates w sid cs e)
  measured sid [] e h = IsSized-delete_session sid e h
  measured sid (c ∷ cs) e h =
      elim (Option-cases (choose_candidate sid c (c ∷ cs)).state.measurement_endpoint) [
        | inl unknown ↦
            rw (measure_candidates, unknown)
              (IsSized-handle_session_measurement_result w ids sid zero_xform e h)
        | inr (ep, known) ↦ rw (measure_candidates, known) (IsSized-start_measurement w sid ep e h)
      ]

  pub IsSized-launch_session_measurement :
      (sid : NodeId) (e : Engine F) → IsSized e → IsSized (launch_session_measurement w sid e)
  unfolding launch_session_measurement
  IsSized-launch_session_measurement sid e h = elim (Option-cases (find sid e.measurements)) [
    | inl idle ↦
        rw (launch_session_measurement, idle) (measured sid (session_candidates sid e.peers) e h)
    | inr (m, busy) ↦ rw (launch_session_measurement, busy) h
  ]
