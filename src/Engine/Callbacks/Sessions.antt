-- ===== src/Engine/Callbacks/Sessions.antt =====
-- What measurements do to what the application was told (link/engine.go, link/measurement.go): the end
-- of a measurement, with the joining of another session, pongs and the watchdog.
use abletonlink_client_go.Base.{
  ℕ, ◌≡◌, inl, inr, ◌∙◌, refl, Bool, true, List, [], ◌∷◌, if◌then◌else◌, Option-cases,
}
use abletonlink_client_go.Base.Map.{find}
use abletonlink_client_go.Base.Int.{pos}
use abletonlink_client_go.Float.{Float64}
use abletonlink_client_go.NodeId.{NodeId, eq_node_id}
use abletonlink_client_go.Timeline.{GhostXForm, zero_xform}
use abletonlink_client_go.Wire.{Result, ok, err, stuck, parse_link_message, parse_entries}
use abletonlink_client_go.PeerState.{UdpAddr, StartStopState}
use abletonlink_client_go.Engine.State.{
  World, Engine, PeerEntry, SessionEntry, Measurer, node_id_key, tick, TimerHub,
}
use abletonlink_client_go.Engine.Join.{join_session, handle_session_measurement_result}
use abletonlink_client_go.Engine.Measurement.{
  Pong, no_pong, pong_entry, find_target, end_measurement, fail_measurement, accept_pong,
  handle_pong, handle_measurement_packet, measurer_timer_fired_at, launch_session_measurement,
  measure_candidates, session_candidates, choose_candidate,
}
use abletonlink_client_go.Engine.Callbacks.Heard.{heard, IsTold, IsTold-of, IsTold-if}
use abletonlink_client_go.Engine.Callbacks.Frame.{IsTold-update_session_timing}
use abletonlink_client_go.Engine.Callbacks.Broadcasts.{
  heard-schedule_remeasure, heard-send_ping, heard-handle_ping, heard-start_measurement,
  heard-broadcast, IsTold-session_membership_changed,
}

module _ {F : Type 0} (first : F × Bool) where
  pub heard-tick : (e : Engine F) → heard first (tick e) ≡ heard first e
  unfolding heard
  heard-tick e = refl

  heard-moved :
      (e : Engine F) (sid : NodeId) (ss : StartStopState) (others : List (NodeId × SessionEntry F))
      → heard first
          (record e { session_id = sid; session_start_stop = ss; other_sessions = others })
        ≡ heard first e
  unfolding heard
  heard-moved e sid ss others = refl

  pub heard-hub :
      (e : Engine F) (hub : TimerHub) (ms : List (NodeId × Measurer F))
      → heard first (record e { hub = hub; measurements = ms }) ≡ heard first e
  unfolding heard
  heard-hub e hub ms = refl

  pub heard-others :
      (e : Engine F) (others : List (NodeId × SessionEntry F))
      → heard first (record e { other_sessions = others }) ≡ heard first e
  unfolding heard
  heard-others e others = refl

module _ {F : Type 0} ⦃fl : Float64 F⦄ (first : F × Bool) (w : World) where
  IsTold-join_session :
      (sid : NodeId) (s : SessionEntry F) (xform : GhostXForm F) (e : Engine F)
      → IsTold true true (heard first e)
      → IsTold true true (heard first (join_session w sid s xform e))
  unfolding join_session
  IsTold-join_session sid s xform e h = IsTold-of (heard-schedule_remeasure first _) (
      IsTold-session_membership_changed first w _ (
        IsTold-of (heard-broadcast first w _)
          (IsTold-update_session_timing first w _ _ _ (IsTold-of (heard-moved first e _ _ _) h))))

  pub IsTold-handle_session_measurement_result :
      (sid : NodeId) (xform : GhostXForm F) (e : Engine F)
      → IsTold true true (heard first e)
      → IsTold true true (heard first (handle_session_measurement_result w sid xform e))
  unfolding handle_session_measurement_result
  IsTold-handle_session_measurement_result sid xform e h =
      IsTold-if first (eq_node_id sid e.session_id) _ _
        (IsTold-of (heard-schedule_remeasure first _) (
          IsTold-if first _ _ _ h
            (IsTold-of (heard-broadcast first w _) (IsTold-update_session_timing first w _ _ _ h))))
        (elim (Option-cases (find sid e.other_sessions)) [
          | inl missing ↦ rw missing h
          | inr (s, known) ↦ rw known (
              IsTold-if first _ _ _ (IsTold-of (heard-others first e _) h) (
                IsTold-if first _ _ _
                  (IsTold-join_session sid s xform (tick e) (IsTold-of (heard-tick first e) h))
                  (IsTold-of (heard-tick first e) h)))
        ])

  pub IsTold-end_measurement :
      (key : NodeId) (xform : GhostXForm F) (e : Engine F)
      → IsTold true true (heard first e)
      → IsTold true true (heard first (end_measurement w key xform e))
  unfolding end_measurement
  IsTold-end_measurement key xform e h = elim (Option-cases (find key e.measurements)) [
    | inl missing ↦ rw missing (IsTold-handle_session_measurement_result key xform e h)
    | inr (m, known) ↦
        rw known (
          IsTold-handle_session_measurement_result key xform _
            (IsTold-of (heard-hub first e _ _) h))
  ]

  IsTold-fail_measurement :
      (key : NodeId) (e : Engine F)
      → IsTold true true (heard first e)
      → IsTold true true (heard first (fail_measurement w key e))
  unfolding fail_measurement
  IsTold-fail_measurement key e h = IsTold-end_measurement key zero_xform e h

  IsTold-accept_pong :
      (key : NodeId) (m : Measurer F) (p : Pong) (e : Engine F)
      → IsTold true true (heard first e)
      → IsTold true true (heard first (accept_pong w key m p e))
  unfolding accept_pong
  IsTold-accept_pong key m p e h =
      let pinged =
        heard-send_ping first key m.target (w.micros e.reads) p.ghost_time (tick e)
        ∙ heard-tick first e in
      IsTold-if first _ _ _
        (IsTold-end_measurement key _ _ (IsTold-of (heard-hub first _ _ _ ∙ pinged) h))
        (IsTold-of (heard-hub first _ _ _ ∙ pinged) h)

  IsTold-handle_pong :
      (from : UdpAddr) (payload : List ℕ) (e : Engine F)
      → IsTold true true (heard first e)
      → IsTold true true (heard first (handle_pong w from payload e))
  unfolding handle_pong
  IsTold-handle_pong from payload e h = elim (Option-cases (find_target from e.measurements)) [
    | inl missing ↦ rw (handle_pong, missing) h
    | inr ((key, m), known) ↦
        rw (handle_pong, known) (answered key m (parse_entries pong_entry payload no_pong))
  ]
    where
      answered :
          (key : NodeId) (m : Measurer F) (r : Result Pong)
          → IsTold true true (
              heard first (elim r [
                | ok p ↦
                    if eq_node_id p.sess_id m.session_id
                    then accept_pong w key m p e
                    else fail_measurement w key e
                | err x ↦ fail_measurement w key e
                | stuck ↦ e
              ]))
      answered key m (ok p) =
          IsTold-if first _ _ _ (IsTold-accept_pong key m p e h) (IsTold-fail_measurement key e h)
      answered key m (err x) = IsTold-fail_measurement key e h
      answered key m stuck = h

  pub IsTold-handle_measurement_packet :
      (from : UdpAddr) (bytes : List ℕ) (e : Engine F)
      → IsTold true true (heard first e)
      → IsTold true true (heard first (handle_measurement_packet w from bytes e))
  unfolding handle_measurement_packet
  IsTold-handle_measurement_packet from bytes e h = elim (Option-cases (parse_link_message bytes)) [
    | inl garbage ↦ rw (handle_measurement_packet, garbage) (IsTold-if first _ _ _ h h)
    | inr ((msg_type, payload), parsed) ↦
        rw (handle_measurement_packet, parsed)
          (IsTold-if first _ _ _ h (
            IsTold-if first _ _ _ (IsTold-of (heard-handle_ping first w from payload e) h)
              (IsTold-if first _ _ _ (IsTold-handle_pong from payload e h) h)))
  ]

  pub IsTold-measurer_timer_fired :
      (key : NodeId) (e : Engine F)
      → IsTold true true (heard first e)
      → IsTold true true (heard first (measurer_timer_fired_at w key e))
  unfolding measurer_timer_fired_at
  IsTold-measurer_timer_fired key e h = elim (Option-cases (find key e.measurements)) [
    | inl missing ↦ rw (measurer_timer_fired_at, missing) h
    | inr (m, known) ↦
        rw (measurer_timer_fired_at, known)
          (IsTold-if first _ _ _
            (IsTold-of
              (heard-hub first _ _ _
                ∙ (heard-send_ping first key m.target (w.micros e.reads) (pos 0) (tick e)
                    ∙ heard-tick first e))
              h)
            (IsTold-fail_measurement key e h))
  ]

  measured :
      (sid : NodeId) (cs : List (PeerEntry F)) (e : Engine F)
      → IsTold true true (heard first e)
      → IsTold true true (heard first (measure_candidates w sid cs e))
  measured sid [] e h = IsTold-of (heard-others first e _) h
  measured sid (c ∷ cs) e h =
      elim (Option-cases (choose_candidate sid c (c ∷ cs)).state.measurement_endpoint) [
        | inl unknown ↦
            rw (measure_candidates, unknown)
              (IsTold-handle_session_measurement_result sid zero_xform e h)
        | inr (ep, known) ↦
            rw (measure_candidates, known) (IsTold-of (heard-start_measurement first w sid ep e) h)
      ]

  pub IsTold-launch_session_measurement :
      (sid : NodeId) (e : Engine F)
      → IsTold true true (heard first e)
      → IsTold true true (heard first (launch_session_measurement w sid e))
  unfolding launch_session_measurement
  IsTold-launch_session_measurement sid e h = elim (Option-cases (find sid e.measurements)) [
    | inl idle ↦
        rw (launch_session_measurement, idle) (measured sid (session_candidates sid e.peers) e h)
    | inr (m, busy) ↦ rw (launch_session_measurement, busy) h
  ]
