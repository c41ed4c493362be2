-- ===== src/Engine/Members/Sessions.antt =====
-- What measurements do to the members (link/engine.go, link/measurement.go): joining another session,
-- the end of a measurement, pongs and the watchdog.
use abletonlink_client_go.Base.{
  ℕ, ◌≡◌, inl, inr, ap, ◌∙◌, arith, Bool, true, some, List, [], ◌∷◌, if◌then◌else◌, Option-cases,
}
use abletonlink_client_go.Base.Map.{find, delete}
use abletonlink_client_go.Base.Int.{pos}
use abletonlink_client_go.Float.{Float64}
use abletonlink_client_go.NodeId.{NodeId, eq_node_id}
use abletonlink_client_go.Timeline.{GhostXForm, zero_xform}
use abletonlink_client_go.Wire.{Result, ok, err, stuck, parse_link_message, parse_entries}
use abletonlink_client_go.PeerState.{UdpAddr}
use abletonlink_client_go.Engine.State.{
  World, Engine, PeerEntry, SessionEntry, Measurer, node_id_key, tick,
}
use abletonlink_client_go.Engine.Join.{join_session, handle_session_measurement_result}
use abletonlink_client_go.Engine.Measurement.{
  Pong, no_pong, pong_entry, find_target, end_measurement, fail_measurement, accept_pong,
  handle_pong, handle_measurement_packet, measurer_timer_fired_at, launch_session_measurement,
  measure_candidates, session_candidates, choose_candidate,
}
use abletonlink_client_go.Engine.Members.Frame.{
  members, members-broadcast, members-update_session_timing, members-schedule_remeasure,
  members-start_measurement, members-send_ping, members-handle_ping, members-tick, members-enabled,
  members-hub,
}
use abletonlink_client_go.Engine.Members.Count.{
  IsLive, IsSound, IsSound-of, IsSound-if, IsSound-session_membership_changed,
}

module _ {F : Type 0} where
  -- An engine that knows another session takes part.
  on_of_found :
      (sid : NodeId) (s : SessionEntry F) (e : Engine F)
      → IsLive (members e)
      → find sid e.other_sessions ≡ some s
      → e.enabled_flag ≡ true
  unfolding members find
  on_of_found sid s e h f = grind arith

  -- Forgetting a session keeps the members sound.
  pub IsSound-forget :
      {settled : Bool} (sid : NodeId) (e : Engine F)
      → IsSound settled (members e)
      → IsSound settled (members (record e { other_sessions = delete sid e.other_sessions }))
  unfolding members delete
  IsSound-forget sid e h = record {
    counted = h.counted;
    live = elim h.live [ inl on ↦ inl on | inr off ↦ inr (off.0, ap (delete sid) off.1) ];
  }

module _ {F : Type 0} ⦃fl : Float64 F⦄ (w : World) {settled : Bool} where
  IsSound-join_session :
      (sid : NodeId) (s : SessionEntry F) (xform : GhostXForm F) (e : Engine F)
      → e.enabled_flag ≡ true
      → IsSound settled (members (join_session w sid s xform e))
  unfolding join_session
  IsSound-join_session sid s xform e on = IsSound-of (members-schedule_remeasure _) (
      IsSound-session_membership_changed w _ (
        inl (
          ap (λ m. m.enabled) (members-broadcast w _ ∙ members-update_session_timing w _ _ _)
          ∙ members-enabled _ on)))

  pub IsSound-handle_session_measurement_result :
      (sid : NodeId) (xform : GhostXForm F) (e : Engine F)
      → IsSound settled (members e)
      → IsSound settled (members (handle_session_measurement_result w sid xform e))
  unfolding handle_session_measurement_result
  IsSound-handle_session_measurement_result sid xform e h =
      IsSound-if (eq_node_id sid e.session_id) _ _
        (IsSound-of (members-schedule_remeasure _) (
          IsSound-if _ _ _ h
            (IsSound-of (members-broadcast w _ ∙ members-update_session_timing w _ _ _) h)))
        (elim (Option-cases (find sid e.other_sessions)) [
          | inl missing ↦ rw missing h
          | inr (s, known) ↦ rw known (
              IsSound-if _ _ _ (IsSound-forget sid e h) (
                IsSound-if _ _ _
                  (IsSound-join_session sid s xform (tick e) (on_of_found sid s e h.live known))
                  (IsSound-of (members-tick e) h)))
        ])

  pub IsSound-end_measurement :
      (key : NodeId) (xform : GhostXForm F) (e : Engine F)
      → IsSound settled (members e)
      → IsSound settled (members (end_measurement w key xform e))
  unfolding end_measurement
  IsSound-end_measurement key xform e h = elim (Option-cases (find key e.measurements)) [
    | inl missing ↦ rw missing (IsSound-handle_session_measurement_result key xform e h)
    | inr (m, known) ↦
        rw known
          (IsSound-handle_session_measurement_result key xform _ (IsSound-of (members-hub e _ _) h))
  ]

  IsSound-fail_measurement :
      (key : NodeId) (e : Engine F)
      → IsSound settled (members e)
      → IsSound settled (members (fail_measurement w key e))
  unfolding fail_measurement
  IsSound-fail_measurement key e h = IsSound-end_measurement key zero_xform e h

  IsSound-accept_pong :
      (key : NodeId) (m : Measurer F) (p : Pong) (e : Engine F)
      → IsSound settled (members e)
      → IsSound settled (members (accept_pong w key m p e))
  unfolding accept_pong
  IsSound-accept_pong key m p e h =
      let pinged =
        members-hub _ _ _
        ∙ (members-send_ping w key m.target (w.micros e.reads) p.ghost_time (tick e)
            ∙ members-tick e) in
      IsSound-if _ _ _ (IsSound-end_measurement key _ _ (IsSound-of pinged h))
        (IsSound-of (members-hub _ _ _ ∙ pinged) h)

  IsSound-handle_pong :
      (from : UdpAddr) (payload : List ℕ) (e : Engine F)
      → IsSound settled (members e)
      → IsSound settled (members (handle_pong w from payload e))
  unfolding handle_pong
  IsSound-handle_pong from payload e h = elim (Option-cases (find_target from e.measurements)) [
    | inl missing ↦ rw (handle_pong, missing) h
    | inr ((key, m), known) ↦
        rw (handle_pong, known) (answered key m (parse_entries pong_entry payload no_pong))
  ]
    where
      answered :
          (key : NodeId) (m : Measurer F) (r : Result Pong)
          → IsSound settled (
              members (elim r [
                | ok p ↦
                    if eq_node_id p.sess_id m.session_id
                    then accept_pong w key m p e
                    else fail_measurement w key e
                | err x ↦ fail_measurement w key e
                | stuck ↦ e
              ]))
      answered key m (ok p) =
          IsSound-if _ _ _ (IsSound-accept_pong key m p e h) (IsSound-fail_measurement key e h)
      answered key m (err x) = IsSound-fail_measurement key e h
      answered key m stuck = h

  -- Whatever packet the measurement socket receives, sound members stay sound: if they are settled,
  -- the count of the own session's peers is right before and after, also when the packet ends a
  -- measurement and the engine joins another session; and the engine takes part, or it knows no peers
  -- and no other sessions.
  pub IsSound-handle_measurement_packet :
      (from : UdpAddr) (bytes : List ℕ) (e : Engine F)
      → IsSound settled (members e)
      → IsSound settled (members (handle_measurement_packet w from bytes e))
  unfolding handle_measurement_packet
  IsSound-handle_measurement_packet from bytes e h =
      elim (Option-cases (parse_link_message bytes)) [
        | inl garbage ↦ rw (handle_measurement_packet, garbage) (IsSound-if _ _ _ h h)
        | inr ((msg_type, payload), parsed) ↦
            rw (handle_measurement_packet, parsed)
              (IsSound-if _ _ _ h (
                IsSound-if _ _ _ (IsSound-of (members-handle_ping w from payload e) h)
                  (IsSound-if _ _ _ (IsSound-handle_pong from payload e h) h)))
      ]

  pub IsSound-measurer_timer_fired :
      (key : NodeId) (e : Engine F)
      → IsSound settled (members e)
      → IsSound settled (members (measurer_timer_fired_at w key e))
  unfolding measurer_timer_fired_at
  IsSound-measurer_timer_fired key e h = elim (Option-cases (find key e.measurements)) [
    | inl missing ↦ rw (measurer_timer_fired_at, missing) h
    | inr (m, known) ↦
        rw (measurer_timer_fired_at, known)
          (IsSound-if _ _ _
            (IsSound-of
              (members-hub _ _ _
                ∙ (members-send_ping w key m.target (w.micros e.reads) (pos 0) (tick e)
                    ∙ members-tick e))
              h)
            (IsSound-fail_measurement key e h))
  ]

  measured :
      (sid : NodeId) (cs : List (PeerEntry F)) (e : Engine F)
      → IsSound settled (members e)
      → IsSound settled (members (measure_candidates w sid cs e))
  measured sid [] e h = IsSound-forget sid e h
  measured sid (c ∷ cs) e h =
      elim (Option-cases (choose_candidate sid c (c ∷ cs)).state.measurement_endpoint) [
        | inl unknown ↦
            rw (measure_candidates, unknown)
              (IsSound-handle_session_measurement_result sid zero_xform e h)
        | inr (ep, known) ↦
            rw (measure_candidates, known) (IsSound-of (members-start_measurement w sid ep e) h)
      ]

  pub IsSound-launch_session_measurement :
      (sid : NodeId) (e : Engine F)
      → IsSound settled (members e)
      → IsSound settled (members (launch_session_measurement w sid e))
  unfolding launch_session_measurement
  IsSound-launch_session_measurement sid e h = elim (Option-cases (find sid e.measurements)) [
    | inl idle ↦
        rw (launch_session_measurement, idle) (measured sid (session_candidates sid e.peers) e h)
    | inr (m, busy) ↦ rw (launch_session_measurement, busy) h
  ]
