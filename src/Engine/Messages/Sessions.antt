-- ===== src/Engine/Messages/Sessions.antt =====
-- What measurements need of the identifiers, and keep (link/engine.go, link/measurement.go).
use abletonlink_client_go.Base.{
  ℕ, ◌≡◌, ◌≤◌, inl, inr, refl, arith, none, some, List, [], All, length, Option-cases,
}
use abletonlink_client_go.Base.Map.{find, delete, insert}
use abletonlink_client_go.Base.Int.{pos}
use abletonlink_client_go.Float.{Float64}
use abletonlink_client_go.Clock.{Micros}
use abletonlink_client_go.NodeId.{NodeId, eq_node_id}
use abletonlink_client_go.Timeline.{GhostXForm}
use abletonlink_client_go.Wire.{link_ping, link_pong, be_bytes, encode_micros_entry}
use abletonlink_client_go.PeerState.{UdpAddr}
use abletonlink_client_go.Engine.State.{
  World, Engine, SessionEntry, Measurer, node_id_key, tick, TimerHub,
}
use abletonlink_client_go.Engine.Join.{
  schedule_remeasure, join_session, handle_session_measurement_result,
}
use abletonlink_client_go.Engine.Measurement.{
  send_ping, start_measurement, handle_ping, ping_entries,
}
use abletonlink_client_go.Engine.Sizes.{room_for, is_some-encode_link_message}
use abletonlink_client_go.Engine.Messages.Frame.{
  IsSized, IsSized-same, IsSized-if, IsSized-send, IsSized-broadcast, IsSized-update_session_timing,
  IsSized-session_membership_changed,
}
use abletonlink_client_go.Engine.Messages.Tables.{
  All-delete, All-insert, All-find, IsSized-delete_session,
}

room_for_ping : (host prev : Micros) → room_for (ping_entries host prev) ≤ 400
unfolding encode_micros_entry be_bytes
room_for_ping host prev = ground arith

module _ {F : Type 0} where
  -- The engine moves to a session.
  IsSized-move :
      (e : Engine F) (sid : NodeId) (ss : List (NodeId × SessionEntry F))
      → length sid ≡ 8
      → All (λ s. length s.0 ≡ 8) ss
      → IsSized e
      → IsSized (record e { session_id = sid; other_sessions = ss })
  unfolding IsSized
  IsSized-move e sid ss bytes good h = record {
    own_bytes = h.own_bytes;
    session_bytes = bytes;
    peer_bytes = h.peer_bytes;
    other_bytes = good;
    quiet = h.quiet;
  }

  -- The own session joins the other ones.
  kept_sessions :
      (e : Engine F) (sid : NodeId) (old : SessionEntry F)
      → IsSized e
      → All
          (λ s. length s.0 ≡ 8)
          (elim (find e.session_id (delete sid e.other_sessions)) [
            | none ↦ insert e.session_id old (delete sid e.other_sessions)
            | some known ↦ delete sid e.other_sessions
          ])
  unfolding IsSized
  kept_sessions e sid old h =
      let others = All-delete _ sid e.other_sessions h.other_bytes in
      elim (Option-cases (find e.session_id (delete sid e.other_sessions))) [
        | inl new ↦
            rw new
              (All-insert _ e.session_id old (delete sid e.other_sessions) h.session_bytes others)
        | inr (s, known) ↦ rw known others
      ]

  -- Timers and measurements have no part in this.
  pub IsSized-hub :
      (e : Engine F) (hub : TimerHub) (ms : List (NodeId × Measurer F))
      → IsSized e
      → IsSized (record e { hub = hub; measurements = ms })
  IsSized-hub e hub ms h = IsSized-same _ _ h refl

  session_size : (e : Engine F) → IsSized e → length e.session_id ≡ 8
  unfolding IsSized
  session_size e h = h.session_bytes

  known_session :
      (e : Engine F) (sid : NodeId) {s : SessionEntry F}
      → find sid e.other_sessions ≡ some s
      → IsSized e
      → length sid ≡ 8
  unfolding IsSized
  known_session e sid f h = All-find (λ s. length s.0 ≡ 8) sid e.other_sessions f h.other_bytes

module _ {F : Type 0} ⦃fl : Float64 F⦄ where
  pub IsSized-schedule_remeasure : (e : Engine F) → IsSized e → IsSized (schedule_remeasure e)
  unfolding schedule_remeasure
  IsSized-schedule_remeasure e h = IsSized-same _ _ h refl

  pub IsSized-send_ping :
      (sid : NodeId) (to : UdpAddr) (host prev : Micros) (e : Engine F)
      → IsSized e
      → IsSized (send_ping sid to host prev e)
  unfolding send_ping
  IsSized-send_ping sid to host prev e h =
      IsSized-send _ _ _ (is_some-encode_link_message link_ping _ (room_for_ping host prev))
        (λ m. tt) (IsSized-same _ _ h refl)

  module _ (w : World) where
    pub IsSized-start_measurement :
        (sid : NodeId) (to : UdpAddr) (e : Engine F)
        → IsSized e
        → IsSized (start_measurement w sid to e)
    unfolding start_measurement
    IsSized-start_measurement sid to e h =
        let m : Measurer F = record {
          session_id = sid;
          target = to;
          points = [];
          started = 0;
          last_host = pos 0;
          last_ghost = pos 0;
          timer_id = 0;
        } in
        let begun = tick (record e { measurements = insert sid m e.measurements }) in
        IsSized-hub _ _ _
          (IsSized-send_ping sid to (w.micros e.reads) (pos 0) begun (IsSized-same begun e h refl))

    pub IsSized-handle_ping :
        (from : UdpAddr) (payload : List ℕ) (e : Engine F)
        → IsSized e
        → IsSized (handle_ping w from payload e)
    unfolding handle_ping encode_micros_entry be_bytes
    IsSized-handle_ping from payload e h =
        IsSized-send _ _ _
          (is_some-encode_link_message link_pong _ (omega (arith, session_size e h))) (λ m. tt)
          (IsSized-same _ _ h refl)

    module _ (ids : (k : ℕ) → length (w.random k) ≡ 8) where
      IsSized-join_session :
          (sid : NodeId) (s : SessionEntry F) (xform : GhostXForm F) (e : Engine F)
          → length sid ≡ 8
          → IsSized e
          → IsSized (join_session w sid s xform e)
      unfolding join_session
      IsSized-join_session sid s xform e bytes h = IsSized-schedule_remeasure _ (
          IsSized-session_membership_changed w ids _ (
            IsSized-broadcast w _ (
              IsSized-update_session_timing w _ _ _
                (IsSized-same _ _ (IsSized-move e sid _ bytes (kept_sessions e sid _ h) h) refl))))

      pub IsSized-handle_session_measurement_result :
          (sid : NodeId) (xform : GhostXForm F) (e : Engine F)
          → IsSized e
          → IsSized (handle_session_measurement_result w sid xform e)
      unfolding handle_session_measurement_result
      IsSized-handle_session_measurement_result sid xform e h =
          IsSized-if (eq_node_id sid e.session_id) _ _
            (IsSized-schedule_remeasure _ (
              IsSized-if _ _ _ h (IsSized-broadcast w _ (IsSized-update_session_timing w _ _ _ h))))
            (elim (Option-cases (find sid e.other_sessions)) [
              | inl missing ↦ rw missing h
              | inr (s, known) ↦ rw known (
                  IsSized-if _ _ _ (IsSized-delete_session sid e h) (
                    IsSized-if _ _ _
                      (IsSized-join_session sid s xform (tick e) (known_session e sid known h)
                        (IsSized-same _ _ h refl))
                      (IsSized-same _ _ h refl)))
            ])
