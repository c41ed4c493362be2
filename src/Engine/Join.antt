-- ===== src/Engine/Join.antt =====
-- The outcome of a clock measurement in link/engine.go: refresh the own session's clock, or decide
-- whether to join another session.
use abletonlink_client_go.Base.{Bool, none, some, List, ◌&&◌, ◌||◌, ◌==◌, if◌then◌else◌}
use abletonlink_client_go.Base.Int.{ℤ, pos, ltb_ℤ}
use abletonlink_client_go.Base.Int64.{sub64}
use abletonlink_client_go.Base.Map.{find, delete, insert}
use abletonlink_client_go.Float.{Float64}
use abletonlink_client_go.Beats.{abs64}
use abletonlink_client_go.NodeId.{NodeId, eq_node_id, compare_node_id}
use abletonlink_client_go.Timeline.{GhostXForm, eq_xform, zero_xform, host_to_ghost}
use abletonlink_client_go.PeerState.{zero_start_stop}
use abletonlink_client_go.Engine.State.{
  World, Engine, SessionEntry, remeasure, remeasure_after, session_epsilon, tick, node_id_key,
}
use abletonlink_client_go.Engine.Hub.{after, cancel, next_id}
use abletonlink_client_go.Engine.Session.{
  broadcast, update_session_timing, session_membership_changed,
}

-- The test by which a measured session wins, from the two ghost times of one moment.
unfoldable pub session_wins : NodeId → NodeId → ℤ → Bool
session_wins sid current ghost_diff =
    ltb_ℤ (pos session_epsilon) ghost_diff
    || (ltb_ℤ (abs64 ghost_diff) (pos session_epsilon)
        && ltb_ℤ (compare_node_id sid current) (pos 0))

module _ {F : Type 0} ⦃fl : Float64 F⦄ where
  unfoldable pub schedule_remeasure : Engine F → Engine F
  schedule_remeasure e =
      let hub = if e.remeasure_id == 0 then e.hub else cancel e.remeasure_id e.hub in
      record e { remeasure_id = next_id hub; hub = after (pos remeasure_after) remeasure hub }

  module _ (w : World) where
    unfoldable pub join_session : NodeId → SessionEntry F → GhostXForm F → Engine F → Engine F
    unfolding schedule_remeasure
    join_session sid s xform e =
        let others = delete sid e.other_sessions in
        let old : SessionEntry F = record { timeline = e.session_timeline } in
        let kept : List (NodeId × SessionEntry F) = elim (find e.session_id others) [
          | none ↦ insert e.session_id old others
          | some known ↦ others
        ] in
        let moved = record e {
          other_sessions = kept;
          session_id = sid;
          session_start_stop = zero_start_stop;
        } in
        schedule_remeasure (
          session_membership_changed w
            (broadcast w (update_session_timing w s.timeline xform moved)))

    abbrev refresh_session : GhostXForm F → Engine F → Engine F
    refresh_session xform e = schedule_remeasure (
        if eq_xform xform zero_xform
        then e
        else broadcast w (update_session_timing w e.session_timeline xform e))

    abbrev judge_session : NodeId → GhostXForm F → SessionEntry F → Engine F → Engine F
    judge_session sid xform s e =
        let now = w.micros e.reads in
        let ghost_diff = sub64 (host_to_ghost xform now) (host_to_ghost e.session_xform now) in
        if eq_xform xform zero_xform
        then record e { other_sessions = delete sid e.other_sessions }
        else if session_wins sid e.session_id ghost_diff
        then join_session sid s xform (tick e)
        else tick e

    unfoldable pub handle_session_measurement_result : NodeId → GhostXForm F → Engine F → Engine F
    unfolding join_session session_wins schedule_remeasure
    handle_session_measurement_result sid xform e =
        if eq_node_id sid e.session_id
        then refresh_session xform e
        else elim (find sid e.other_sessions) [ none ↦ e | some s ↦ judge_session sid xform s e ]
