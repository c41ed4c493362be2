-- ===== src/Engine/Client.antt =====
-- The commands of the public API in link/engine.go: tempo, transport, beat alignment and
-- participation. `none` is the run-time panic of an integer division by zero.
use abletonlink_client_go.Base.{
  Bool, Option, some, List, [], ◌∷◌, ◌&&◌, eqb, ltb, ◌>>=◌, if◌then◌else◌,
}
use abletonlink_client_go.Base.Int.{pos, ltb_ℤ, leb_ℤ}
use abletonlink_client_go.Base.Int64.{add64}
use abletonlink_client_go.Float.{Float64}
use abletonlink_client_go.Clock.{Micros}
use abletonlink_client_go.Beats.{Beats, greater, next_phase_match, beats_from_float}
use abletonlink_client_go.NodeId.{NodeId, eq_node_id}
use abletonlink_client_go.Timeline.{
  Timeline, tempo_from_bpm, clamp_tempo, to_beats, from_beats, host_to_ghost,
  to_phase_encoded_beats, from_phase_encoded_beats, force_beat_at_time_impl,
  update_session_timeline_from_client,
}
use abletonlink_client_go.Engine.State.{World, Engine, PeerEntry}
use abletonlink_client_go.Engine.Session.{
  broadcast, update_session_timing, report_playing_if_changed, publish_snapshot, reset_state,
  send_bye_bye,
}

module _ {F : Type 0} where
  -- The timeline that the peers of a session are expected to take over.
  unfoldable pub cache_timeline :
      NodeId → Timeline F → List (NodeId × PeerEntry F) → List (NodeId × PeerEntry F)
  cache_timeline sid tl [] = []
  cache_timeline sid tl ((id, p) ∷ ps) =
      let rest = cache_timeline sid tl ps in
      if eq_node_id p.state.session_id sid
      then (
        id,
        record p {
          state = record p.state { node = record p.state.node { timeline = tl } };
          tl_propagated = tl;
        },
      )
        ∷ rest
      else (id, p) ∷ rest

module _ {F : Type 0} ⦃fl : Float64 F⦄ where
  module _ (w : World) where
    unfoldable pub commit_client_timeline : Micros → Engine F → Engine F
    commit_client_timeline at e =
        let stl =
          update_session_timeline_from_client e.session_timeline e.client_timeline at
            e.session_xform in
        let timed = update_session_timing w stl e.session_xform e in
        broadcast w (record timed {
          peers = cache_timeline timed.session_id timed.session_timeline timed.peers;
        })

    unfoldable pub apply_tempo_change : F → Micros → Engine F → Engine F
    unfolding commit_client_timeline
    apply_tempo_change bpm at e =
        let desired = clamp_tempo (record {
          tempo = tempo_from_bpm bpm;
          beat_origin = to_beats e.client_timeline at;
          time_origin = at;
        }) in
        commit_client_timeline at (record e {
          client_timeline = record e.client_timeline {
            tempo = desired.tempo;
            time_origin = from_beats desired e.client_timeline.beat_origin;
          };
        })

    unfoldable pub apply_playing_change : Bool → Micros → Engine F → Engine F
    apply_playing_change playing at e =
        let client =
          if leb_ℤ e.client_start_stop.timestamp at
          then record e {
            client_start_stop = record { is_playing = playing; time = at; timestamp = at };
          }
          else e in
        let ghost_ts = host_to_ghost e.session_xform at in
        let session =
          if e.start_stop_sync && ltb_ℤ e.session_start_stop.timestamp ghost_ts
          then broadcast w (record client {
            session_start_stop = record {
              is_playing = playing;
              beat = to_beats e.session_timeline (host_to_ghost e.session_xform at);
              timestamp = ghost_ts;
            };
          })
          else client in
        publish_snapshot (report_playing_if_changed session)

    unfoldable pub apply_force_beat_at_time : F → Micros → Beats → Engine F → Option (Engine F)
    unfolding commit_client_timeline
    apply_force_beat_at_time beat at quantum e =
        let beat_b = beats_from_float beat in
        do
          forced ← force_beat_at_time_impl e.client_timeline beat_b at quantum
          reached ← to_phase_encoded_beats forced at quantum
          tl ←
              if greater reached beat_b
              then force_beat_at_time_impl forced beat_b (add64 at (pos 1)) quantum
              else some forced
          some (commit_client_timeline at (record e { client_timeline = tl }))

    unfoldable pub apply_request_beat_at_time : F → Micros → Beats → Engine F → Option (Engine F)
    unfolding apply_force_beat_at_time
    apply_request_beat_at_time beat at quantum e =
        if ltb 0 e.session_peer_nbr
        then (do
          current ← to_phase_encoded_beats e.client_timeline at quantum
          next ← next_phase_match current (beats_from_float beat) quantum
          quantized ← from_phase_encoded_beats e.client_timeline next quantum
          apply_force_beat_at_time beat quantized quantum e)
        else apply_force_beat_at_time beat at quantum e

    unfoldable pub set_enabled : Bool → Engine F → Engine F
    set_enabled v e =
        if eqb v e.enabled_flag
        then e
        else if v
        then broadcast w (reset_state w (record e { enabled_flag = v }))
        else publish_snapshot (record (send_bye_bye w (record e { enabled_flag = v })) {
          peers = [];
          other_sessions = [];
          session_peer_nbr = 0;
        })
