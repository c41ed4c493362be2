-- ===== src/Engine/Loop.antt =====
-- The event loop of link/engine.go and the commands that link/link.go sends to it. An event is what
-- one round of the select takes from a channel; the order of rounds is the scheduler's.
use abletonlink_client_go.Base.{
  ℕ, Bool, false, Option, none, some, List, [], ◌∷◌, ◌||◌, ◌>>=◌, if◌then◌else◌,
}
use abletonlink_client_go.Base.Int.{pos}
use abletonlink_client_go.Float.{Float64}
use abletonlink_client_go.Clock.{Micros}
use abletonlink_client_go.Beats.{Beats, beats}
use abletonlink_client_go.NodeId.{zero_node_id}
use abletonlink_client_go.Timeline.{
  Timeline, tempo_from_bpm, clamp_tempo, init_xform, ghost_to_host, min_bpm, max_bpm,
}
use abletonlink_client_go.PeerState.{UdpAddr, zero_start_stop, zero_timeline}
use abletonlink_client_go.Engine.State.{
  World, Engine, Callback, deferred_broadcast, remeasure, measurer_timer_fired,
}
use abletonlink_client_go.Engine.Hub.{fire, stop_all}
use abletonlink_client_go.Engine.Session.{broadcast, broadcast_now, send_bye_bye, publish_snapshot}
use abletonlink_client_go.Engine.Join.{schedule_remeasure}
use abletonlink_client_go.Engine.Measurement.{
  handle_measurement_packet, launch_session_measurement, measurer_timer_fired_at,
}
use abletonlink_client_go.Engine.Discovery.{handle_discovery_packet, prune_peers}
use abletonlink_client_go.Engine.Client.{
  apply_tempo_change, apply_playing_change, apply_request_beat_at_time, apply_force_beat_at_time,
  set_enabled,
}

-- The commands of the public API, after the checks that it makes before it sends them.
pub data Command (F : Type 0) : Type 0 where
  change_tempo : F → Micros → Command F
  request_beat force_beat : F → Micros → Beats → Command F
  change_playing : Bool → Micros → Command F
  enable enable_start_stop_sync : Bool → Command F

pub data Event (F : Type 0) : Type 0 where
  discovery_packet measurement_packet : UdpAddr → List ℕ → Event F
  broadcast_tick prune_tick : Event F
  command : Command F → Event F
  timer : ℕ → Event F

module _ {F : Type 0} ⦃fl : Float64 F⦄ where
  -- SetTempo sends no command for a tempo out of range.
  unfoldable pub set_tempo : F → Micros → Option (Command F)
  set_tempo bpm at =
      if fl.lt bpm min_bpm || fl.lt max_bpm bpm then none else some (change_tempo bpm at)

  unfoldable pub tempo_or_default : F → F
  tempo_or_default tempo =
      if fl.lt tempo (fl.decimal 0 0) || fl.eq tempo (fl.decimal 0 0)
      then fl.decimal 120 0
      else tempo

  module _ (w : World) where
    unfoldable pub run_callback : Callback → Engine F → Engine F
    run_callback deferred_broadcast e = broadcast_now w (record e { broadcast_pending = false })
    run_callback remeasure e =
        schedule_remeasure
          (launch_session_measurement w e.session_id (record e { remeasure_id = 0 }))
    run_callback (measurer_timer_fired key) e = measurer_timer_fired_at w key e

    unfoldable pub fire_timer : ℕ → Engine F → Engine F
    unfolding run_callback
    fire_timer id e =
        let (hub, found) = fire id e.hub in
        elim found [ none ↦ e | some cb ↦ run_callback cb (record e { hub = hub }) ]

    unfoldable pub run_command : Command F → Engine F → Option (Engine F)
    run_command (change_tempo bpm at) e = some (apply_tempo_change w bpm at e)
    run_command (request_beat beat at quantum) e = apply_request_beat_at_time w beat at quantum e
    run_command (force_beat beat at quantum) e = apply_force_beat_at_time w beat at quantum e
    run_command (change_playing playing at) e = some (apply_playing_change w playing at e)
    run_command (enable v) e = some (set_enabled w v e)
    run_command (enable_start_stop_sync v) e = some (record e { start_stop_sync = v })

    -- One round of the loop; `none` is a panic of the engine's goroutine.
    unfoldable pub step : Event F → Engine F → Option (Engine F)
    unfolding fire_timer run_command
    step (discovery_packet from bytes) e = some (handle_discovery_packet w from bytes e)
    step (measurement_packet from bytes) e = some (handle_measurement_packet w from bytes e)
    step broadcast_tick e = some (broadcast w e)
    step prune_tick e = some (prune_peers w e)
    step (command c) e = run_command c e
    step (timer id) e = some (fire_timer id e)

    unfoldable pub run : List (Event F) → Engine F → Option (Engine F)
    unfolding step
    run [] e = some e
    run (x ∷ xs) e = do e' ← step x e; run xs e'

    -- What the loop does when the done channel is closed.
    unfoldable pub shut_down : Engine F → Engine F
    shut_down e =
        let left = if e.enabled_flag then send_bye_bye w e else e in
        record left { hub = stop_all left.hub }

    -- newEngine, initSessionState and the first snapshot, as New calls them.
    unfoldable pub init : F → Bool → Engine F
    init tempo sync =
        let now = w.micros 0 in
        let id = w.random 0 in
        let xform = init_xform {F = F} now in
        let session_timeline : Timeline F = clamp_tempo (record {
          tempo = tempo_from_bpm (tempo_or_default tempo);
          beat_origin = beats (pos 0);
          time_origin = pos 0;
        }) in
        let host_time = ghost_to_host xform (pos 0) in
        publish_snapshot (record {
          node_id = id;
          session_id = id;
          session_timeline = session_timeline;
          session_xform = xform;
          session_start_stop = zero_start_stop;
          client_timeline = record session_timeline { time_origin = host_time };
          client_start_stop = record {
            is_playing = false;
            time = host_time;
            timestamp = host_time;
          };
          last_playing_cb = false;
          start_stop_sync = sync;
          enabled_flag = false;
          peers = [];
          other_sessions = [];
          measurements = [];
          session_peer_nbr = 0;
          last_broadcast = 0;
          broadcast_pending = false;
          broadcast_timer_id = 0;
          remeasure_id = 0;
          hub = record { seq = 0; tim = []; cbs = [] };
          snap = record {
            enabled = false;
            num_peers = 0;
            tempo = fl.decimal 0 0;
            playing = false;
            timeline = zero_timeline;
            node_id = zero_node_id;
            session_id = zero_node_id;
            peers = [];
          };
          effects = [];
          reads = 1;
          draws = 1;
        })
