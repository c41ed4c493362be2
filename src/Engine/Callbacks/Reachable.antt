-- ===== src/Engine/Callbacks/Reachable.antt =====
-- What the application was told, in every state that the loop of link/engine.go reaches.
use abletonlink_client_go.Base.{
  ℕ, sym, false, ◌≡◌, inl, inr, refl, ◌∙◌, Bool, true, some, List, [], ◌∷◌, Option-cases,
}
use abletonlink_client_go.Base.Map.{find, nat_key}
use abletonlink_client_go.Base.Results.{OnResult, returns, OnResult-then, OnResult-some}
use abletonlink_client_go.Float.{Float64}
use abletonlink_client_go.Engine.State.{
  World, Engine, Callback, deferred_broadcast, remeasure, measurer_timer_fired, TimerHub,
}
use abletonlink_client_go.Engine.Hub.{fire}
use abletonlink_client_go.Engine.Session.{publish_snapshot}
use abletonlink_client_go.Engine.Loop.{
  Command, change_tempo, request_beat, force_beat, change_playing, enable, enable_start_stop_sync,
  Event, discovery_packet, measurement_packet, broadcast_tick, prune_tick, command, timer,
  run_callback, fire_timer, run_command, step, run, init,
}
use abletonlink_client_go.Engine.Callbacks.Heard.{
  last_tempo, last_playing, Agrees, alike, heard, IsTold, IsTold-of,
}
use abletonlink_client_go.Engine.Callbacks.Broadcasts.{
  heard-broadcast_now, heard-broadcast, heard-schedule_remeasure,
}
use abletonlink_client_go.Engine.Callbacks.Sessions.{
  IsTold-handle_measurement_packet, IsTold-measurer_timer_fired, IsTold-launch_session_measurement,
}
use abletonlink_client_go.Engine.Callbacks.Peers.{
  IsTold-handle_discovery_packet, IsTold-prune_peers,
}
use abletonlink_client_go.Engine.Callbacks.Client.{
  IsTold-apply_tempo_change, IsTold-apply_playing_change, IsTold-set_enabled,
  IsTold-apply_force_beat_at_time, IsTold-apply_request_beat_at_time,
}

module _ {F : Type 0} (first : F × Bool) where
  -- Timers and settings are not heard of.
  heard-pending :
      (e : Engine F) (b : Bool) (n : ℕ) (hub : TimerHub) (sync : Bool)
      → heard first
          (record e { broadcast_pending = b; remeasure_id = n; hub = hub; start_stop_sync = sync })
        ≡ heard first e
  unfolding heard
  heard-pending e b n hub sync = refl

module _ {F : Type 0} ⦃fl : Float64 F⦄ (first : F × Bool) (w : World) where
  IsTold-run_callback :
      (cb : Callback) (e : Engine F)
      → IsTold true true (heard first e)
      → IsTold true true (heard first (run_callback w cb e))
  unfolding run_callback
  IsTold-run_callback deferred_broadcast e h =
      IsTold-of (heard-broadcast_now first w _ ∙ heard-pending first e _ _ _ _) h
  IsTold-run_callback remeasure e h = IsTold-of (heard-schedule_remeasure first _) (
      IsTold-launch_session_measurement first w e.session_id _
        (IsTold-of (heard-pending first e _ _ _ _) h))
  IsTold-run_callback (measurer_timer_fired key) e h = IsTold-measurer_timer_fired first w key e h

  IsTold-fire_timer :
      (id : ℕ) (e : Engine F)
      → IsTold true true (heard first e)
      → IsTold true true (heard first (fire_timer w id e))
  unfolding fire_timer fire
  IsTold-fire_timer id e h = elim (Option-cases (find id e.hub.cbs)) [
    | inl missing ↦ rw (fire_timer, missing) h
    | inr (cb, known) ↦
        rw (fire_timer, known)
          (IsTold-run_callback cb _ (IsTold-of (heard-pending first e _ _ _ _) h))
  ]

  run_command-IsTold :
      (c : Command F) (e : Engine F)
      → IsTold true true (heard first e)
      → OnResult (λ x. IsTold true true (heard first x)) (run_command w c e)
  unfolding run_command
  run_command-IsTold (change_tempo bpm at) e h =
      returns (IsTold-apply_tempo_change first w bpm at e h)
  run_command-IsTold (request_beat beat at quantum) e h =
      IsTold-apply_request_beat_at_time first w beat at quantum e h
  run_command-IsTold (force_beat beat at quantum) e h =
      IsTold-apply_force_beat_at_time first w beat at quantum e h
  run_command-IsTold (change_playing playing at) e h =
      returns (IsTold-apply_playing_change first w playing at e h)
  run_command-IsTold (enable v) e h = returns (IsTold-set_enabled first w v e h)
  run_command-IsTold (enable_start_stop_sync v) e h =
      returns (IsTold-of (heard-pending first e _ _ _ _) h)

  pub step-IsTold :
      (x : Event F) (e : Engine F)
      → IsTold true true (heard first e)
      → OnResult (λ x. IsTold true true (heard first x)) (step w x e)
  unfolding step
  step-IsTold (discovery_packet from bytes) e h =
      returns (IsTold-handle_discovery_packet first w from bytes e h)
  step-IsTold (measurement_packet from bytes) e h =
      returns (IsTold-handle_measurement_packet first w from bytes e h)
  step-IsTold broadcast_tick e h = returns (IsTold-of (heard-broadcast first w e) h)
  step-IsTold prune_tick e h = returns (IsTold-prune_peers first w e h)
  step-IsTold (command c) e h = run_command-IsTold c e h
  step-IsTold (timer id) e h = returns (IsTold-fire_timer id e h)

  pub run-IsTold :
      (xs : List (Event F)) (e : Engine F)
      → IsTold true true (heard first e)
      → OnResult (λ x. IsTold true true (heard first x)) (run w xs e)
  unfolding run
  run-IsTold [] e h = returns h
  run-IsTold (x ∷ xs) e h =
      OnResult-then _ _ (step w x e) _ (step-IsTold x e h) (λ e'. run-IsTold xs e')

module _ {F : Type 0} ⦃fl : Float64 F⦄ where
  pub told_lem :
      (first : F × Bool) (e : Engine F)
      → IsTold true true (heard first e)
      → Agrees (last_tempo first.0 e.effects) e.snap.tempo
        × (last_playing first.1 e.effects ≡ e.snap.playing)
  unfolding heard
  told_lem first e h = (
    rw (h.tempo_shown refl) h.tempo_told,
    h.playing_told ∙ (h.last refl ∙ sym (h.playing_shown refl)),
  )

module _ {F : Type 0} ⦃fl : Float64 F⦄ (w : World) where
  pub init-IsTold :
      (tempo : F) (sync : Bool)
      → IsTold true true (heard ((init w tempo sync).snap.tempo, false) (init w tempo sync))
  unfolding init publish_snapshot heard
  init-IsTold tempo sync = record {
    tempo_told = alike;
    playing_told = refl;
    last = λ n. refl;
    tempo_shown = λ n. refl;
    playing_shown = λ n. refl;
  }

  -- Whoever starts from the tempo that a new Link shows and from a stopped transport, and follows the calls of the tempo callback
  -- and of the callback for the transport, knows what the Link shows: in every state that the loop
  -- reaches, by any events in any order and with any clock, the tempo of the last call is the tempo
  -- that Tempo returns, or compares as equal to it, through a chain of equal tempi; and the last call
  -- for the transport says what IsPlaying returns.
  pub run-init-told :
      (tempo : F) (sync : Bool) (xs : List (Event F)) {e : Engine F}
      → run w xs (init w tempo sync) ≡ some e
      → Agrees (last_tempo (init w tempo sync).snap.tempo e.effects) e.snap.tempo
        × (last_playing false e.effects ≡ e.snap.playing)
  run-init-told tempo sync xs {e} r =
      told_lem _ e (OnResult-some (run-IsTold _ w xs _ (init-IsTold tempo sync)) r)
