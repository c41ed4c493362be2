-- ===== src/Engine/Messages/Reachable.antt =====
-- That no message is too long in any state that the loop of link/engine.go reaches.
use abletonlink_client_go.Base.{
  ℕ, ◌≡◌, inl, inr, refl, ◌∙◌, Bool, true, List, [], ◌∷◌, All, length, Option-cases,
}
use abletonlink_client_go.Base.Map.{find, nat_key}
use abletonlink_client_go.Base.Results.{
  OnResult, returns, OnResult-then, Returns, Returns-implies, Returns-OnResult,
}
use abletonlink_client_go.Float.{Float64}
use abletonlink_client_go.Engine.State.{
  World, Engine, Callback, deferred_broadcast, remeasure, measurer_timer_fired,
}
use abletonlink_client_go.Engine.Hub.{fire}
use abletonlink_client_go.Engine.Session.{publish_snapshot}
use abletonlink_client_go.Engine.Loop.{
  Command, change_tempo, request_beat, force_beat, change_playing, enable, enable_start_stop_sync,
  Event, discovery_packet, measurement_packet, broadcast_tick, prune_tick, command, timer,
  run_callback, fire_timer, run_command, step, run, init, shut_down,
}
use abletonlink_client_go.Engine.Panics.{all_harmless, is_some-run}
use abletonlink_client_go.Engine.Messages.Frame.{
  IsQuiet, IsSized, IsSized-same, IsSized-if, IsSized-broadcast_now, IsSized-broadcast,
  IsSized-send_bye_bye,
}
use abletonlink_client_go.Engine.Messages.Sessions.{IsSized-schedule_remeasure}
use abletonlink_client_go.Engine.Messages.Measuring.{
  IsSized-handle_measurement_packet, IsSized-measurer_timer_fired,
  IsSized-launch_session_measurement,
}
use abletonlink_client_go.Engine.Messages.Peers.{
  IsSized-handle_discovery_packet, IsSized-prune_peers,
}
use abletonlink_client_go.Engine.Messages.Client.{
  IsSized-apply_tempo_change, IsSized-apply_playing_change, IsSized-set_enabled,
  IsSized-apply_force_beat_at_time, IsSized-apply_request_beat_at_time,
}

module _ {F : Type 0} ⦃fl : Float64 F⦄ (w : World) (ids : (k : ℕ) → length (w.random k) ≡ 8) where
  IsSized-run_callback : (cb : Callback) (e : Engine F) → IsSized e → IsSized (run_callback w cb e)
  unfolding run_callback
  IsSized-run_callback deferred_broadcast e h = IsSized-broadcast_now w _ (IsSized-same _ _ h refl)
  IsSized-run_callback remeasure e h =
      IsSized-schedule_remeasure _
        (IsSized-launch_session_measurement w ids e.session_id _ (IsSized-same _ _ h refl))
  IsSized-run_callback (measurer_timer_fired key) e h = IsSized-measurer_timer_fired w ids key e h

  IsSized-fire_timer : (id : ℕ) (e : Engine F) → IsSized e → IsSized (fire_timer w id e)
  unfolding fire_timer fire
  IsSized-fire_timer id e h = elim (Option-cases (find id e.hub.cbs)) [
    | inl missing ↦ rw (fire_timer, missing) h
    | inr (cb, known) ↦ rw (fire_timer, known) (IsSized-run_callback cb _ (IsSized-same _ _ h refl))
  ]

  run_command-IsSized :
      (c : Command F) (e : Engine F) → IsSized e → OnResult IsSized (run_command w c e)
  unfolding run_command
  run_command-IsSized (change_tempo bpm at) e h = returns (IsSized-apply_tempo_change w bpm at e h)
  run_command-IsSized (request_beat beat at quantum) e h =
      IsSized-apply_request_beat_at_time w beat at quantum e h
  run_command-IsSized (force_beat beat at quantum) e h =
      IsSized-apply_force_beat_at_time w beat at quantum e h
  run_command-IsSized (change_playing playing at) e h =
      returns (IsSized-apply_playing_change w playing at e h)
  run_command-IsSized (enable v) e h = returns (IsSized-set_enabled w ids v e h)
  run_command-IsSized (enable_start_stop_sync v) e h = returns (IsSized-same _ _ h refl)

  pub step-IsSized : (x : Event F) (e : Engine F) → IsSized e → OnResult IsSized (step w x e)
  unfolding step
  step-IsSized (discovery_packet from bytes) e h =
      returns (IsSized-handle_discovery_packet w ids from bytes e h)
  step-IsSized (measurement_packet from bytes) e h =
      returns (IsSized-handle_measurement_packet w ids from bytes e h)
  step-IsSized broadcast_tick e h = returns (IsSized-broadcast w e h)
  step-IsSized prune_tick e h = returns (IsSized-prune_peers w ids e h)
  step-IsSized (command c) e h = run_command-IsSized c e h
  step-IsSized (timer id) e h = returns (IsSized-fire_timer id e h)

  run-IsSized : (xs : List (Event F)) (e : Engine F) → IsSized e → OnResult IsSized (run w xs e)
  unfolding run
  run-IsSized [] e h = returns h
  run-IsSized (x ∷ xs) e h =
      OnResult-then _ _ (step w x e) _ (step-IsSized x e h) (λ e'. run-IsSized xs e')

  pub init-IsSized : (tempo : F) (sync : Bool) → IsSized (init w tempo sync)
  unfolding init publish_snapshot IsSized
  init-IsSized tempo sync = record {
    own_bytes = ids 0;
    session_bytes = ids 0;
    peer_bytes = tt;
    other_bytes = tt;
    quiet = tt;
  }

  shut_down-IsSized : (e : Engine F) → IsSized e → IsSized (shut_down w e)
  unfolding shut_down
  shut_down-IsSized e h =
      IsSized-same _ _ (IsSized-if e.enabled_flag _ _ (IsSized-send_bye_bye w e h) h) refl

  shut_down-IsQuiet : (e : Engine F) → IsSized e → All IsQuiet (shut_down w e).effects
  unfolding IsSized
  shut_down-IsQuiet e h = (shut_down-IsSized e h).quiet

  -- If the random source fills all eight bytes of an identifier: from a new engine the loop serves
  -- any events, in any order and with any clock, to the end and then shuts down, and no encoder of
  -- a message has panicked on the way; but for requests and forces of a beat with a quantum of zero
  -- micro-beats, which must not be among the events.
  pub run-init-IsQuiet :
      (tempo : F) (sync : Bool) (xs : List (Event F))
      → all_harmless xs ≡ true
      → Returns (λ e. All IsQuiet (shut_down w e).effects) (run w xs (init w tempo sync))
  run-init-IsQuiet tempo sync xs harmless =
      Returns-implies IsSized _ (run w xs (init w tempo sync))
        (Returns-OnResult (run-IsSized xs _ (init-IsSized tempo sync))
          (is_some-run w xs _ ∙ harmless))
        (λ e h. shut_down-IsQuiet e h)
