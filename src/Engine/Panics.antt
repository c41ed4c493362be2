-- ===== src/Engine/Panics.antt =====
-- Which rounds of the loop of link/engine.go panic.
use abletonlink_client_go.Base.{◌≡◌, refl, sym, ◌&&◌, Bool, true, some, List, [], ◌∷◌, ltb}
use abletonlink_client_go.Base.Int.{pos}
use abletonlink_client_go.Base.Int64.{add64}
use abletonlink_client_go.Base.Results.{
  is_some, is_some-bind, is_some-bind_after, is_some-bind_and, is_some-bind_last, is_some-if,
}
use abletonlink_client_go.Float.{Float64}
use abletonlink_client_go.Clock.{Micros}
use abletonlink_client_go.Beats.{Beats, greater, next_phase_match, beats_from_float}
use abletonlink_client_go.Timeline.{
  to_phase_encoded_beats, from_phase_encoded_beats, force_beat_at_time_impl,
}
use abletonlink_client_go.Timeline.Panics.{
  is_nonzero, is_some-next_phase_match, is_some-to_phase_encoded_beats,
  is_some-from_phase_encoded_beats, is_some-force_beat_at_time_impl,
}
use abletonlink_client_go.Engine.State.{World, Engine}
use abletonlink_client_go.Engine.Client.{apply_force_beat_at_time, apply_request_beat_at_time}
use abletonlink_client_go.Engine.Loop.{
  change_tempo, request_beat, force_beat, change_playing, enable, enable_start_stop_sync, Event,
  discovery_packet, measurement_packet, broadcast_tick, prune_tick, command, timer, run_command,
  step, run,
}

module _ {F : Type 0} where
  -- A beat command with a quantum that rounds to zero micro-beats.
  abbrev pub is_harmless : Event F → Bool
  is_harmless (command (request_beat beat at quantum)) = is_nonzero quantum
  is_harmless (command (force_beat beat at quantum)) = is_nonzero quantum
  is_harmless (command (change_tempo bpm at)) = true
  is_harmless (command (change_playing playing at)) = true
  is_harmless (command (enable v)) = true
  is_harmless (command (enable_start_stop_sync v)) = true
  is_harmless (discovery_packet from bytes) = true
  is_harmless (measurement_packet from bytes) = true
  is_harmless broadcast_tick = true
  is_harmless prune_tick = true
  is_harmless (timer id) = true

  abbrev pub all_harmless : List (Event F) → Bool
  all_harmless [] = true
  all_harmless (x ∷ xs) = is_harmless x && all_harmless xs

module _ {F : Type 0} ⦃fl : Float64 F⦄ (w : World) where
  is_some-apply_force_beat_at_time :
      (beat : F) (at : Micros) (q : Beats) (e : Engine F)
      → is_some (apply_force_beat_at_time w beat at q e) ≡ is_nonzero q
  unfolding apply_force_beat_at_time
  is_some-apply_force_beat_at_time beat at q e =
      let b = beats_from_float beat in
      is_some-bind _ (force_beat_at_time_impl e.client_timeline b at q) _
        (is_some-force_beat_at_time_impl e.client_timeline b at q)
        λ forced.
          is_some-bind_after _ (to_phase_encoded_beats forced at q) _
            (is_some-to_phase_encoded_beats forced at q)
            λ reached nonzero.
              is_some-bind_last _ _ _
                (is_some-if _ (greater reached b) _ (some forced)
                  (is_some-force_beat_at_time_impl forced b (add64 at (pos 1)) q) (sym nonzero))
                λ tl. refl

  is_some-apply_request_beat_at_time :
      (beat : F) (at : Micros) (q : Beats) (e : Engine F)
      → is_some (apply_request_beat_at_time w beat at q e) ≡ is_nonzero q
  unfolding apply_request_beat_at_time
  is_some-apply_request_beat_at_time beat at q e =
      is_some-if _ (ltb 0 e.session_peer_nbr) _ _
        (is_some-bind _ (to_phase_encoded_beats e.client_timeline at q) _
          (is_some-to_phase_encoded_beats e.client_timeline at q)
          λ current.
            is_some-bind _ (next_phase_match current (beats_from_float beat) q) _
              (is_some-next_phase_match current (beats_from_float beat) q)
              λ next.
                is_some-bind _ (from_phase_encoded_beats e.client_timeline next q) _
                  (is_some-from_phase_encoded_beats e.client_timeline next q)
                  λ quantized. is_some-apply_force_beat_at_time beat quantized q e)
        (is_some-apply_force_beat_at_time beat at q e)

  pub is_some-step : (x : Event F) (e : Engine F) → is_some (step w x e) ≡ is_harmless x
  unfolding step run_command
  is_some-step (command (request_beat beat at q)) e = is_some-apply_request_beat_at_time beat at q e
  is_some-step (command (force_beat beat at q)) e = is_some-apply_force_beat_at_time beat at q e
  is_some-step (command (change_tempo bpm at)) e = refl
  is_some-step (command (change_playing playing at)) e = refl
  is_some-step (command (enable v)) e = refl
  is_some-step (command (enable_start_stop_sync v)) e = refl
  is_some-step (discovery_packet from bytes) e = refl
  is_some-step (measurement_packet from bytes) e = refl
  is_some-step broadcast_tick e = refl
  is_some-step prune_tick e = refl
  is_some-step (timer id) e = refl

  -- From any state the loop serves a list of events to the end, if and only if none of them is a
  -- request or force of a beat with a quantum of zero micro-beats: no packet, timer, tick or
  -- other command makes it stop, and such a beat command always does. The panic of an encoder is
  -- an effect and is not counted here.
  pub is_some-run : (xs : List (Event F)) (e : Engine F) → is_some (run w xs e) ≡ all_harmless xs
  unfolding run
  is_some-run [] e = refl
  is_some-run (x ∷ xs) e =
      is_some-bind_and (is_harmless x) (all_harmless xs) (step w x e) _ (is_some-step x e)
        (is_some-run xs)
