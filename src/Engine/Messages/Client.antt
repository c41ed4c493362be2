-- ===== src/Engine/Messages/Client.antt =====
-- What the client's commands need of the identifiers, and keep (link/engine.go).
use abletonlink_client_go.Base.{ℕ, ◌≡◌, refl, Bool, true, false, some, length, if◌then◌else◌, ltb}
use abletonlink_client_go.Base.Int.{pos}
use abletonlink_client_go.Base.Int64.{add64}
use abletonlink_client_go.Base.Results.{OnResult, returns, OnResult-bind, OnResult-if}
use abletonlink_client_go.Float.{Float64}
use abletonlink_client_go.Clock.{Micros}
use abletonlink_client_go.Beats.{Beats, beats_from_float, greater, next_phase_match}
use abletonlink_client_go.Timeline.{
  force_beat_at_time_impl, to_phase_encoded_beats, from_phase_encoded_beats,
}
use abletonlink_client_go.NodeId.{NodeId}
use abletonlink_client_go.Timeline.{Timeline}
use abletonlink_client_go.Engine.State.{World, Engine}
use abletonlink_client_go.Engine.Client.{
  cache_timeline, commit_client_timeline, apply_tempo_change, apply_playing_change, set_enabled,
  apply_force_beat_at_time, apply_request_beat_at_time,
}
use abletonlink_client_go.Engine.Messages.Frame.{
  IsSized, IsSized-same, IsSized-if, IsSized-peers, IsSized-broadcast, IsSized-report,
  IsSized-publish, IsSized-send_bye_bye, IsSized-update_session_timing, IsSized-reset_state,
  IsSized-alone,
}
use abletonlink_client_go.Engine.Messages.Tables.{All-cache_timeline}
use abletonlink_client_go.Engine.Messages.Peers.{peer_sizes}

module _ {F : Type 0} ⦃fl : Float64 F⦄ (w : World) where
  cached :
      (sid : NodeId) (tl : Timeline F) (e : Engine F)
      → IsSized e
      → IsSized (record e { peers = cache_timeline sid tl e.peers })
  cached sid tl e h = IsSized-peers e _ (All-cache_timeline sid tl e.peers (peer_sizes e h)) h

  IsSized-commit_client_timeline :
      (at : Micros) (e : Engine F) → IsSized e → IsSized (commit_client_timeline w at e)
  unfolding commit_client_timeline
  IsSized-commit_client_timeline at e h =
      IsSized-broadcast w _ (cached _ _ _ (IsSized-update_session_timing w _ _ e h))

  pub IsSized-apply_tempo_change :
      (bpm : F) (at : Micros) (e : Engine F) → IsSized e → IsSized (apply_tempo_change w bpm at e)
  unfolding apply_tempo_change
  IsSized-apply_tempo_change bpm at e h =
      IsSized-commit_client_timeline at _ (IsSized-same _ _ h refl)

  pub IsSized-apply_playing_change :
      (playing : Bool) (at : Micros) (e : Engine F)
      → IsSized e
      → IsSized (apply_playing_change w playing at e)
  unfolding apply_playing_change
  IsSized-apply_playing_change playing at e h =
      let client = IsSized-if _ _ _ (IsSized-same _ _ h refl) h in
      IsSized-publish _ (
        IsSized-report _
          (IsSized-if _ _ _ (IsSized-broadcast w _ (IsSized-same _ _ client refl)) client))

  -- Every state that a command may leave: none, if it panics.
  pub IsSized-apply_force_beat_at_time :
      (beat : F) (at : Micros) (quantum : Beats) (e : Engine F)
      → IsSized e
      → OnResult IsSized (apply_force_beat_at_time w beat at quantum e)
  unfolding apply_force_beat_at_time
  IsSized-apply_force_beat_at_time beat at quantum e h =
      let beat_b = beats_from_float beat in
      OnResult-bind _ (force_beat_at_time_impl e.client_timeline beat_b at quantum) _ λ forced.
        OnResult-bind _ (to_phase_encoded_beats forced at quantum) _ λ reached.
          OnResult-bind _
            (if greater reached beat_b
              then force_beat_at_time_impl forced beat_b (add64 at (pos 1)) quantum
              else some forced)
            _ λ tl. returns (IsSized-commit_client_timeline at _ (IsSized-same _ _ h refl))

  pub IsSized-apply_request_beat_at_time :
      (beat : F) (at : Micros) (quantum : Beats) (e : Engine F)
      → IsSized e
      → OnResult IsSized (apply_request_beat_at_time w beat at quantum e)
  unfolding apply_request_beat_at_time
  IsSized-apply_request_beat_at_time beat at quantum e h =
      OnResult-if _ (ltb 0 e.session_peer_nbr) _ _
        (OnResult-bind _ (to_phase_encoded_beats e.client_timeline at quantum) _ λ current.
          OnResult-bind _ (next_phase_match current (beats_from_float beat) quantum) _ λ next.
            OnResult-bind _ (from_phase_encoded_beats e.client_timeline next quantum) _
              λ quantized. IsSized-apply_force_beat_at_time beat quantized quantum e h)
        (IsSized-apply_force_beat_at_time beat at quantum e h)

  pub IsSized-set_enabled :
      ((k : ℕ) → length (w.random k) ≡ 8)
      → (v : Bool) (e : Engine F) → IsSized e
      → IsSized (set_enabled w v e)
  unfolding set_enabled
  IsSized-set_enabled ids true e h =
      IsSized-if _ _ _ h
        (IsSized-broadcast w _ (IsSized-reset_state w ids _ (IsSized-same _ _ h refl)))
  IsSized-set_enabled ids false e h = IsSized-if _ _ _ h (
      IsSized-publish _ (
        IsSized-same _ _
          (IsSized-alone _
            (IsSized-send_bye_bye w (record e { enabled_flag = false }) (IsSized-same _ e h refl)))
          refl))
