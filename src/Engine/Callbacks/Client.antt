-- ===== src/Engine/Callbacks/Client.antt =====
-- What the client's commands do to what the application was told (link/engine.go).
use abletonlink_client_go.Base.{[], ◌≡◌, ◌∙◌, refl, Bool, true, false, some, if◌then◌else◌, ltb}
use abletonlink_client_go.Base.Int.{pos, leb_ℤ}
use abletonlink_client_go.Base.Int64.{add64}
use abletonlink_client_go.Base.Results.{OnResult, returns, OnResult-bind, OnResult-if}
use abletonlink_client_go.Float.{Float64}
use abletonlink_client_go.Clock.{Micros}
use abletonlink_client_go.Beats.{Beats, beats_from_float, greater, next_phase_match}
use abletonlink_client_go.Timeline.{
  force_beat_at_time_impl, to_phase_encoded_beats, from_phase_encoded_beats,
}
use abletonlink_client_go.Timeline.{Timeline}
use abletonlink_client_go.Engine.State.{World, Engine}
use abletonlink_client_go.Engine.Client.{
  commit_client_timeline, apply_tempo_change, apply_playing_change, set_enabled,
  apply_force_beat_at_time, apply_request_beat_at_time,
}
use abletonlink_client_go.Engine.Callbacks.Heard.{heard, IsTold, IsTold-of, IsTold-if}
use abletonlink_client_go.Engine.Callbacks.Frame.{
  IsTold-client, IsTold-weaker, IsTold-report, IsTold-publish, IsTold-update_session_timing,
}
use abletonlink_client_go.Engine.Callbacks.Broadcasts.{
  heard-broadcast, heard-send_bye_bye, IsTold-reset_state,
}
use abletonlink_client_go.Engine.Callbacks.Peers.{heard-peers, heard-client, heard-start_stop}

module _ {F : Type 0} (first : F × Bool) where
  heard-client_timeline :
      (e : Engine F) (tl : Timeline F)
      → heard first (record e { client_timeline = tl }) ≡ heard first e
  unfolding heard
  heard-client_timeline e tl = refl

  heard-enabled :
      (e : Engine F) (v : Bool) → heard first (record e { enabled_flag = v }) ≡ heard first e
  unfolding heard
  heard-enabled e v = refl

  heard-forgotten :
      (e : Engine F)
      → heard first (record e { peers = []; other_sessions = []; session_peer_nbr = 0 })
        ≡ heard first e
  unfolding heard
  heard-forgotten e = refl

module _ {F : Type 0} ⦃fl : Float64 F⦄ (first : F × Bool) (w : World) where
  IsTold-commit_client_timeline :
      (at : Micros) (e : Engine F)
      → IsTold true true (heard first e)
      → IsTold true true (heard first (commit_client_timeline w at e))
  unfolding commit_client_timeline
  IsTold-commit_client_timeline at e h =
      IsTold-of (heard-broadcast first w _ ∙ heard-peers first _ _)
        (IsTold-update_session_timing first w _ _ e h)

  pub IsTold-apply_tempo_change :
      (bpm : F) (at : Micros) (e : Engine F)
      → IsTold true true (heard first e)
      → IsTold true true (heard first (apply_tempo_change w bpm at e))
  unfolding apply_tempo_change
  IsTold-apply_tempo_change bpm at e h =
      IsTold-commit_client_timeline at _ (IsTold-of (heard-client_timeline first e _) h)

  pub IsTold-apply_playing_change :
      (playing : Bool) (at : Micros) (e : Engine F)
      → IsTold true true (heard first e)
      → IsTold true true (heard first (apply_playing_change w playing at e))
  unfolding apply_playing_change
  IsTold-apply_playing_change playing at e h =
      let client =
        IsTold-if first (leb_ℤ e.client_start_stop.timestamp at) _ _
          (IsTold-of (heard-client first e _) (IsTold-client _ _ h)) (IsTold-weaker _ h) in
      IsTold-publish first _ (
        IsTold-report first _ (
          IsTold-if first _ _ _
            (IsTold-of (heard-broadcast first w _ ∙ heard-start_stop first _ _) client) client))

  -- Every state that a command may leave: none, if it panics.
  pub IsTold-apply_force_beat_at_time :
      (beat : F) (at : Micros) (quantum : Beats) (e : Engine F)
      → IsTold true true (heard first e)
      → OnResult
          (λ x. IsTold true true (heard first x))
          (apply_force_beat_at_time w beat at quantum e)
  unfolding apply_force_beat_at_time
  IsTold-apply_force_beat_at_time beat at quantum e h =
      let beat_b = beats_from_float beat in
      OnResult-bind _ (force_beat_at_time_impl e.client_timeline beat_b at quantum) _ λ forced.
        OnResult-bind _ (to_phase_encoded_beats forced at quantum) _ λ reached.
          OnResult-bind _
            (if greater reached beat_b
              then force_beat_at_time_impl forced beat_b (add64 at (pos 1)) quantum
              else some forced)
            _
            λ tl.
              returns
                (IsTold-commit_client_timeline at _ (IsTold-of (heard-client_timeline first e _) h))

  pub IsTold-apply_request_beat_at_time :
      (beat : F) (at : Micros) (quantum : Beats) (e : Engine F)
      → IsTold true true (heard first e)
      → OnResult
          (λ x. IsTold true true (heard first x))
          (apply_request_beat_at_time w beat at quantum e)
  unfolding apply_request_beat_at_time
  IsTold-apply_request_beat_at_time beat at quantum e h =
      OnResult-if _ (ltb 0 e.session_peer_nbr) _ _
        (OnResult-bind _ (to_phase_encoded_beats e.client_timeline at quantum) _ λ current.
          OnResult-bind _ (next_phase_match current (beats_from_float beat) quantum) _ λ next.
            OnResult-bind _ (from_phase_encoded_beats e.client_timeline next quantum) _
              λ quantized. IsTold-apply_force_beat_at_time beat quantized quantum e h)
        (IsTold-apply_force_beat_at_time beat at quantum e h)

  pub IsTold-set_enabled :
      (v : Bool) (e : Engine F)
      → IsTold true true (heard first e)
      → IsTold true true (heard first (set_enabled w v e))
  unfolding set_enabled
  IsTold-set_enabled true e h = IsTold-if first _ _ _ h (
      IsTold-of (heard-broadcast first w _)
        (IsTold-reset_state first w _ (IsTold-of (heard-enabled first e true) h)))
  IsTold-set_enabled false e h = IsTold-if first _ _ _ h (
      IsTold-publish first _ (
        IsTold-of
          (heard-forgotten first _ ∙ (heard-send_bye_bye first w _ ∙ heard-enabled first e false))
          h))
