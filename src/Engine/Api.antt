-- ===== src/Engine/Api.antt =====
-- The queries of link/link.go: they read the snapshot that the engine has published. A beat query
-- panics like the functions of link/timeline.go that it calls.
use abletonlink_client_go.Base.{ℕ, ◌+◌, ◌*◌, ◌^◌, ◌<◌, ◌≡◌, refl, Bool, Option, some, List, ◌>>=◌}
use abletonlink_client_go.Base.Int.{ℤ, pos, nat_abs}
use abletonlink_client_go.Base.Results.{is_some, is_some-bind_last}
use abletonlink_client_go.Float.{Float64}
use abletonlink_client_go.Clock.Wall.{micros_from_time, time_of_micros}
use abletonlink_client_go.Beats.{beats, phase, beats_from_float, float}
use abletonlink_client_go.Beats.Phase.{residue, phase-residue, residue-lt}
use abletonlink_client_go.NodeId.{NodeId}
use abletonlink_client_go.Timeline.{to_phase_encoded_beats, from_phase_encoded_beats}
use abletonlink_client_go.Timeline.Panics.{
  is_nonzero, is_some-phase, is_some-to_phase_encoded_beats, is_some-from_phase_encoded_beats,
}
use abletonlink_client_go.Engine.State.{Snapshot, Engine, PeerInfo}

module _ {F : Type 0} where
  abbrev pub is_enabled : Snapshot F → Bool
  is_enabled s = s.enabled

  abbrev pub num_peers : Snapshot F → ℕ
  num_peers s = s.num_peers

  -- The slice is copied.
  abbrev pub peers : Snapshot F → List (PeerInfo F)
  peers s = s.peers

  abbrev pub tempo : Snapshot F → F
  tempo s = s.tempo

  abbrev pub is_playing : Snapshot F → Bool
  is_playing s = s.playing

  abbrev pub node_id : Snapshot F → NodeId
  node_id s = s.node_id

  abbrev pub session_id : Snapshot F → NodeId
  session_id s = s.session_id

  -- This one reads the engine.
  abbrev pub start_stop_sync_enabled : Engine F → Bool
  start_stop_sync_enabled e = e.start_stop_sync

module _ {F : Type 0} ⦃fl : Float64 F⦄ (clock_start : ℤ) where
  unfoldable pub beat_at_time : Snapshot F → ℤ → F → Option F
  beat_at_time s at quantum = do
    b ←
        to_phase_encoded_beats s.timeline (micros_from_time clock_start at)
          (beats_from_float quantum)
    some (float b)

  unfoldable pub phase_at_time : Snapshot F → ℤ → F → Option F
  unfolding beat_at_time
  phase_at_time s at quantum = do
    beat ← beat_at_time s at quantum
    p ← phase (beats_from_float beat) (beats_from_float quantum)
    some (float p)

  unfoldable pub time_at_beat : Snapshot F → F → F → Option ℤ
  time_at_beat s beat quantum = do
    t ← from_phase_encoded_beats s.timeline (beats_from_float beat) (beats_from_float quantum)
    some (time_of_micros clock_start t)

  -- The three beat queries return for every snapshot, time and beat, if and only if the quantum is not
  -- zero in micro-beats.
  pub queries-is_some :
      (s : Snapshot F) (at : ℤ) (beat quantum : F)
      → let returns = is_nonzero (beats_from_float quantum) in
        (is_some (beat_at_time s at quantum) ≡ returns)
        × (is_some (phase_at_time s at quantum) ≡ returns)
        × (is_some (time_at_beat s beat quantum) ≡ returns)
  unfolding beat_at_time phase_at_time time_at_beat
  queries-is_some s at beat quantum =
      let q = beats_from_float quantum in
      let t = micros_from_time clock_start at in
      let beat_returns : is_some (beat_at_time s at quantum) ≡ is_nonzero q =
        is_some-bind_last _ (to_phase_encoded_beats s.timeline t q) _
          (is_some-to_phase_encoded_beats s.timeline t q) λ b. refl in
      (
        beat_returns,
        is_some-bind_last _ (beat_at_time s at quantum) _ beat_returns (λ b.
            is_some-bind_last _ (phase (beats_from_float b) q) _ (is_some-phase _ q) (λ p. refl)),
        is_some-bind_last _ (from_phase_encoded_beats s.timeline (beats_from_float beat) q) _
            (is_some-from_phase_encoded_beats s.timeline (beats_from_float beat) q) (λ m. refl),
      )

  -- When the quantum is q micro-beats, with 0 < q, and BeatAtTime is a beat whose micro-beats b satisfy
  -- 2 |b| + q < 2^63, PhaseAtTime is the value of a phase in [0, q), the remainder of b by q.
  pub phase_at_time-residue :
      (s : Snapshot F) (at : ℤ) (quantum : F) {beat : F} (b : ℤ) (q : ℕ)
      → beats_from_float quantum ≡ beats (pos q)
      → 0 < q
      → beat_at_time s at quantum ≡ some beat
      → beats_from_float beat ≡ beats b
      → 2 * nat_abs b + q < 2 ^ 63
      → (phase_at_time s at quantum ≡ some (float (beats (pos (residue b q))))) × (residue b q < q)
  unfolding phase_at_time
  phase_at_time-residue s at quantum b q hq positive at_beat hb small =
      (rw (at_beat, hb, hq, phase-residue b q positive small) refl, residue-lt b q positive)
