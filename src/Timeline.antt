-- ===== src/Timeline.antt =====
-- link/tempo.go, link/ghostxform.go and link/timeline.go: tempo, clock transform, and the mapping
-- between beats and time that a session shares.
pub mod Xform
pub mod Mapping
pub mod Panics
use abletonlink_client_go.Base.{ℕ, Bool, Option, none, some, ◌&&◌, if◌then◌else◌, ◌>>=◌}
use abletonlink_client_go.Base.Int.{ℤ, pos, eqb_ℤ}
use abletonlink_client_go.Base.Int64.{add64, sub64, neg64}
use abletonlink_client_go.Float.{Float64}
use abletonlink_client_go.Clock.{Micros, llround}
use abletonlink_client_go.Beats.{
  Beats, beats, add_beats, sub_beats, less, eq_beats, phase, closest_phase_match, beats_from_float,
  float,
}

pub record Tempo (F : Type 0) : Type 0 where
  pub bpm : F

pub record GhostXForm (F : Type 0) : Type 0 where
  pub slope : F
  pub intercept : Micros

pub record Timeline (F : Type 0) : Type 0 where
  pub tempo : Tempo F
  pub beat_origin : Beats
  pub time_origin : Micros

module _ {F : Type 0} ⦃fl : Float64 F⦄ where
  unfoldable pub tempo_from_bpm : F → Tempo F
  tempo_from_bpm bpm = record { bpm = bpm }

  unfoldable pub micros_per_beat : Tempo F → ℤ
  micros_per_beat t = llround (fl.div (fl.decimal 60_000_000 0) t.bpm)

  unfoldable pub micros_to_beats : Tempo F → Micros → Beats
  micros_to_beats t m = beats_from_float (fl.div (fl.of_int m) (fl.of_int (micros_per_beat t)))

  unfoldable pub beats_to_micros : Tempo F → Beats → Micros
  beats_to_micros t b = llround (fl.mul (float b) (fl.of_int (micros_per_beat t)))

  unfoldable pub eq_tempo : Tempo F → Tempo F → Bool
  eq_tempo t o = fl.eq t.bpm o.bpm

  -- link/ghostxform.go
  unfoldable pub zero_xform : GhostXForm F
  zero_xform = record { slope = fl.decimal 0 0; intercept = pos 0 }

  unfoldable pub eq_xform : GhostXForm F → GhostXForm F → Bool
  eq_xform x o = fl.eq x.slope o.slope && eqb_ℤ x.intercept o.intercept

  unfoldable pub host_to_ghost : GhostXForm F → Micros → Micros
  host_to_ghost x host_time = add64 (llround (fl.mul x.slope (fl.of_int host_time))) x.intercept

  unfoldable pub ghost_to_host : GhostXForm F → Micros → Micros
  ghost_to_host x ghost_time = llround (fl.div (fl.of_int (sub64 ghost_time x.intercept)) x.slope)

  unfoldable pub init_xform : Micros → GhostXForm F
  init_xform now = record { slope = fl.decimal 1 0; intercept = neg64 now }

  -- link/timeline.go
  unfoldable pub to_beats : Timeline F → Micros → Beats
  to_beats tl t = add_beats tl.beat_origin (micros_to_beats tl.tempo (sub64 t tl.time_origin))

  unfoldable pub from_beats : Timeline F → Beats → Micros
  from_beats tl b = add64 tl.time_origin (beats_to_micros tl.tempo (sub_beats b tl.beat_origin))

  unfoldable pub eq_timeline : Timeline F → Timeline F → Bool
  eq_timeline tl o =
      eq_tempo tl.tempo o.tempo
      && eq_beats tl.beat_origin o.beat_origin
      && eqb_ℤ tl.time_origin o.time_origin

  abbrev pub min_bpm : F
  min_bpm = fl.decimal 20 0

  abbrev pub max_bpm : F
  max_bpm = fl.decimal 999 0

  abbrev clamp_bpm : F → F
  clamp_bpm bpm = if fl.lt bpm min_bpm then min_bpm else if fl.lt max_bpm bpm then max_bpm else bpm

  unfoldable pub clamp_tempo : Timeline F → Timeline F
  clamp_tempo tl = record tl { tempo = record { bpm = clamp_bpm tl.tempo.bpm } }

  unfoldable pub to_phase_encoded_beats : Timeline F → Micros → Beats → Option Beats
  to_phase_encoded_beats tl t quantum =
      let beat = to_beats tl t in closest_phase_match F beat (sub_beats beat tl.beat_origin) quantum

  unfoldable pub from_phase_encoded_beats : Timeline F → Beats → Beats → Option Micros
  from_phase_encoded_beats tl beat quantum =
      let from_origin = sub_beats beat tl.beat_origin in
      do
        origin_phase ← phase from_origin quantum
        let origin_offset = sub_beats from_origin origin_phase
        beat_phase ← phase beat quantum
        inverse_phase_offset ←
            closest_phase_match F (sub_beats quantum origin_phase) (sub_beats quantum beat_phase)
              quantum
        some (
            from_beats tl (
              sub_beats (add_beats (add_beats tl.beat_origin origin_offset) quantum)
                inverse_phase_offset))

  unfoldable pub shift_client_timeline : Timeline F → Beats → Timeline F
  shift_client_timeline client shift =
      let time_delta = sub64 (from_beats client shift) (from_beats client (beats (pos 0))) in
      record client { time_origin = sub64 client.time_origin time_delta }

  -- The client timeline that follows a new session timeline from the host time `at_time` on.
  unfoldable pub update_client_timeline_from_session :
      Timeline F → Timeline F → Micros → GhostXForm F → Timeline F
  update_client_timeline_from_session cur_client session at_time xform =
      let temp_tl : Timeline F = record {
        tempo = session.tempo;
        beat_origin = to_beats cur_client at_time;
        time_origin = at_time;
      } in
      let host_beat_zero = ghost_to_host xform (from_beats session (beats (pos 0))) in
      record {
        tempo = temp_tl.tempo;
        beat_origin = to_beats temp_tl host_beat_zero;
        time_origin = host_beat_zero;
      }

  unfoldable pub update_session_timeline_from_client :
      Timeline F → Timeline F → Micros → GhostXForm F → Timeline F
  update_session_timeline_from_client cur_session client at_time xform =
      let ghost_beat0 = host_to_ghost xform client.time_origin in
      if eq_beats (to_beats cur_session ghost_beat0) (beats (pos 0))
        && eq_tempo client.tempo cur_session.tempo
      then cur_session
      else (let temp_tl : Timeline F = record {
        tempo = client.tempo;
        beat_origin = beats (pos 0);
        time_origin = ghost_beat0;
      } in
          let candidate = to_beats cur_session (host_to_ghost xform at_time) in
          let min_origin = add_beats cur_session.beat_origin (beats (pos 1)) in
          let new_beat_origin = if less candidate min_origin then min_origin else candidate in
          record {
            tempo = client.tempo;
            beat_origin = new_beat_origin;
            time_origin = from_beats temp_tl new_beat_origin;
          })

  unfoldable pub force_beat_at_time_impl : Timeline F → Beats → Micros → Beats → Option (Timeline F)
  force_beat_at_time_impl tl beat t quantum = do
    cur_beat_at_time ← to_phase_encoded_beats tl t quantum
    closest_in_phase ← closest_phase_match F cur_beat_at_time beat quantum
    let shifted = shift_client_timeline tl (sub_beats closest_in_phase cur_beat_at_time)
    some (record shifted {
      beat_origin = sub_beats (add_beats shifted.beat_origin beat) closest_in_phase;
    })
