-- ===== src/Tests/Musical.antt =====
-- Runs of the beat, timeline and identifier code.
use abletonlink_client_go.Base.{
  ℕ, ◌-◌, ◌≤◌, ◌<◌, ◌≡◌, refl, ◌⊎◌, ◌↔◌, arith, true, false, some, ◌&&◌, not, if◌then◌else◌,
}
use abletonlink_client_go.Base.Int.{ℤ, pos, negsuc, ◌+ℤ◌, ◌-ℤ◌}
use abletonlink_client_go.Base.Int64.{sub64, add64, wrap}
use abletonlink_client_go.Float.{FitsInt64}
use abletonlink_client_go.Clock.{llround}
use abletonlink_client_go.Exact.{Exact, exact_float, Exact-IsFloat64}
use abletonlink_client_go.Beats.{
  beats, phase, next_phase_match, closest_phase_match, eq_beats, greater, float, sub_beats,
}
use abletonlink_client_go.Beats.Phase.{residue, phase-residue}
use abletonlink_client_go.Beats.Match.{next_phase_match_least, closest_phase_match_not_closest}
use abletonlink_client_go.NodeId.{compare_node_id}
use abletonlink_client_go.NodeId.Order.{IsBelow, compare_node_id_total}
use abletonlink_client_go.Timeline.{
  Timeline, clamp_tempo, to_beats, from_beats, host_to_ghost, ghost_to_host, eq_tempo,
  update_session_timeline_from_client, update_client_timeline_from_session, micros_per_beat,
  beats_to_micros,
}
use abletonlink_client_go.Timeline.Xform.{ghost_to_host-host_to_ghost}
use abletonlink_client_go.Timeline.Mapping.{
  exact_micro_beats, update_session_timeline_precedence, is_in_range, clamp_tempo_bounds,
  update_client_timeline_continuous,
}
use abletonlink_client_go.Tests.Values.{timeline_at, xform_at, id_a, id_b, id_c}

-- Half a beat before beat 0 has phase 3.5 in a quantum of 4.
phase-residue_example :
    phase (beats (negsuc 499_999)) (beats (pos 4_000_000)) ≡ some (beats (pos 3_500_000))
phase-residue_example = phase-residue (negsuc 499_999) 4_000_000 (omega arith) (omega arith)

next_phase_match_least_example :
    (g : ℕ) × (next_phase_match (beats (pos 5_500_000)) (beats (pos 0)) (beats (pos 4_000_000))
      ≡ some (beats (pos 5_500_000 +ℤ pos g)))
    × (g < 4_000_000)
    × (residue (pos 5_500_000 +ℤ pos g) 4_000_000 ≡ residue (pos 0) 4_000_000)
    × ((k : ℕ) → residue (pos 5_500_000 +ℤ pos k) 4_000_000 ≡ residue (pos 0) 4_000_000 → g ≤ k)
next_phase_match_least_example =
    next_phase_match_least (pos 5_500_000) (pos 0) 4_000_000 (omega arith) (omega arith)
      (omega arith) (omega arith)

closest_phase_match_not_closest_example :
    (closest_phase_match Exact (beats (pos 5_000_000)) (beats (pos 0)) (beats (pos 4_000_000))
      ≡ some (beats (pos 8_000_000)))
    × (residue (pos 5_000_000 -ℤ pos (4_000_000 - 3_000_000)) 4_000_000 ≡ residue (pos 0) 4_000_000)
    × (4_000_000 - 3_000_000 < 3_000_000)
unfolding ◌+ℤ◌
closest_phase_match_not_closest_example =
    closest_phase_match_not_closest Exact-IsFloat64 (pos 5_000_000) (pos 0) 2 3_000_000
      (omega arith) (omega arith) (omega arith) (omega arith) (omega arith) refl

compare_node_id_total_example :
    (IsBelow id_a id_b ⊎ (id_a ≡ id_b) ⊎ IsBelow id_b id_a)
    × (IsBelow id_a id_b → ¬ IsBelow id_b id_a)
    × ((compare_node_id id_a id_b ≡ pos 0) ↔ (id_a ≡ id_b))
    × (IsBelow id_a id_b → IsBelow id_b id_c → IsBelow id_a id_c)
compare_node_id_total_example = compare_node_id_total id_a id_b id_c refl refl

ghost_to_host-host_to_ghost_example :
    (ghost_to_host
        (xform_at (negsuc 4_999_999))
        (host_to_ghost (xform_at (negsuc 4_999_999)) (pos 7_000_000))
      ≡ pos 7_000_000)
    × (host_to_ghost
          (xform_at (negsuc 4_999_999))
          (ghost_to_host (xform_at (negsuc 4_999_999)) (pos 3))
        ≡ pos 3)
unfolding sub64 wrap ◌-ℤ◌
ghost_to_host-host_to_ghost_example =
    ghost_to_host-host_to_ghost Exact-IsFloat64 (negsuc 4_999_999) (pos 7_000_000) (pos 3)
      (omega arith) (omega arith) (omega arith)

abbrev session : Timeline Exact
session = timeline_at 120 (pos 1_000_000) (pos 2_000_000)

abbrev client : Timeline Exact
client = timeline_at 90 (pos 0) (pos 500_000)

update_session_timeline_precedence_example :
    let repeated =
      eq_beats
        (to_beats session (host_to_ghost (xform_at (pos 100)) client.time_origin))
        (beats (pos 0))
      && eq_tempo client.tempo session.tempo in
    let r =
      update_session_timeline_from_client session client (pos 3_000_000) (xform_at (pos 100)) in
    (greater r.beat_origin session.beat_origin ≡ not repeated)
    × (r.tempo ≡ (if repeated then session.tempo else client.tempo))
    × (repeated ≡ true → r ≡ session)
update_session_timeline_precedence_example =
    update_session_timeline_precedence session client (pos 3_000_000) (xform_at (pos 100))
      (omega arith)

clamp_tempo_bounds_example :
    let r = clamp_tempo (timeline_at 1500 (pos 7) (pos 8)) in
    ((is_in_range Exact-IsFloat64 r.tempo.bpm ≡ true)
      ⊎ ((exact_float.eq (exact_float.decimal 1500 0) (exact_float.decimal 1500 0) ≡ false)
          × (r.tempo.bpm ≡ exact_float.decimal 1500 0)))
    × (r.beat_origin ≡ beats (pos 7))
    × (r.time_origin ≡ pos 8)
clamp_tempo_bounds_example = clamp_tempo_bounds Exact-IsFloat64 (timeline_at 1500 (pos 7) (pos 8))

session_tempo : micros_per_beat session.tempo ≡ pos 500_000
unfolding micros_per_beat llround wrap
session_tempo = refl

abbrev elapsed : ℤ
elapsed =
    sub64 (ghost_to_host (xform_at (pos 100)) (from_beats session (beats (pos 0)))) (pos 3_000_000)

elapsed_eq : elapsed ≡ negsuc 1_500_099
unfolding sub64 wrap ghost_to_host from_beats beats_to_micros micros_per_beat llround float ◌-ℤ◌
    add64 ◌+ℤ◌ sub_beats
elapsed_eq = refl

elapsed_fits : FitsInt64 (exact_float.round (exact_micro_beats session.tempo elapsed))
unfolding micros_per_beat llround wrap
elapsed_fits = rw elapsed_eq (refl, refl)

update_client_timeline_continuous_example :
    let zero_time = ghost_to_host (xform_at (pos 100)) (from_beats session (beats (pos 0))) in
    let r =
      update_client_timeline_from_session client session (pos 3_000_000) (xform_at (pos 100)) in
    (to_beats r (pos 3_000_000) ≡ to_beats client (pos 3_000_000))
    × (r.tempo ≡ session.tempo)
    × (r.time_origin ≡ zero_time)
update_client_timeline_continuous_example =
    update_client_timeline_continuous Exact-IsFloat64 client session (pos 3_000_000)
      (xform_at (pos 100)) 500_000 session_tempo (omega arith) (rw elapsed_eq (omega arith))
      elapsed_fits
