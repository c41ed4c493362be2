-- ===== src/Tests/Loop.antt =====
-- Runs of the engine's loop and of the queries.
use abletonlink_client_go.Base.{
  ◌%◌, ◌==◌, ◌+◌, length, All, ◌<◌, ◌≡◌, refl, arith, true, false, some, [], ◌∷◌,
}
use abletonlink_client_go.Base.Int.{pos, ◌+ℤ◌, ◌-ℤ◌, neg_ℤ, ◌*ℤ◌}
use abletonlink_client_go.Base.Results.{Returns, is_some}
use abletonlink_client_go.Base.Int64.{
  wrap, mul64, add64, sub64, div64, rem64, neg64, of_word, to_word,
}
use abletonlink_client_go.Clock.{llround}
use abletonlink_client_go.Timeline.{
  to_phase_encoded_beats, to_beats, micros_to_beats, micros_per_beat,
}
use abletonlink_client_go.Clock.Wall.{micros_from_time}
use abletonlink_client_go.Exact.{Exact, exact_float}
use abletonlink_client_go.Beats.{
  beats, beats_from_float, float, closest_phase_match, next_phase_match, phase, mod_beats,
  add_beats, sub_beats, abs64, half_quantum,
}
use abletonlink_client_go.Beats.Phase.{residue}
use abletonlink_client_go.Engine.State.{Engine, Snapshot}
use abletonlink_client_go.Engine.Session.{count_session_peers}
use abletonlink_client_go.Engine.Client.{set_enabled}
use abletonlink_client_go.Engine.Discovery.{handle_discovery_packet}
use abletonlink_client_go.Engine.Loop.{
  enable, command, discovery_packet, run_command, step, run, init, shut_down,
}
use abletonlink_client_go.Engine.Members.Reachable.{run-init-counts}
use abletonlink_client_go.Engine.Callbacks.Heard.{Agrees, last_tempo, last_playing}
use abletonlink_client_go.Engine.Callbacks.Reachable.{run-init-told}
use abletonlink_client_go.Engine.Messages.Frame.{IsQuiet}
use abletonlink_client_go.Engine.Messages.Reachable.{run-init-IsQuiet}
use abletonlink_client_go.Engine.Api.{
  beat_at_time, phase_at_time, time_at_beat, queries-is_some, phase_at_time-residue,
}
use abletonlink_client_go.Network.Receive.{IsSubsequence}
use abletonlink_client_go.Network.Send.{new_sender, perform_all, datagrams, perform_all-accounts}
use abletonlink_client_go.Reporter.Accounting.{told_all}
use abletonlink_client_go.Tests.Values.{endpoint, timeline_at}
use abletonlink_client_go.Tests.Members.{world, alive_c, joined}

-- The engine takes part and then sees a new peer.
abbrev reached : Engine Exact
reached =
    handle_discovery_packet world endpoint alive_c
      (set_enabled world true (init world (exact_float.decimal 120 0) true))

run-init-counts_example :
    (reached.session_peer_nbr ≡ count_session_peers reached.session_id reached.peers)
    × (reached.enabled_flag ≡ false
        → (reached.peers ≡ []) × (reached.other_sessions ≡ []) × (reached.session_peer_nbr ≡ 0))
unfolding run step run_command
run-init-counts_example =
    run-init-counts world (exact_float.decimal 120 0) true
      (command (enable true) ∷ discovery_packet endpoint alive_c ∷ []) {e = reached} refl

run-init-told_example :
    Agrees
      (last_tempo (init world (exact_float.decimal 120 0) true).snap.tempo reached.effects)
      reached.snap.tempo
    × (last_playing false reached.effects ≡ reached.snap.playing)
unfolding run step run_command
run-init-told_example =
    run-init-told world (exact_float.decimal 120 0) true
      (command (enable true) ∷ discovery_packet endpoint alive_c ∷ []) {e = reached} refl

-- A new engine takes part, sees a peer, which it answers, and leaves.
run-init-IsQuiet_example :
    Returns
      (λ e. All IsQuiet (shut_down world e).effects)
      (run world
        (command (enable true) ∷ discovery_packet endpoint alive_c ∷ [])
        (init world (exact_float.decimal 120 0) true))
run-init-IsQuiet_example =
    run-init-IsQuiet world (λ k. refl) (exact_float.decimal 120 0) true
      (command (enable true) ∷ discovery_packet endpoint alive_c ∷ []) refl

-- The second command divides by zero.
-- At 120 BPM, from beat 0 at time 0 on.
abbrev shown : Snapshot Exact
shown = record (joined 1).snap { timeline = timeline_at 120 (pos 0) (pos 0) }

queries-is_some_example :
    (is_some (beat_at_time (pos 0) shown (pos 9) (exact_float.decimal 4 0)) ≡ true)
    × (is_some (phase_at_time (pos 0) shown (pos 9) (exact_float.decimal 4 0)) ≡ true)
    × (is_some (time_at_beat (pos 0) shown (exact_float.decimal 7 0) (exact_float.decimal 4 0))
        ≡ true)
unfolding beats_from_float llround wrap
queries-is_some_example =
    queries-is_some (pos 0) shown (pos 9) (exact_float.decimal 7 0) (exact_float.decimal 4 0)

-- Half a second after the start is beat 1, a quarter of the quantum.
phase_at_time-residue_example :
    (phase_at_time (pos 0) shown (pos 500_000_000) (exact_float.decimal 4 0)
      ≡ some (float (beats (pos (residue (pos 1_000_000) 4_000_000)))))
    × (residue (pos 1_000_000) 4_000_000 < 4_000_000)
unfolding beats_from_float llround wrap beat_at_time to_phase_encoded_beats closest_phase_match
    next_phase_match phase div64 mod_beats rem64 add_beats add64 ◌+ℤ◌ sub_beats sub64 ◌-ℤ◌ to_beats
    micros_to_beats micros_from_time micros_per_beat neg_ℤ ◌*ℤ◌ mul64 neg64 of_word to_word abs64
    float half_quantum
phase_at_time-residue_example =
    phase_at_time-residue (pos 0) shown (pos 500_000_000) (exact_float.decimal 4 0)
      {beat = float (beats (pos 1_000_000))} (pos 1_000_000) 4_000_000 refl (omega arith) refl refl
      (omega arith)

-- Each second write fails.
perform_all-accounts_example :
    let s = perform_all (λ k d. k % 2 == 0) (λ k. k) reached.effects new_sender in
    IsSubsequence s.left (datagrams reached.effects)
    × (told_all s.lines + s.on_error.suppressed + length s.left
        ≡ length (datagrams reached.effects))
perform_all-accounts_example = perform_all-accounts (λ k d. k % 2 == 0) (λ k. k) reached.effects
