-- ===== src/Tests/Peers.antt =====
-- Runs of the engine's dealings with the peers of its session.
use abletonlink_client_go.Base.{inl, ℕ, ◌<◌, ◌≡◌, refl, arith, some, List, [], ◌∷◌, length}
use abletonlink_client_go.Base.Int.{pos}
use abletonlink_client_go.Base.Int64.{wrap}
use abletonlink_client_go.Clock.{llround}
use abletonlink_client_go.Exact.{Exact, exact_float}
use abletonlink_client_go.Timeline.{micros_per_beat}
use abletonlink_client_go.Wire.{
  ok, parse_discovery_message, discovery_alive, discovery_ttl, discovery_group_id,
}
use abletonlink_client_go.PeerState.{decode_peer_state}
use abletonlink_client_go.PeerState.RoundTrip.{IsSendable, received}
use abletonlink_client_go.Engine.Loop.{init}
use abletonlink_client_go.Engine.Session.{publish_snapshot}
use abletonlink_client_go.Engine.State.{Engine}
use abletonlink_client_go.Engine.Session.{current_peer_state, state_message}
use abletonlink_client_go.Engine.Announcement.{state_message-arrives}
use abletonlink_client_go.Engine.Convergence.{
  Notice, timeline_of, transport_of, agreed, IsLatest, hear_all, hear_all-IsLatest,
}
use abletonlink_client_go.Engine.Pacing.{IsPaced, IsArmed, broadcasts, broadcasts-IsPaced}
use abletonlink_client_go.Tests.Values.{timeline_at, playing_state, id_b}
use abletonlink_client_go.Tests.Members.{world, joined}

broadcasts-IsPaced_example :
    IsPaced world (joined 1) (broadcasts world 3 (joined 1))
    × IsArmed world (broadcasts world 3 (joined 1))
unfolding init publish_snapshot
broadcasts-IsPaced_example = broadcasts-IsPaced world (λ k. omega arith) 2 (joined 1) (inl refl)

-- The later timeline comes first.
abbrev heard : List (Notice Exact)
heard =
    timeline_of (timeline_at 90 (pos 500) (pos 0))
    ∷ transport_of playing_state
    ∷ timeline_of (timeline_at 70 (pos 100) (pos 0))
    ∷ []

hear_all-IsLatest_example :
    IsLatest
      (agreed (joined 1))
      heard
      (agreed (hear_all world (joined 1).session_id heard (joined 1)))
hear_all-IsLatest_example = hear_all-IsLatest world heard (joined 1)

-- An engine at 120 BPM.
abbrev steady : Engine Exact
steady = record (joined 1) {
  node_id = id_b;
  session_timeline = timeline_at 120 (pos 0) (pos 7);
  session_start_stop = playing_state;
}

steady-IsSendable : IsSendable (current_peer_state world.network steady)
unfolding micros_per_beat llround wrap current_peer_state
steady-IsSendable = record {
  session_bytes = refl;
  micros = 499_999;
  tempo_eq = refl;
  tempo_fits = omega arith;
  beat_fits = (omega arith, omega arith);
  time_fits = (omega arith, omega arith);
  start_beat_fits = (omega arith, omega arith);
  start_time_fits = (omega arith, omega arith);
}

state_message-arrives_example :
    let state = current_peer_state world.network steady in
    (msg : List ℕ) × (payload : List ℕ) × (state_message world discovery_alive steady ≡ some msg)
    × (length msg < 512)
    × (parse_discovery_message msg
        ≡ some (
          record {
            msg_type = discovery_alive;
            ttl = discovery_ttl;
            group_id = discovery_group_id;
            node_id = steady.node_id;
          },
          payload,
        ))
    × (decode_peer_state steady.node_id payload ≡ ok (received steady.node_id state))
state_message-arrives_example =
    state_message-arrives world discovery_alive steady refl steady-IsSendable
