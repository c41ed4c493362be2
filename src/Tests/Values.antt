-- ===== src/Tests/Values.antt =====
-- Data for the runs: tempos, timelines and transforms over the exact arithmetic, identifiers and
-- a peer state.
use abletonlink_client_go.Base.{ℕ, [], ◌∷◌, true, some}
use abletonlink_client_go.Base.Int.{ℤ, pos, negsuc}
use abletonlink_client_go.Exact.{Exact, exact_float}
use abletonlink_client_go.Beats.{beats}
use abletonlink_client_go.NodeId.{NodeId}
use abletonlink_client_go.Timeline.{Tempo, Timeline, GhostXForm}
use abletonlink_client_go.PeerState.{PeerState, UdpAddr, StartStopState}

abbrev pub bpm : ℕ → Tempo Exact
bpm n = record { bpm = exact_float.decimal n 0 }

abbrev pub timeline_at : ℕ → ℤ → ℤ → Timeline Exact
timeline_at n beat time = record { tempo = bpm n; beat_origin = beats beat; time_origin = time }

abbrev pub xform_at : ℤ → GhostXForm Exact
xform_at i = record { slope = exact_float.decimal 1 0; intercept = i }

abbrev pub id_a : NodeId
id_a = 1 ∷ 2 ∷ 3 ∷ 4 ∷ 5 ∷ 6 ∷ 7 ∷ 8 ∷ []

abbrev pub id_b : NodeId
id_b = 1 ∷ 2 ∷ 3 ∷ 4 ∷ 5 ∷ 6 ∷ 7 ∷ 9 ∷ []

abbrev pub id_c : NodeId
id_c = 2 ∷ 0 ∷ 0 ∷ 0 ∷ 0 ∷ 0 ∷ 0 ∷ 0 ∷ []

abbrev pub endpoint : UdpAddr
endpoint = record { ip = 192 ∷ 168 ∷ 1 ∷ 7 ∷ []; port = 20808 }

abbrev pub playing_state : StartStopState
playing_state = record {
  is_playing = true;
  beat = beats (pos 4_000_000);
  timestamp = pos 1_000_000;
}

abbrev pub peer_b : PeerState Exact
peer_b = record {
  node = record {
    node_id = id_b;
    session_id = id_a;
    timeline = timeline_at 120 (negsuc 999_999) (pos 5_000_000);
    start_stop = playing_state;
  };
  measurement_endpoint = some endpoint;
}
