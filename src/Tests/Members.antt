-- ===== src/Tests/Members.antt =====
-- Runs of the engine with one peer in its session.
use abletonlink_client_go.Base.{ℕ, suc, ◌*◌, true, none, some, List, [], ◌∷◌}
use abletonlink_client_go.Base.Int.{pos}
use abletonlink_client_go.Exact.{Exact, exact_float}
use abletonlink_client_go.PeerState.{zero_start_stop}
use abletonlink_client_go.Engine.State.{World, Engine, PeerEntry}
use abletonlink_client_go.Engine.Loop.{init}
use abletonlink_client_go.Tests.Values.{id_a, id_b, id_c, peer_b, endpoint, timeline_at}

-- A clock that advances by a millisecond at each reading.
abbrev pub world : World
world = record {
  micros = λ k. pos (1000 * suc k);
  wall = λ k. 1_000_000 * suc k;
  random = λ k. 9 ∷ 9 ∷ 9 ∷ 9 ∷ 9 ∷ 9 ∷ 9 ∷ 9 ∷ [];
  network = record { ms_local = some endpoint; if_ip = none };
}

abbrev entry_b : PeerEntry Exact
entry_b = record {
  state = peer_b;
  src = some endpoint;
  last_seen = 0;
  expire_at = 6_000_000_000;
  tl_session = id_a;
  tl_propagated = timeline_at 100 (pos 0) (pos 0);
  tl_known = true;
  ss_session = id_a;
  ss_propagated = zero_start_stop;
  ss_known = true;
}

-- An engine that has joined the session of id_a, with the peer id_b, and has counted nbr peers.
abbrev pub joined : ℕ → Engine Exact
joined nbr = record (init world (exact_float.decimal 120 0) true) {
  session_id = id_a;
  enabled_flag = true;
  session_peer_nbr = nbr;
  peers = (id_b, entry_b) ∷ [];
}

-- An announcement of a new peer, id_c, without entries.
abbrev pub alive_c : List ℕ
alive_c = 95 ∷ 97 ∷ 115 ∷ 100 ∷ 112 ∷ 95 ∷ 118 ∷ 1 ∷ 1 ∷ 5 ∷ 0 ∷ 0 ∷ id_c
