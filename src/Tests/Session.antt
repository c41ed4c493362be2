-- ===== src/Tests/Session.antt =====
-- Runs of the engine's parts.
use abletonlink_client_go.Base.{
  ℕ, ◌<◌, ◌≡◌, ◌≢◌, ◌↔◌, refl, arith, true, false, not, none, some, [], ◌∷◌, if◌then◌else◌, ◌==◌,
}
use abletonlink_client_go.Base.Int.{ltb_ℤ, pos, neg_ℤ, nat_abs}
use abletonlink_client_go.Base.Map.{find, nat_key}
use abletonlink_client_go.NodeId.Order.{IsBelow}
use abletonlink_client_go.Engine.State.{TimerHub, deferred_broadcast, remeasure, session_epsilon}
use abletonlink_client_go.Engine.Hub.{
  next_id, after, cancel, fire, HasOldIds, after_fresh, fire_once,
}
use abletonlink_client_go.Engine.Join.{session_wins}
use abletonlink_client_go.Engine.Vote.{session_wins_unanimous}
use abletonlink_client_go.Tests.Values.{id_a, id_b}

abbrev two_timers : TimerHub
two_timers = record {
  seq = 2;
  tim = (1, pos 50) ∷ (2, pos 30) ∷ [];
  cbs = (1, deferred_broadcast) ∷ (2, remeasure) ∷ [];
}

after_fresh_example :
    (find (next_id two_timers) two_timers.cbs ≡ none)
    × ((id : ℕ)
        → find id (after (pos 9) remeasure two_timers).cbs
          ≡ (if next_id two_timers == id then some remeasure else find id two_timers.cbs))
    × HasOldIds (after (pos 9) remeasure two_timers)
after_fresh_example =
    after_fresh two_timers (pos 9) remeasure (omega arith, (omega arith, tt)) (omega arith)

fire_once_example :
    ((fire 2 two_timers).1 ≡ find 2 two_timers.cbs)
    × ((fire 2 (fire 2 two_timers).0).1 ≡ none)
    × ((fire 2 (cancel 2 two_timers)).1 ≡ none)
    × ((j : ℕ) → j ≢ 2 → (fire j (fire 2 two_timers).0).1 ≡ (fire j two_timers).1)
fire_once_example = fire_once two_timers 2

-- A ghost clock that is 3 seconds ahead wins, whatever the ids.
session_wins_unanimous_example :
    let left_joins = session_wins id_b id_a (pos 3_000_000) in
    let right_joins = session_wins id_a id_b (neg_ℤ (pos 3_000_000)) in
    (left_joins ≡ true → right_joins ≡ false)
    × (nat_abs (pos 3_000_000) ≢ session_epsilon → right_joins ≡ not left_joins)
    × (nat_abs (pos 3_000_000) ≡ session_epsilon → (left_joins ≡ false) × (right_joins ≡ false))
    × (nat_abs (pos 3_000_000) < session_epsilon → (left_joins ≡ true) ↔ IsBelow id_b id_a)
    × (session_epsilon < nat_abs (pos 3_000_000) → left_joins ≡ ltb_ℤ (pos 0) (pos 3_000_000))
session_wins_unanimous_example =
    session_wins_unanimous id_a id_b (pos 3_000_000) refl (λ e. cc) (omega arith)
