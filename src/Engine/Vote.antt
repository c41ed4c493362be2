-- ===== src/Engine/Vote.antt =====
-- The vote between two sessions (handleSessionMeasurementResult): both sides of a meeting run the
-- same test, each with its own identifier and the difference of the ghost times as it sees it.
use abletonlink_client_go.Base.{
  ◌^◌, ◌<◌, ◌≡◌, ◌≢◌, ◌⊎◌, refl, sym, inl, inr, arith, Bool, true, false, ◌&&◌, ◌||◌, not, length,
  ◌↔◌,
}
use abletonlink_client_go.Base.Int.{ℤ, pos, negsuc, nat_abs, neg_ℤ, ltb_ℤ}
use abletonlink_client_go.Base.Int64.{wrap, neg64}
use abletonlink_client_go.Beats.{abs64}
use abletonlink_client_go.NodeId.{NodeId, compare_node_id}
use abletonlink_client_go.NodeId.Order.{IsBelow, compare_node_id_total}
use abletonlink_client_go.Engine.State.{session_epsilon}
use abletonlink_client_go.Engine.Join.{session_wins}

opposite : (p q : Bool) → (p ≡ true) ⊎ (q ≡ true) → (p ≡ true → ¬ (q ≡ true)) → p ≡ not q
opposite true true h n = absurd (n refl refl)
opposite true false h n = refl
opposite false true h n = refl
opposite false false h n = ground arith

below_swap :
    (a b : NodeId)
    → length a ≡ length b
    → a ≢ b
    → ltb_ℤ (compare_node_id a b) (pos 0) ≡ not (ltb_ℤ (compare_node_id b a) (pos 0))
below_swap a b e ne =
    let (total, lower, zero_iff, trans) = compare_node_id_total a b a e (sym e) in
    opposite _ _
      (elim total [
        | inl below ↦ inl below
        | inr (inl same) ↦ absurd (ne same)
        | inr (inr above) ↦ inr above
      ])
      lower

vote :
    (d : ℤ) (p : Bool)
    → nat_abs d < 2 ^ 63
    → let left = ltb_ℤ (pos session_epsilon) d || (ltb_ℤ (abs64 d) (pos session_epsilon) && p) in
      let right =
        ltb_ℤ (pos session_epsilon) (neg_ℤ d)
        || (ltb_ℤ (abs64 (neg_ℤ d)) (pos session_epsilon) && not p) in
      (left ≡ true → right ≡ false)
      × (nat_abs d ≢ session_epsilon → right ≡ not left)
      × (nat_abs d ≡ session_epsilon → (left ≡ false) × (right ≡ false))
      × (nat_abs d < session_epsilon → (left ≡ true) ↔ (p ≡ true))
      × (session_epsilon < nat_abs d → left ≡ ltb_ℤ (pos 0) d)
unfolding abs64 neg64 wrap neg_ℤ
vote (pos n) true h = ground arith
vote (pos n) false h = ground arith
vote (negsuc n) true h = ground arith
vote (negsuc n) false h = ground arith

-- Of two sides of a meeting with different ids of one length, and ghost times that differ by d, with
-- |d| below 2^63, never both join the other's session, and exactly one does unless |d| is the
-- epsilon, when none does. Below the epsilon the left side joins if and only if the other id is
-- below its own, above it if and only if the other ghost time is ahead.
pub session_wins_unanimous :
    (a b : NodeId) (d : ℤ)
    → length a ≡ length b
    → a ≢ b
    → nat_abs d < 2 ^ 63
    → let left_joins = session_wins b a d in
      let right_joins = session_wins a b (neg_ℤ d) in
      (left_joins ≡ true → right_joins ≡ false)
      × (nat_abs d ≢ session_epsilon → right_joins ≡ not left_joins)
      × (nat_abs d ≡ session_epsilon → (left_joins ≡ false) × (right_joins ≡ false))
      × (nat_abs d < session_epsilon → (left_joins ≡ true) ↔ IsBelow b a)
      × (session_epsilon < nat_abs d → left_joins ≡ ltb_ℤ (pos 0) d)
unfolding session_wins
session_wins_unanimous a b d e ne h =
    rw (below_swap a b e ne) (vote d (ltb_ℤ (compare_node_id b a) (pos 0)) h)
