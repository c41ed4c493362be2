-- ===== src/Engine/Members/Count.antt =====
-- The count of a session's peers in link/engine.go: sessionPeerNbr is updated by
-- sessionMembershipChanged alone, while the session and the table of peers change in many places.
use abletonlink_client_go.Base.{
  ℕ, ◌≡◌, ◌⊎◌, inl, inr, refl, sym, ap, ◌∙◌, arith, Bool, true, false, [], ◌==◌, ltb, ◌&&◌,
  if◌then◌else◌, Bool-cases, ==_iff,
}
use abletonlink_client_go.Float.{Float64}
use abletonlink_client_go.NodeId.{NodeId}
use abletonlink_client_go.Engine.State.{World, Engine}
use abletonlink_client_go.Engine.Session.{
  count_session_peers, session_membership_changed, reset_state, publish_snapshot,
}
use abletonlink_client_go.Engine.Members.Frame.{
  Members, members, members-broadcast, members-update_session_timing,
}
use abletonlink_client_go.PeerState.{StartStopState}

module _ {F : Type 0} where
  -- The engine takes part, or it knows no peer and no other session.
  abbrev pub IsLive : Members F → Type 0
  IsLive m = (m.enabled ≡ true) ⊎ ((m.peers ≡ []) × (m.others ≡ []))

  -- The engine is live and, where `settled` holds, the count is that of the peers in its own session.
  -- Between a change of the peers and sessionMembershipChanged the members are not settled.
  pub record IsSound (settled : Bool) (m : Members F) : Type 0 where
    pub counted : settled ≡ true → m.nbr ≡ count_session_peers m.session m.peers
    pub live : IsLive m

  module _ {settled : Bool} where
    pub IsSound-of : {m n : Members F} → n ≡ m → IsSound settled m → IsSound settled n
    IsSound-of e h = rw e h

    pub IsSound-if :
        (b : Bool) (x y : Engine F)
        → IsSound settled (members x)
        → IsSound settled (members y)
        → IsSound settled (members (if b then x else y))
    IsSound-if true x y hx hy = hx
    IsSound-if false x y hx hy = hy

module _ {F : Type 0} ⦃fl : Float64 F⦄ (w : World) where
  cleared :
      (x : Engine F) (m : Members F)
      → members x ≡ m
      → members (record x { other_sessions = []; peers = [] })
        ≡ record m { peers = []; others = [] }
  unfolding members
  cleared x m h = ap {A = Members F} (λ n. record n { peers = []; others = [] }) h

  founded :
      (e : Engine F) (id : NodeId) (ss : StartStopState) (reads draws : ℕ)
      → members (record e {
        node_id = id;
        session_id = id;
        draws = draws;
        session_start_stop = ss;
        reads = reads;
      })
        ≡ record (members e) { session = id }
  unfolding members
  founded e id ss reads draws = refl

  pub members-reset_state :
      (e : Engine F)
      → members (reset_state w e)
        ≡ record (members e) { session = w.random e.draws; peers = []; others = [] }
  unfolding reset_state
  members-reset_state e =
      cleared _ _
        (members-broadcast w _ ∙ (members-update_session_timing w _ _ _ ∙ founded e _ _ _ _))

  -- What sessionMembershipChanged does to the members; `fresh` is the id of a session to found.
  abbrev pub recounted : NodeId → Members F → Members F
  recounted fresh m =
      let count = count_session_peers m.session m.peers in
      if count == m.nbr
      then m
      else if (count == 0) && ltb 0 m.nbr
      then record m { nbr = count; session = fresh; peers = []; others = [] }
      else record m { nbr = count }

  pub members-session_membership_changed :
      (e : Engine F)
      → members (session_membership_changed w e) ≡ recounted (w.random e.draws) (members e)
  unfolding members session_membership_changed publish_snapshot
  members-session_membership_changed e =
      ground (arith, members-reset_state (record e { session_peer_nbr = 0 }))

  IsSound-recounted :
      (settled : Bool) (fresh : NodeId) (m : Members F)
      → IsLive m
      → IsSound settled (recounted fresh m)
  unfolding count_session_peers
  IsSound-recounted settled fresh m h =
      let count = count_session_peers m.session m.peers in
      elim (Bool-cases (count == m.nbr)) [
        | inl same ↦ rw same (record { counted = λ _. sym ((==_iff count m.nbr).0 same); live = h })
        | inr differs ↦ elim (Bool-cases ((count == 0) && ltb 0 m.nbr)) [
          | inl alone ↦
              rw (differs, alone) (record { counted = λ _. ground arith; live = inr (refl, refl) })
          | inr others ↦ rw (differs, others) (record { counted = λ _. refl; live = h })
        ]
      ]

  -- If the engine takes part or knows no peers and no other sessions, then after
  -- sessionMembershipChanged the same holds, and the count of peers is right, whatever it was before.
  pub IsSound-session_membership_changed :
      {settled : Bool} (e : Engine F)
      → IsLive (members e)
      → IsSound settled (members (session_membership_changed w e))
  IsSound-session_membership_changed e h =
      IsSound-of (members-session_membership_changed e) (IsSound-recounted _ _ _ h)
