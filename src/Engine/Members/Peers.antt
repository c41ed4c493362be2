-- ===== src/Engine/Members/Peers.antt =====
-- What the messages of peers do to the members (link/engine.go): timelines, peer states, departures
-- and the pruning of silent peers.
use abletonlink_client_go.Base.{
  ◌≡◌, inl, inr, refl, sym, ap, ◌∙◌, arith, Bool, true, List, [], ◌∷◌, Option-cases,
}
use abletonlink_client_go.Base.Map.{find, modify}
use abletonlink_client_go.Float.{Float64}
use abletonlink_client_go.NodeId.{NodeId, eq_node_id}
use abletonlink_client_go.Timeline.{Timeline}
use abletonlink_client_go.PeerState.{PeerState}
use abletonlink_client_go.Engine.State.{World, Engine, PeerEntry, SessionEntry, node_id_key}
use abletonlink_client_go.Engine.Session.{count_session_peers}
use abletonlink_client_go.Engine.Discovery.{
  saw_session_timeline, propagate_timeline, propagate_start_stop,
}
use abletonlink_client_go.Engine.Members.Frame.{
  members, members-broadcast, members-update_session_timing, members-handle_start_stop,
}
use abletonlink_client_go.Engine.Members.Count.{IsSound, IsSound-of, IsSound-if}
use abletonlink_client_go.Engine.Members.Sessions.{IsSound-launch_session_measurement}

module _ {F : Type 0} where
  count-modify :
      (sid id : NodeId) (f : PeerEntry F → PeerEntry F) (peers : List (NodeId × PeerEntry F))
      → ((p : PeerEntry F) → (f p).state.session_id ≡ p.state.session_id)
      → count_session_peers sid (modify id f peers) ≡ count_session_peers sid peers
  unfolding count_session_peers modify
  count-modify sid id f [] e = refl
  count-modify sid id f ((j, r) ∷ peers) e = ground (arith, e r, count-modify sid id f peers e)

  -- A change of the peers' entries that keeps their sessions.
  pub IsSound-peers :
      {settled : Bool} (e : Engine F) (ps : List (NodeId × PeerEntry F))
      → ((sid : NodeId) → count_session_peers sid ps ≡ count_session_peers sid e.peers)
      → (e.peers ≡ [] → ps ≡ [])
      → IsSound settled (members e)
      → IsSound settled (members (record e { peers = ps }))
  unfolding members
  IsSound-peers e ps same empty h = record {
    counted = λ s. h.counted s ∙ sym (same _);
    live = elim h.live [ inl on ↦ inl on | inr off ↦ inr (empty off.0, off.1) ];
  }

  IsSound-on :
      {settled : Bool} (e : Engine F) (ss : List (NodeId × SessionEntry F))
      → e.enabled_flag ≡ true
      → IsSound settled (members e)
      → IsSound settled (members (record e { other_sessions = ss }))
  unfolding members
  IsSound-on e ss on h = record { counted = h.counted; live = inl on }

module _ {F : Type 0} ⦃fl : Float64 F⦄ (w : World) where
  pub IsSound-saw_session_timeline :
      {settled : Bool} (sid : NodeId) (tl : Timeline F) (e : Engine F)
      → e.enabled_flag ≡ true
      → IsSound settled (members e)
      → IsSound settled (members (saw_session_timeline w sid tl e))
  unfolding saw_session_timeline
  IsSound-saw_session_timeline sid tl e on h =
      IsSound-if (eq_node_id sid e.session_id) _ _
        (IsSound-of (members-broadcast w _)
          (IsSound-if _ _ _ (IsSound-of (members-update_session_timing w _ _ _) h) h))
        (elim (Option-cases (find sid e.other_sessions)) [
          | inl new ↦ rw new (IsSound-launch_session_measurement w sid _ (IsSound-on e _ on h))
          | inr (s, known) ↦ rw known (IsSound-if _ _ _ (IsSound-on e _ on h) h)
        ])

  -- Marking a peer's timeline or transport state as propagated.
  marked :
      {settled : Bool} (id : NodeId) (f : PeerEntry F → PeerEntry F) (e : Engine F)
      → ((p : PeerEntry F) → (f p).state.session_id ≡ p.state.session_id)
      → IsSound settled (members e)
      → IsSound settled (members (record e { peers = modify id f e.peers }))
  unfolding modify
  marked id f e same h =
      IsSound-peers e _ (λ sid. count-modify sid id f e.peers same) (ap (modify id f)) h

  -- In an engine that takes part, a peer's new timeline and transport state keep sound members sound:
  -- if they are settled, the count of the own session's peers is right before and after.
  pub IsSound-propagate :
      {settled : Bool} (id : NodeId) (peer : PeerEntry F) (state : PeerState F) (e : Engine F)
      → e.enabled_flag ≡ true
      → IsSound settled (members e)
      → IsSound settled
          (members (propagate_start_stop w id peer state (propagate_timeline w id peer state e)))
  IsSound-propagate id peer state e on h =
      let timeline =
        IsSound-if _ _ _
          (IsSound-saw_session_timeline state.session_id state.timeline _ on
            (marked id _ e (λ p. refl) h))
          h in
      IsSound-if _ _ _
        (IsSound-of (members-handle_start_stop w state.session_id state.start_stop _)
          (marked id _ _ (λ p. refl) timeline))
        timeline
