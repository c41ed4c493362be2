-- ===== src/Engine/Members/Table.antt =====
-- What the table of peers goes through (link/engine.go): peers that arrive, refresh, change their
-- session, or leave.
use abletonlink_client_go.Base.{
  ℕ, ◌≡◌, inl, inr, refl, sym, ap, ◌∙◌, arith, Bool, true, false, Option, none, some, List, [], ◌∷◌,
  if◌then◌else◌, Option-cases, not, ◌||◌,
}
use abletonlink_client_go.Base.Map.{find, delete, insert}
use abletonlink_client_go.Float.{Float64}
use abletonlink_client_go.NodeId.{NodeId}
use abletonlink_client_go.NodeId.Order.{eq_node_id→eq}
use abletonlink_client_go.Wire.{Result, ok, err, stuck, DiscoveryHeader, parse_discovery_message}
use abletonlink_client_go.PeerState.{PeerState, UdpAddr, decode_peer_state}
use abletonlink_client_go.Engine.State.{World, Engine, PeerEntry, node_id_key, tick}
use abletonlink_client_go.Engine.Session.{count_session_peers, session_membership_changed}
use abletonlink_client_go.Engine.Discovery.{
  empty_peer, update_peer, saw_peer_state, remove_peer, handle_discovery_packet,
}
use abletonlink_client_go.Engine.Members.Frame.{members, members-send_response_to}
use abletonlink_client_go.Engine.Members.Count.{
  IsLive, IsSound, IsSound-of, IsSound-if, IsSound-session_membership_changed,
}
use abletonlink_client_go.Engine.Members.Peers.{IsSound-propagate}

-- Without a change of membership the session is the old one.
stays_lem : (q r : Bool) → (not true || not q || not r) ≡ false → q ≡ true
stays_lem true r h = refl
stays_lem false r h = cc

module _ {F : Type 0} where
  count-insert :
      (sid id : NodeId) (p q : PeerEntry F) (peers : List (NodeId × PeerEntry F))
      → find id peers ≡ some p
      → p.state.session_id ≡ q.state.session_id
      → count_session_peers sid (insert id q peers) ≡ count_session_peers sid peers
  unfolding count_session_peers find insert
  count-insert sid id p q [] f e = cc
  count-insert sid id p q ((j, r) ∷ peers) f e = grind (arith, count-insert sid id p q peers)

  -- A known peer that stays in its session.
  refreshed :
      (id : NodeId) (p q : PeerEntry F) (e : Engine F)
      → e.enabled_flag ≡ true
      → find id e.peers ≡ some p
      → p.state.session_id ≡ q.state.session_id
      → IsSound true (members e)
      → IsSound true (members (tick (record e { peers = insert id q e.peers })))
  unfolding members
  refreshed id p q e on f same h = record {
    counted = λ s. h.counted s ∙ sym (count-insert _ id p q e.peers f same);
    live = inl on;
  }

  entered :
      (e : Engine F) (ps : List (NodeId × PeerEntry F))
      → e.enabled_flag ≡ true
      → IsSound false (members (tick (record e { peers = ps })))
  unfolding members
  entered e ps on = record { counted = λ s. cc; live = inl on }

module _ {F : Type 0} ⦃fl : Float64 F⦄ (w : World) where
  settled :
      (b : Bool) (x : Engine F)
      → IsSound false (members x)
      → (b ≡ false → IsSound true (members x))
      → IsSound true (members (if b then session_membership_changed w x else x))
  settled true x h k = IsSound-session_membership_changed w x h.live
  settled false x h k = k refl

  new_peer :
      (id : NodeId) (state : PeerState F) (from : UdpAddr) (e : Engine F)
      → e.enabled_flag ≡ true
      → IsSound true (members (update_peer w id none state from e))
  unfolding update_peer
  new_peer id state from e on =
      IsSound-session_membership_changed w _
        (IsSound-propagate w id empty_peer state _ on (entered e _ on)).live

  known_peer :
      (id : NodeId) (p : PeerEntry F) (state : PeerState F) (from : UdpAddr) (e : Engine F)
      → e.enabled_flag ≡ true
      → find id e.peers ≡ some p
      → IsSound true (members e)
      → IsSound true (members (update_peer w id (some p) state from e))
  unfolding update_peer
  known_peer id p state from e on known h =
      settled _ _ (IsSound-propagate w id p state _ on (entered e _ on)) (λ b.
        IsSound-propagate w id p state _ on
          (refreshed id p _ e on known (eq_node_id→eq _ _ (stays_lem _ _ b)) h))

  pub IsSound-update_peer :
      (id : NodeId) (found : Option (PeerEntry F)) (state : PeerState F) (from : UdpAddr)
      (e : Engine F)
      → find id e.peers ≡ found
      → e.enabled_flag ≡ true
      → IsSound true (members e)
      → IsSound true (members (update_peer w id found state from e))
  IsSound-update_peer id none state from e eq on h = new_peer id state from e on
  IsSound-update_peer id (some p) state from e eq on h = known_peer id p state from e on eq h

  seen :
      (id : NodeId) (from : UdpAddr) (e : Engine F) (r : Result (PeerState F))
      → e.enabled_flag ≡ true
      → IsSound true (members e)
      → IsSound true (
          members (elim r [
            | ok state ↦ update_peer w id (find id e.peers) state from e
            | err x ↦ e
            | stuck ↦ e
          ]))
  seen id from e (ok state) on h = IsSound-update_peer id _ state from e refl on h
  seen id from e (err x) on h = h
  seen id from e stuck on h = h

  IsSound-saw_peer_state :
      (hdr : DiscoveryHeader) (payload : List ℕ) (from : UdpAddr) (e : Engine F)
      → e.enabled_flag ≡ true
      → IsSound true (members e)
      → IsSound true (members (saw_peer_state w hdr payload from e))
  unfolding saw_peer_state
  IsSound-saw_peer_state hdr payload from e on h =
      seen hdr.node_id from e (decode_peer_state hdr.node_id payload) on h

  IsLive-delete :
      (id : NodeId) (e : Engine F)
      → IsLive (members e)
      → IsLive (members (record e { peers = delete id e.peers }))
  unfolding members delete
  IsLive-delete id e h = elim h [ inl on ↦ inl on | inr off ↦ inr (ap (delete id) off.0, off.1) ]

  IsSound-remove_peer :
      (id : NodeId) (e : Engine F)
      → IsSound true (members e)
      → IsSound true (members (remove_peer w id e))
  unfolding remove_peer
  IsSound-remove_peer id e h = elim (Option-cases (find id e.peers)) [
    | inl unknown ↦ rw (remove_peer, unknown) h
    | inr (p, known) ↦
        rw (remove_peer, known) (IsSound-session_membership_changed w _ (IsLive-delete id e h.live))
  ]

  -- A test of enabledFlag.
  when_on :
      (b : Bool) (x e : Engine F)
      → IsSound true (members e)
      → (b ≡ true → IsSound true (members x))
      → IsSound true (members (if b then x else e))
  when_on true x e h f = f refl
  when_on false x e h f = h

  -- Whatever packet a discovery socket receives, a right count of the own session's peers stays right:
  -- for packets that are ignored, for new peers, for known ones with or without a change of session,
  -- and for departures; and an engine that does not take part still knows no peers and no sessions.
  pub IsSound-handle_discovery_packet :
      (from : UdpAddr) (bytes : List ℕ) (e : Engine F)
      → IsSound true (members e)
      → IsSound true (members (handle_discovery_packet w from bytes e))
  unfolding handle_discovery_packet
  IsSound-handle_discovery_packet from bytes e h =
      elim (Option-cases (parse_discovery_message bytes)) [
        | inl garbage ↦ rw (handle_discovery_packet, garbage) h
        | inr ((hdr, payload), parsed) ↦
            rw (handle_discovery_packet, parsed)
              (IsSound-if _ _ _ h (
                IsSound-if _ _ _
                  (when_on _ _ _ h λ on.
                    IsSound-of (members-send_response_to w from _)
                      (IsSound-saw_peer_state hdr payload from e on h))
                  (IsSound-if _ _ _
                    (when_on _ _ _ h λ on. IsSound-saw_peer_state hdr payload from e on h)
                    (IsSound-if _ _ _ (IsSound-remove_peer hdr.node_id e h) h))))
      ]
