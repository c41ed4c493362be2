-- ===== src/Engine/Messages/Peers.antt =====
-- What the messages of peers need of the identifiers, and keep (link/engine.go): sessions' timelines,
-- peer states, departures and the pruning of silent peers.
use abletonlink_client_go.Base.{
  ℕ, ◌≡◌, inl, inr, refl, Bool, true, false, Option, none, some, List, All, length, ◌==◌, not, ◌||◌,
  if◌then◌else◌, Option-cases,
}
use abletonlink_client_go.Base.Map.{find, insert, delete, modify}
use abletonlink_client_go.Float.{Float64}
use abletonlink_client_go.NodeId.{NodeId, eq_node_id}
use abletonlink_client_go.Timeline.{Timeline}
use abletonlink_client_go.Wire.{
  Result, ok, err, stuck, DiscoveryHeader, parse_discovery_message, discovery_group_id,
  discovery_alive, discovery_resp, discovery_bye_bye,
}
use abletonlink_client_go.Wire.Kept.{OnOk, parsed}
use abletonlink_client_go.PeerState.{PeerState, StartStopState, UdpAddr, decode_peer_state}
use abletonlink_client_go.PeerState.Sizes.{HasSession, decode_peer_state-HasSession}
use abletonlink_client_go.Engine.State.{World, Engine, PeerEntry, node_id_key, tick}
use abletonlink_client_go.Engine.Session.{session_membership_changed}
use abletonlink_client_go.Engine.Discovery.{
  empty_peer, live_peers, saw_session_timeline, handle_start_stop_from_session, propagate_timeline,
  propagate_start_stop, update_peer, saw_peer_state, remove_peer, handle_discovery_packet,
  prune_peers,
}
use abletonlink_client_go.Engine.Messages.Frame.{
  HasSizedSession, IsSized, IsSized-same, IsSized-if, IsSized-peers, IsSized-others,
  IsSized-broadcast, IsSized-report, IsSized-publish, IsSized-send_response_to,
  IsSized-update_session_timing, IsSized-session_membership_changed,
}
use abletonlink_client_go.Engine.Messages.Tables.{
  All-delete, All-insert, All-modify, All-live_peers,
}
use abletonlink_client_go.Engine.Messages.Measuring.{IsSized-launch_session_measurement}

module _ {F : Type 0} where
  pub peer_sizes : (e : Engine F) → IsSized e → All HasSizedSession e.peers
  unfolding IsSized
  peer_sizes e h = h.peer_bytes

  other_sizes : (e : Engine F) → IsSized e → All (λ s. length s.0 ≡ 8) e.other_sessions
  unfolding IsSized
  other_sizes e h = h.other_bytes

  IsSized-new_session :
      (e : Engine F) (sid : NodeId) (tl : Timeline F)
      → length sid ≡ 8
      → IsSized e
      → IsSized
          (record e { other_sessions = insert sid (record { timeline = tl }) e.other_sessions })
  IsSized-new_session e sid tl bytes h =
      IsSized-others e _
        (All-insert (λ s. length s.0 ≡ 8) sid _ e.other_sessions bytes (other_sizes e h)) h

  IsSized-newer_timeline :
      (e : Engine F) (sid : NodeId) (tl : Timeline F)
      → IsSized e
      → IsSized (record e {
        other_sessions = modify sid (λ s. record { timeline = tl }) e.other_sessions;
      })
  IsSized-newer_timeline e sid tl h =
      IsSized-others e _
        (All-modify (λ s. length s.0 ≡ 8) sid _ e.other_sessions (λ j v q. q) (other_sizes e h)) h

  -- Marking a peer's timeline or transport state as propagated.
  marked :
      (id : NodeId) (f : PeerEntry F → PeerEntry F) (e : Engine F)
      → ((p : PeerEntry F) → (f p).state.session_id ≡ p.state.session_id)
      → IsSized e
      → IsSized (record e { peers = modify id f e.peers })
  marked id f e same h =
      IsSized-peers e _
        (All-modify HasSizedSession id f e.peers (λ j p q. rw (same p) q) (peer_sizes e h)) h

  entered :
      (id : NodeId) (p : PeerEntry F) (e : Engine F)
      → length p.state.session_id ≡ 8
      → IsSized e
      → IsSized (tick (record e { peers = insert id p e.peers }))
  entered id p e q h =
      IsSized-same _ _
        (IsSized-peers e _ (All-insert HasSizedSession id p e.peers q (peer_sizes e h)) h) refl

  departed :
      (id : NodeId) (e : Engine F) → IsSized e → IsSized (record e { peers = delete id e.peers })
  departed id e h = IsSized-peers e _ (All-delete HasSizedSession id e.peers (peer_sizes e h)) h

  pruned :
      (now : ℕ) (e : Engine F)
      → IsSized e
      → IsSized (tick (record e { peers = live_peers now e.peers }))
  pruned now e h =
      IsSized-same _ _ (IsSized-peers e _ (All-live_peers now e.peers (peer_sizes e h)) h) refl

module _ {F : Type 0} ⦃fl : Float64 F⦄ (w : World) where
  IsSized-handle_start_stop :
      (sid : NodeId) (ss : StartStopState) (e : Engine F)
      → IsSized e
      → IsSized (handle_start_stop_from_session w sid ss e)
  unfolding handle_start_stop_from_session
  IsSized-handle_start_stop sid ss e h =
      let relayed =
        IsSized-broadcast w (record e { session_start_stop = ss }) (IsSized-same _ e h refl) in
      IsSized-if _ _ _ h (
        IsSized-if _ _ _ (IsSized-publish _ (IsSized-report _ (IsSized-same _ _ relayed refl)))
          relayed)

  module _ (ids : (k : ℕ) → length (w.random k) ≡ 8) where
    IsSized-saw_session_timeline :
        (sid : NodeId) (tl : Timeline F) (e : Engine F)
        → length sid ≡ 8
        → IsSized e
        → IsSized (saw_session_timeline w sid tl e)
    unfolding saw_session_timeline
    IsSized-saw_session_timeline sid tl e bytes h =
        IsSized-if (eq_node_id sid e.session_id) _ _
          (IsSized-broadcast w _ (IsSized-if _ _ _ (IsSized-update_session_timing w _ _ _ h) h))
          (elim (Option-cases (find sid e.other_sessions)) [
            | inl new ↦ rw new (
                IsSized-launch_session_measurement w ids sid _
                  (IsSized-new_session e sid tl bytes h))
            | inr (s, known) ↦ rw known (IsSized-if _ _ _ (IsSized-newer_timeline e sid tl h) h)
          ])

    IsSized-propagate :
        (id : NodeId) (peer : PeerEntry F) (state : PeerState F) (e : Engine F)
        → HasSession state
        → IsSized e
        → IsSized (propagate_start_stop w id peer state (propagate_timeline w id peer state e))
    IsSized-propagate id peer state e bytes h =
        let timeline =
          IsSized-if _ _ _
            (IsSized-saw_session_timeline state.session_id state.timeline _ bytes
              (marked id _ e (λ p. refl) h))
            h in
        IsSized-if _ _ _
          (IsSized-handle_start_stop state.session_id state.start_stop _
            (marked id _ _ (λ p. refl) timeline))
          timeline

    settled :
        (b : Bool) (x : Engine F)
        → IsSized x
        → IsSized (if b then session_membership_changed w x else x)
    settled true x h = IsSized-session_membership_changed w ids x h
    settled false x h = h

    IsSized-update_peer :
        (id : NodeId) (found : Option (PeerEntry F)) (state : PeerState F) (from : UdpAddr)
        (e : Engine F)
        → HasSession state
        → IsSized e
        → IsSized (update_peer w id found state from e)
    unfolding update_peer
    IsSized-update_peer id none state from e bytes h =
        IsSized-session_membership_changed w ids _
          (IsSized-propagate id empty_peer state _ bytes (entered id _ e bytes h))
    IsSized-update_peer id (some p) state from e bytes h =
        settled _ _ (IsSized-propagate id p state _ bytes (entered id _ e bytes h))

    seen :
        (id : NodeId) (from : UdpAddr) (e : Engine F) (r : Result (PeerState F))
        → OnOk HasSession r
        → IsSized e
        → IsSized (elim r [
          | ok state ↦ update_peer w id (find id e.peers) state from e
          | err x ↦ e
          | stuck ↦ e
        ])
    seen id from e (ok state) (parsed bytes) h = IsSized-update_peer id _ state from e bytes h
    seen id from e (err x) good h = h
    seen id from e stuck good h = h

    IsSized-saw_peer_state :
        (hdr : DiscoveryHeader) (payload : List ℕ) (from : UdpAddr) (e : Engine F)
        → IsSized e
        → IsSized (saw_peer_state w hdr payload from e)
    unfolding saw_peer_state
    IsSized-saw_peer_state hdr payload from e h =
        seen hdr.node_id from e (decode_peer_state hdr.node_id payload)
          (decode_peer_state-HasSession hdr.node_id payload) h

    IsSized-remove_peer : (id : NodeId) (e : Engine F) → IsSized e → IsSized (remove_peer w id e)
    unfolding remove_peer
    IsSized-remove_peer id e h = elim (Option-cases (find id e.peers)) [
      | inl unknown ↦ rw (remove_peer, unknown) h
      | inr (p, known) ↦
          rw (remove_peer, known) (IsSized-session_membership_changed w ids _ (departed id e h))
    ]

    pub IsSized-handle_discovery_packet :
        (from : UdpAddr) (bytes : List ℕ) (e : Engine F)
        → IsSized e
        → IsSized (handle_discovery_packet w from bytes e)
    unfolding handle_discovery_packet
    IsSized-handle_discovery_packet from bytes e h =
        elim (Option-cases (parse_discovery_message bytes)) [
          | inl garbage ↦ rw (handle_discovery_packet, garbage) h
          | inr ((hdr, payload), known) ↦
              rw (handle_discovery_packet, known)
                (IsSized-if
                  (not (hdr.group_id == discovery_group_id) || eq_node_id hdr.node_id e.node_id) _ _
                  h
                  (IsSized-if (hdr.msg_type == discovery_alive) _ _
                    (IsSized-if e.enabled_flag _ _
                      (IsSized-send_response_to w from _
                        (IsSized-saw_peer_state hdr payload from e h))
                      h)
                    (IsSized-if (hdr.msg_type == discovery_resp) _ _
                      (IsSized-if e.enabled_flag _ _ (IsSized-saw_peer_state hdr payload from e h)
                        h)
                      (IsSized-if (hdr.msg_type == discovery_bye_bye) _ _
                        (IsSized-remove_peer hdr.node_id e h) h))))
        ]

    pub IsSized-prune_peers : (e : Engine F) → IsSized e → IsSized (prune_peers w e)
    unfolding prune_peers
    IsSized-prune_peers e h =
        let kept = pruned (w.wall e.reads) e h in
        IsSized-if _ _ _ kept (IsSized-session_membership_changed w ids _ kept)
