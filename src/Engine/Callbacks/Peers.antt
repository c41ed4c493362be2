-- ===== src/Engine/Callbacks/Peers.antt =====
-- What the messages of peers do to what the application was told (link/engine.go): sessions' timelines,
-- peer states, departures and the pruning of silent peers.
use abletonlink_client_go.Base.{
  ℕ, ◌≡◌, ◌∙◌, inl, inr, refl, Bool, true, false, Option, none, some, List, ◌==◌, not, ◌||◌,
  if◌then◌else◌, Option-cases,
}
use abletonlink_client_go.Base.Map.{find}
use abletonlink_client_go.Float.{Float64}
use abletonlink_client_go.NodeId.{NodeId, eq_node_id}
use abletonlink_client_go.Timeline.{Timeline}
use abletonlink_client_go.Wire.{
  Result, ok, err, stuck, DiscoveryHeader, parse_discovery_message, discovery_group_id,
  discovery_alive, discovery_resp, discovery_bye_bye,
}
use abletonlink_client_go.PeerState.{PeerState, StartStopState, UdpAddr, decode_peer_state}
use abletonlink_client_go.Engine.State.{
  World, Engine, PeerEntry, node_id_key, tick, ClientStartStop,
}
use abletonlink_client_go.Engine.Session.{session_membership_changed}
use abletonlink_client_go.Engine.Discovery.{
  empty_peer, saw_session_timeline, handle_start_stop_from_session, propagate_timeline,
  propagate_start_stop, update_peer, saw_peer_state, remove_peer, handle_discovery_packet,
  prune_peers,
}
use abletonlink_client_go.Engine.Callbacks.Heard.{heard, IsTold, IsTold-of, IsTold-if}
use abletonlink_client_go.Engine.Callbacks.Frame.{
  IsTold-client, IsTold-report, IsTold-publish, IsTold-update_session_timing,
}
use abletonlink_client_go.Engine.Callbacks.Broadcasts.{
  heard-broadcast, heard-send_response_to, IsTold-session_membership_changed,
}
use abletonlink_client_go.Engine.Callbacks.Sessions.{
  heard-others, IsTold-launch_session_measurement,
}

module _ {F : Type 0} (first : F × Bool) where
  pub heard-peers :
      (e : Engine F) (ps : List (NodeId × PeerEntry F))
      → heard first (record e { peers = ps }) ≡ heard first e
  unfolding heard
  heard-peers e ps = refl

  heard-entered :
      (e : Engine F) (ps : List (NodeId × PeerEntry F))
      → heard first (tick (record e { peers = ps })) ≡ heard first e
  unfolding heard
  heard-entered e ps = refl

  pub heard-start_stop :
      (e : Engine F) (ss : StartStopState)
      → heard first (record e { session_start_stop = ss }) ≡ heard first e
  unfolding heard
  heard-start_stop e ss = refl

  pub heard-client :
      (e : Engine F) (cs : ClientStartStop)
      → heard first (record e { client_start_stop = cs })
        ≡ record (heard first e) { playing = cs.is_playing }
  unfolding heard
  heard-client e cs = refl

module _ {F : Type 0} ⦃fl : Float64 F⦄ (first : F × Bool) (w : World) where
  IsTold-handle_start_stop :
      (sid : NodeId) (ss : StartStopState) (e : Engine F)
      → IsTold true true (heard first e)
      → IsTold true true (heard first (handle_start_stop_from_session w sid ss e))
  unfolding handle_start_stop_from_session
  IsTold-handle_start_stop sid ss e h =
      let relayed = IsTold-of (heard-broadcast first w _ ∙ heard-start_stop first e ss) h in
      IsTold-if first _ _ _ h (
        IsTold-if first _ _ _
          (IsTold-publish first _ (
            IsTold-report first _ (IsTold-of (heard-client first _ _) (IsTold-client _ _ relayed))))
          relayed)

  IsTold-saw_session_timeline :
      (sid : NodeId) (tl : Timeline F) (e : Engine F)
      → IsTold true true (heard first e)
      → IsTold true true (heard first (saw_session_timeline w sid tl e))
  unfolding saw_session_timeline
  IsTold-saw_session_timeline sid tl e h =
      IsTold-if first (eq_node_id sid e.session_id) _ _
        (IsTold-of (heard-broadcast first w _)
          (IsTold-if first _ _ _ (IsTold-update_session_timing first w _ _ _ h) h))
        (elim (Option-cases (find sid e.other_sessions)) [
          | inl new ↦ rw new (
              IsTold-launch_session_measurement first w sid _
                (IsTold-of (heard-others first e _) h))
          | inr (s, known) ↦
              rw known (IsTold-if first _ _ _ (IsTold-of (heard-others first e _) h) h)
        ])

  IsTold-propagate :
      (id : NodeId) (peer : PeerEntry F) (state : PeerState F) (e : Engine F)
      → IsTold true true (heard first e)
      → IsTold true true (
          heard first (propagate_start_stop w id peer state (propagate_timeline w id peer state e)))
  IsTold-propagate id peer state e h =
      let timeline =
        IsTold-if first _ _ _
          (IsTold-saw_session_timeline state.session_id state.timeline _
            (IsTold-of (heard-peers first e _) h))
          h in
      IsTold-if first _ _ _
        (IsTold-handle_start_stop state.session_id state.start_stop _
          (IsTold-of (heard-peers first _ _) timeline))
        timeline

  settled :
      (b : Bool) (x : Engine F)
      → IsTold true true (heard first x)
      → IsTold true true (heard first (if b then session_membership_changed w x else x))
  settled true x h = IsTold-session_membership_changed first w x h
  settled false x h = h

  IsTold-update_peer :
      (id : NodeId) (found : Option (PeerEntry F)) (state : PeerState F) (from : UdpAddr)
      (e : Engine F)
      → IsTold true true (heard first e)
      → IsTold true true (heard first (update_peer w id found state from e))
  unfolding update_peer
  IsTold-update_peer id none state from e h =
      IsTold-session_membership_changed first w _
        (IsTold-propagate id empty_peer state _ (IsTold-of (heard-entered first e _) h))
  IsTold-update_peer id (some p) state from e h =
      settled _ _ (IsTold-propagate id p state _ (IsTold-of (heard-entered first e _) h))

  seen :
      (id : NodeId) (from : UdpAddr) (e : Engine F) (r : Result (PeerState F))
      → IsTold true true (heard first e)
      → IsTold true true (
          heard first (elim r [
            | ok state ↦ update_peer w id (find id e.peers) state from e
            | err x ↦ e
            | stuck ↦ e
          ]))
  seen id from e (ok state) h = IsTold-update_peer id _ state from e h
  seen id from e (err x) h = h
  seen id from e stuck h = h

  IsTold-saw_peer_state :
      (hdr : DiscoveryHeader) (payload : List ℕ) (from : UdpAddr) (e : Engine F)
      → IsTold true true (heard first e)
      → IsTold true true (heard first (saw_peer_state w hdr payload from e))
  unfolding saw_peer_state
  IsTold-saw_peer_state hdr payload from e h =
      seen hdr.node_id from e (decode_peer_state hdr.node_id payload) h

  IsTold-remove_peer :
      (id : NodeId) (e : Engine F)
      → IsTold true true (heard first e)
      → IsTold true true (heard first (remove_peer w id e))
  unfolding remove_peer
  IsTold-remove_peer id e h = elim (Option-cases (find id e.peers)) [
    | inl unknown ↦ rw (remove_peer, unknown) h
    | inr (p, known) ↦
        rw (remove_peer, known)
          (IsTold-session_membership_changed first w _ (IsTold-of (heard-peers first e _) h))
  ]

  pub IsTold-handle_discovery_packet :
      (from : UdpAddr) (bytes : List ℕ) (e : Engine F)
      → IsTold true true (heard first e)
      → IsTold true true (heard first (handle_discovery_packet w from bytes e))
  unfolding handle_discovery_packet
  IsTold-handle_discovery_packet from bytes e h =
      elim (Option-cases (parse_discovery_message bytes)) [
        | inl garbage ↦ rw (handle_discovery_packet, garbage) h
        | inr ((hdr, payload), known) ↦
            rw (handle_discovery_packet, known)
              (IsTold-if first
                (not (hdr.group_id == discovery_group_id) || eq_node_id hdr.node_id e.node_id) _ _ h
                (IsTold-if first (hdr.msg_type == discovery_alive) _ _
                  (IsTold-if first e.enabled_flag _ _
                    (IsTold-of (heard-send_response_to first w from _)
                      (IsTold-saw_peer_state hdr payload from e h))
                    h)
                  (IsTold-if first (hdr.msg_type == discovery_resp) _ _
                    (IsTold-if first e.enabled_flag _ _ (IsTold-saw_peer_state hdr payload from e h)
                      h)
                    (IsTold-if first (hdr.msg_type == discovery_bye_bye) _ _
                      (IsTold-remove_peer hdr.node_id e h) h))))
      ]

  pub IsTold-prune_peers :
      (e : Engine F)
      → IsTold true true (heard first e)
      → IsTold true true (heard first (prune_peers w e))
  unfolding prune_peers
  IsTold-prune_peers e h =
      let kept = IsTold-of (heard-entered first e _) h in
      IsTold-if first _ _ _ kept (IsTold-session_membership_changed first w _ kept)
