-- ===== src/Engine/Discovery.antt =====
-- Discovery in link/engine.go: what the messages of peers do to the engine, and the pruning of silent
-- peers.
use abletonlink_client_go.Base.{
  ℕ, ◌+◌, Bool, true, false, Option, none, some, List, [], ◌∷◌, ◌&&◌, ◌||◌, not, eqb, ltb, ◌==◌,
  length, if◌then◌else◌,
}
use abletonlink_client_go.Base.Int.{leb_ℤ}
use abletonlink_client_go.Base.Map.{find, delete, insert, modify}
use abletonlink_client_go.Float.{Float64}
use abletonlink_client_go.Beats.{greater}
use abletonlink_client_go.NodeId.{NodeId, eq_node_id, zero_node_id}
use abletonlink_client_go.Timeline.{Timeline, eq_timeline}
use abletonlink_client_go.Wire.{
  ok, err, stuck, DiscoveryHeader, parse_discovery_message, discovery_alive, discovery_resp,
  discovery_bye_bye, discovery_group_id,
}
use abletonlink_client_go.PeerState.{
  StartStopState, PeerState, UdpAddr, decode_peer_state, zero_timeline, zero_start_stop,
  zero_peer_state, is_empty, eq_start_stop,
}
use abletonlink_client_go.Engine.State.{
  World, Engine, PeerEntry, tick, peer_ttl_duration, peer_prune_pad, node_id_key,
}
use abletonlink_client_go.Engine.Session.{
  broadcast, update_session_timing, start_stop_session_to_client, report_playing_if_changed,
  publish_snapshot, send_response_to, session_membership_changed,
}
use abletonlink_client_go.Engine.Measurement.{launch_session_measurement}

module _ {F : Type 0} where
  unfoldable pub live_peers : ℕ → List (NodeId × PeerEntry F) → List (NodeId × PeerEntry F)
  live_peers now [] = []
  live_peers now ((id, p) ∷ ps) =
      let rest = live_peers now ps in if ltb p.expire_at now then rest else (id, p) ∷ rest

module _ {F : Type 0} ⦃fl : Float64 F⦄ where
  -- &peerEntry{}
  abbrev pub empty_peer : PeerEntry F
  empty_peer = record {
    state = zero_peer_state zero_node_id;
    src = none;
    last_seen = 0;
    expire_at = 0;
    tl_session = zero_node_id;
    tl_propagated = zero_timeline;
    tl_known = false;
    ss_session = zero_node_id;
    ss_propagated = zero_start_stop;
    ss_known = false;
  }

  module _ (w : World) where
    unfoldable pub saw_session_timeline : NodeId → Timeline F → Engine F → Engine F
    saw_session_timeline sid tl e =
        if eq_node_id sid e.session_id
        then broadcast w (
            if greater tl.beat_origin e.session_timeline.beat_origin
            then update_session_timing w tl e.session_xform e
            else e)
        else elim (find sid e.other_sessions) [
          | some s ↦
              if greater tl.beat_origin s.timeline.beat_origin
              then record e {
                other_sessions = modify sid (λ s. record { timeline = tl }) e.other_sessions;
              }
              else e
          | none ↦
              launch_session_measurement w sid (record e {
                other_sessions = insert sid (record { timeline = tl }) e.other_sessions;
              })
        ]

    unfoldable pub handle_start_stop_from_session : NodeId → StartStopState → Engine F → Engine F
    handle_start_stop_from_session sid ss e =
        if not (eq_node_id sid e.session_id) || leb_ℤ ss.timestamp e.session_start_stop.timestamp
        then e
        else (let relayed = broadcast w (record e { session_start_stop = ss }) in
            if relayed.start_stop_sync && not (is_empty ss)
            then publish_snapshot (
                report_playing_if_changed (record relayed {
                  client_start_stop =
                      start_stop_session_to_client ss relayed.session_timeline
                        relayed.session_xform;
                }))
            else relayed)

    abbrev pub propagate_timeline : NodeId → PeerEntry F → PeerState F → Engine F → Engine F
    propagate_timeline id peer state e =
        if not peer.tl_known
          || not (eq_node_id peer.tl_session state.session_id)
          || not (eq_timeline peer.tl_propagated state.timeline)
        then saw_session_timeline state.session_id state.timeline (record e {
          peers =
              modify id
                (λ p. record p {
                  tl_known = true;
                  tl_session = state.session_id;
                  tl_propagated = state.timeline;
                })
                e.peers;
        })
        else e

    abbrev pub propagate_start_stop : NodeId → PeerEntry F → PeerState F → Engine F → Engine F
    propagate_start_stop id peer state e =
        if not peer.ss_known
          || not (eq_node_id peer.ss_session state.session_id)
          || not (eq_start_stop peer.ss_propagated state.start_stop)
        then handle_start_stop_from_session state.session_id state.start_stop (record e {
          peers =
              modify id
                (λ p. record p {
                  ss_known = true;
                  ss_session = state.session_id;
                  ss_propagated = state.start_stop;
                })
                e.peers;
        })
        else e

    -- sawPeerState after decoding. `found` is the peer's entry before, if there was one.
    unfoldable pub update_peer :
        NodeId → Option (PeerEntry F) → PeerState F → UdpAddr → Engine F → Engine F
    unfolding saw_session_timeline handle_start_stop_from_session
    update_peer id found state from e =
        let peer : PeerEntry F = elim found [ some p ↦ p | none ↦ empty_peer ] in
        let existed : Bool = elim found [ some p ↦ true | none ↦ false ] in
        let old_session = peer.state.session_id in
        let was_member = existed && eq_node_id old_session e.session_id in
        let now = w.wall e.reads in
        let seen : PeerEntry F = record peer {
          state = state;
          src = some from;
          last_seen = now;
          expire_at = now + (peer_ttl_duration + peer_prune_pad);
        } in
        let entered = tick (record e { peers = insert id seen e.peers }) in
        let told = propagate_start_stop id peer state (propagate_timeline id peer state entered) in
        if not existed
          || not (eq_node_id old_session state.session_id)
          || not (eqb was_member (eq_node_id state.session_id told.session_id))
        then session_membership_changed w told
        else told

    unfoldable pub saw_peer_state : DiscoveryHeader → List ℕ → UdpAddr → Engine F → Engine F
    unfolding update_peer
    saw_peer_state hdr payload from e = elim (decode_peer_state {F = F} hdr.node_id payload) [
      | ok state ↦ update_peer hdr.node_id (find hdr.node_id e.peers) state from e
      | err x ↦ e
      | stuck ↦ e
    ]

    unfoldable pub remove_peer : NodeId → Engine F → Engine F
    remove_peer id e = elim (find id e.peers) [
      | some p ↦ session_membership_changed w (record e { peers = delete id e.peers })
      | none ↦ e
    ]

    unfoldable pub handle_discovery_packet : UdpAddr → List ℕ → Engine F → Engine F
    unfolding saw_peer_state remove_peer
    handle_discovery_packet from bytes e = elim (parse_discovery_message bytes) [
      | none ↦ e
      | some (hdr, payload) ↦
          if not (hdr.group_id == discovery_group_id) || eq_node_id hdr.node_id e.node_id
          then e
          else if hdr.msg_type == discovery_alive
          then (if e.enabled_flag
              then send_response_to w from (saw_peer_state hdr payload from e)
              else e)
          else if hdr.msg_type == discovery_resp
          then (if e.enabled_flag then saw_peer_state hdr payload from e else e)
          else if hdr.msg_type == discovery_bye_bye
          then remove_peer hdr.node_id e
          else e
    ]

    unfoldable pub prune_peers : Engine F → Engine F
    unfolding live_peers
    prune_peers e =
        let kept = live_peers (w.wall e.reads) e.peers in
        let pruned = tick (record e { peers = kept }) in
        if length kept == length e.peers then pruned else session_membership_changed w pruned
