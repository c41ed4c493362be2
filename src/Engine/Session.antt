-- ===== src/Engine/Session.antt =====
-- Sessions in link/engine.go: publishing, pacing of broadcasts, the session timing, founding a
-- session, and the count of its peers.
use abletonlink_client_go.Base.{
  ℕ, suc, true, Option, none, some, List, [], ◌∷◌, map, ◌&&◌, not, eqb, ltb, ◌==◌, if◌then◌else◌,
}
use abletonlink_client_go.Base.Int.{ℤ, pos, ltb_ℤ, ◌-ℤ◌}
use abletonlink_client_go.Float.{Float64}
use abletonlink_client_go.NodeId.{NodeId, eq_node_id, compare_node_id}
use abletonlink_client_go.Timeline.{
  Timeline, GhostXForm, eq_timeline, eq_tempo, eq_xform, clamp_tempo, host_to_ghost, ghost_to_host,
  init_xform, to_beats, from_beats, update_client_timeline_from_session,
}
use abletonlink_client_go.Wire.{
  encode_discovery_message, discovery_alive, discovery_resp, discovery_bye_bye, discovery_ttl,
  discovery_group_id,
}
use abletonlink_client_go.PeerState.{
  StartStopState, PeerState, UdpAddr, zero_start_stop, is_empty, encode_peer_state_entries,
}
use abletonlink_client_go.Engine.State.{
  World, Network, measurement_endpoint, time_sub, min_broadcast_gap, ClientStartStop, PeerEntry,
  PeerInfo, sent_multicast, sent_to, peers_callback, tempo_callback, start_stop_callback, Engine,
  emit, tick, send, deferred_broadcast,
}
use abletonlink_client_go.Engine.Hub.{after, next_id}

module _ {F : Type 0} where
  unfoldable pub count_session_peers : NodeId → List (NodeId × PeerEntry F) → ℕ
  count_session_peers sid [] = 0
  count_session_peers sid ((id, peer) ∷ peers) =
      let n = count_session_peers sid peers in
      if eq_node_id peer.state.session_id sid then suc n else n

module _ {F : Type 0} ⦃fl : Float64 F⦄ where
  abbrev peer_info : PeerEntry F → PeerInfo F
  peer_info peer = record {
    node_id = peer.state.node_id;
    session_id = peer.state.session_id;
    tempo = peer.state.timeline.tempo.bpm;
    addr = elim peer.src [ some a ↦ some a | none ↦ peer.state.measurement_endpoint ];
  }

  -- sort.Slice, by the identifiers.
  unfoldable pub insert_info : PeerInfo F → List (PeerInfo F) → List (PeerInfo F)
  insert_info p [] = p ∷ []
  insert_info p (q ∷ qs) =
      if ltb_ℤ (compare_node_id q.node_id p.node_id) (pos 0)
      then q ∷ insert_info p qs
      else p ∷ q ∷ qs

  unfoldable pub sort_infos : List (PeerInfo F) → List (PeerInfo F)
  unfolding insert_info
  sort_infos [] = []
  sort_infos (p ∷ ps) = insert_info p (sort_infos ps)

  unfoldable pub publish_snapshot : Engine F → Engine F
  publish_snapshot e = record e {
    snap = record {
      enabled = e.enabled_flag;
      num_peers = e.session_peer_nbr;
      tempo = e.session_timeline.tempo.bpm;
      playing = e.client_start_stop.is_playing;
      timeline = e.client_timeline;
      node_id = e.node_id;
      session_id = e.session_id;
      peers = sort_infos (map (λ p. peer_info p.1) e.peers);
    };
  }

  unfoldable pub report_playing_if_changed : Engine F → Engine F
  report_playing_if_changed e =
      let playing = e.client_start_stop.is_playing in
      if eqb playing e.last_playing_cb
      then e
      else emit (start_stop_callback playing) (record e { last_playing_cb = playing })

  unfoldable pub start_stop_session_to_client :
      StartStopState → Timeline F → GhostXForm F → ClientStartStop
  start_stop_session_to_client ss tl xform = record {
    is_playing = ss.is_playing;
    time = ghost_to_host xform (from_beats tl ss.beat);
    timestamp = ghost_to_host xform ss.timestamp;
  }

  unfoldable pub current_peer_state : Network → Engine F → PeerState F
  current_peer_state net e = record {
    node = record {
      node_id = e.node_id;
      session_id = e.session_id;
      timeline = e.session_timeline;
      start_stop = e.session_start_stop;
    };
    measurement_endpoint = measurement_endpoint net;
  }

  module _ (w : World) where
    -- The message that announces the engine's state.
    unfoldable pub state_message : ℕ → Engine F → Option (List ℕ)
    state_message msg_type e =
        encode_discovery_message msg_type discovery_ttl discovery_group_id e.node_id
          (encode_peer_state_entries (current_peer_state w.network e))

    unfoldable pub broadcast_now : Engine F → Engine F
    broadcast_now e =
        if e.enabled_flag
        then send sent_multicast (state_message discovery_alive e)
            (tick (record e { last_broadcast = w.wall e.reads }))
        else e

    abbrev schedule_broadcast : ℤ → Engine F → Engine F
    schedule_broadcast d e = record e {
      broadcast_pending = true;
      broadcast_timer_id = next_id e.hub;
      hub = after d deferred_broadcast e.hub;
    }

    unfoldable pub broadcast : Engine F → Engine F
    unfolding broadcast_now
    broadcast e =
        let elapsed = time_sub (w.wall e.reads) e.last_broadcast in
        if not e.enabled_flag
        then e
        else if ltb_ℤ elapsed (pos min_broadcast_gap)
        then (if e.broadcast_pending
            then tick e
            else schedule_broadcast (pos min_broadcast_gap -ℤ elapsed) (tick e))
        else broadcast_now (tick e)

    unfoldable pub send_response_to : UdpAddr → Engine F → Engine F
    send_response_to from e = send (λ msg. sent_to msg from) (state_message discovery_resp e) e

    unfoldable pub update_session_timing : Timeline F → GhostXForm F → Engine F → Engine F
    update_session_timing new_timeline new_xform e =
        let tl = clamp_tempo new_timeline in
        if eq_timeline e.session_timeline tl && eq_xform e.session_xform new_xform
        then e
        else (let now = w.micros e.reads in
            let timed = tick (record e {
              session_timeline = tl;
              session_xform = new_xform;
              client_timeline =
                  update_client_timeline_from_session e.client_timeline tl now new_xform;
            }) in
            let mapped =
              if e.start_stop_sync && not (is_empty e.session_start_stop)
              then report_playing_if_changed (record timed {
                client_start_stop = start_stop_session_to_client e.session_start_stop tl new_xform;
              })
              else timed in
            publish_snapshot (
              if eq_tempo e.session_timeline.tempo tl.tempo
              then mapped
              else emit (tempo_callback tl.tempo.bpm) mapped))

    unfoldable pub reset_state : Engine F → Engine F
    reset_state e =
        let id = w.random e.draws in
        let now = w.micros e.reads in
        let xform = init_xform {F = F} now in
        let host_time = ghost_to_host xform (pos 0) in
        let new_tl : Timeline F = record {
          tempo = e.session_timeline.tempo;
          beat_origin = to_beats e.session_timeline (host_to_ghost e.session_xform host_time);
          time_origin = host_to_ghost xform host_time;
        } in
        let founded = tick (record e {
          node_id = id;
          session_id = id;
          draws = suc e.draws;
          session_start_stop = zero_start_stop;
        }) in
        record (broadcast (update_session_timing new_tl xform founded)) {
          other_sessions = [];
          peers = [];
        }

    unfoldable pub session_membership_changed : Engine F → Engine F
    session_membership_changed e =
        let count = count_session_peers e.session_id e.peers in
        if count == e.session_peer_nbr
        then e
        else (let counted = record e { session_peer_nbr = count } in
            let settled =
              if count == 0 && ltb 0 e.session_peer_nbr then reset_state counted else counted in
            emit (peers_callback count) (publish_snapshot settled))

    unfoldable pub send_bye_bye : Engine F → Engine F
    send_bye_bye e =
        send sent_multicast
          (encode_discovery_message discovery_bye_bye 0 discovery_group_id e.node_id []) e
