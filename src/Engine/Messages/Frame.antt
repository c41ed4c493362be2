-- ===== src/Engine/Messages/Frame.antt =====
-- What the operations of link/engine.go that send messages need of the identifiers, and keep.
use abletonlink_client_go.Base.{
  ℕ, ◌≡◌, refl, arith, Bool, true, false, Option, none, some, List, [], if◌then◌else◌, ◌&&◌, not,
  length, All, eqb, ◌==◌, ltb,
}
use abletonlink_client_go.Base.Int.{pos, ltb_ℤ}
use abletonlink_client_go.Base.Results.{is_some}
use abletonlink_client_go.Float.{Float64}
use abletonlink_client_go.NodeId.{NodeId}
use abletonlink_client_go.Timeline.{
  Timeline, GhostXForm, eq_timeline, eq_xform, eq_tempo, clamp_tempo,
}
use abletonlink_client_go.PeerState.{UdpAddr, is_empty}
use abletonlink_client_go.Wire.{
  discovery_alive, discovery_resp, discovery_bye_bye, discovery_group_id,
}
use abletonlink_client_go.Engine.State.{
  World, Engine, PeerEntry, SessionEntry, Effect, sent_multicast, sent_to, sent_measurement,
  peers_callback, tempo_callback, start_stop_callback, panicked, send, emit, tick, time_sub,
  min_broadcast_gap,
}
use abletonlink_client_go.Engine.Session.{
  count_session_peers, broadcast_now, broadcast, update_session_timing, report_playing_if_changed,
  publish_snapshot, send_response_to, send_bye_bye, reset_state, session_membership_changed,
  state_message,
}
use abletonlink_client_go.Engine.Sizes.{is_some-state_message, is_some-encode_discovery_message}

-- What the sizes of messages depend on, with the effects.
pub record Outline (F : Type 0) : Type 0 where
  pub own : NodeId
  pub session : NodeId
  pub peers : List (NodeId × PeerEntry F)
  pub others : List (NodeId × SessionEntry F)
  pub effects : List (Effect F)

module _ {F : Type 0} where
  abbrev pub outline : Engine F → Outline F
  outline e = record {
    own = e.node_id;
    session = e.session_id;
    peers = e.peers;
    others = e.other_sessions;
    effects = e.effects;
  }

  -- The effect is no panic of an encoder.
  abbrev pub IsQuiet : Effect F → Type 0
  IsQuiet (sent_multicast msg) = Unit {0}
  IsQuiet (sent_to msg to) = Unit {0}
  IsQuiet (sent_measurement msg to) = Unit {0}
  IsQuiet (peers_callback n) = Unit {0}
  IsQuiet (tempo_callback bpm) = Unit {0}
  IsQuiet (start_stop_callback b) = Unit {0}
  IsQuiet panicked = ⊥

  abbrev pub HasSizedSession : NodeId × PeerEntry F → Type 0
  HasSizedSession p = length p.1.state.session_id ≡ 8

  pub record IsSizedOutline (o : Outline F) : Type 0 where
    pub own_bytes : length o.own ≡ 8
    pub session_bytes : length o.session ≡ 8
    pub peer_bytes : All HasSizedSession o.peers
    pub other_bytes : All (λ s. length s.0 ≡ 8) o.others
    pub quiet : All IsQuiet o.effects

  -- Identifiers have eight bytes, and no encoder has panicked.
  unfoldable pub IsSized : Engine F → Type 0
  IsSized e = IsSizedOutline (outline e)

  same_outline : {m n : Outline F} → n ≡ m → IsSizedOutline m → IsSizedOutline n
  same_outline e h = rw e h

  pub IsSized-same : (x y : Engine F) → IsSized y → outline x ≡ outline y → IsSized x
  unfolding IsSized
  IsSized-same x y h same = same_outline same h

  pub IsSized-if :
      (b : Bool) (x y : Engine F) → IsSized x → IsSized y → IsSized (if b then x else y)
  IsSized-if true x y hx hy = hx
  IsSized-if false x y hx hy = hy

  pub IsSized-peers :
      (e : Engine F) (ps : List (NodeId × PeerEntry F))
      → All HasSizedSession ps
      → IsSized e
      → IsSized (record e { peers = ps })
  unfolding IsSized
  IsSized-peers e ps good h = record {
    own_bytes = h.own_bytes;
    session_bytes = h.session_bytes;
    peer_bytes = good;
    other_bytes = h.other_bytes;
    quiet = h.quiet;
  }

  pub IsSized-others :
      (e : Engine F) (ss : List (NodeId × SessionEntry F))
      → All (λ s. length s.0 ≡ 8) ss
      → IsSized e
      → IsSized (record e { other_sessions = ss })
  unfolding IsSized
  IsSized-others e ss good h = record {
    own_bytes = h.own_bytes;
    session_bytes = h.session_bytes;
    peer_bytes = h.peer_bytes;
    other_bytes = good;
    quiet = h.quiet;
  }

  pub IsSized-emit : (x : Effect F) (e : Engine F) → IsQuiet x → IsSized e → IsSized (emit x e)
  unfolding IsSized
  IsSized-emit x e q h = record {
    own_bytes = h.own_bytes;
    session_bytes = h.session_bytes;
    peer_bytes = h.peer_bytes;
    other_bytes = h.other_bytes;
    quiet = (q, h.quiet);
  }

  pub IsSized-send :
      (f : List ℕ → Effect F) (msg : Option (List ℕ)) (e : Engine F)
      → is_some msg ≡ true
      → ((m : List ℕ) → IsQuiet (f m))
      → IsSized e
      → IsSized (send f msg e)
  IsSized-send f none e s q h = cc
  IsSized-send f (some msg) e s q h = IsSized-emit (f msg) e (q msg) h

  -- A new session, with a new identifier.
  founded :
      (e : Engine F) (id : NodeId)
      → length id ≡ 8
      → IsSized e
      → IsSized (record e { node_id = id; session_id = id })
  unfolding IsSized
  founded e id bytes h = record {
    own_bytes = bytes;
    session_bytes = bytes;
    peer_bytes = h.peer_bytes;
    other_bytes = h.other_bytes;
    quiet = h.quiet;
  }

  -- Without peers and other sessions.
  pub IsSized-alone :
      (e : Engine F) → IsSized e → IsSized (record e { peers = []; other_sessions = [] })
  unfolding IsSized
  IsSized-alone e h = record {
    own_bytes = h.own_bytes;
    session_bytes = h.session_bytes;
    peer_bytes = tt;
    other_bytes = tt;
    quiet = h.quiet;
  }

  -- The log of effects starts afresh.
  pub IsSized-unlogged : (e : Engine F) → IsSized e → IsSized (record e { effects = [] })
  unfolding IsSized
  IsSized-unlogged e h = record {
    own_bytes = h.own_bytes;
    session_bytes = h.session_bytes;
    peer_bytes = h.peer_bytes;
    other_bytes = h.other_bytes;
    quiet = tt;
  }

module _ {F : Type 0} ⦃fl : Float64 F⦄ where
  pub IsSized-report : (e : Engine F) → IsSized e → IsSized (report_playing_if_changed e)
  unfolding report_playing_if_changed
  IsSized-report e h =
      IsSized-if (eqb e.client_start_stop.is_playing e.last_playing_cb) _ _ h
        (IsSized-emit _ _ tt (IsSized-same _ _ h refl))

  pub IsSized-publish : (e : Engine F) → IsSized e → IsSized (publish_snapshot e)
  unfolding publish_snapshot
  IsSized-publish e h = IsSized-same _ _ h refl

  module _ (w : World) where
    is_some-announcement :
        (msg_type : ℕ) (e : Engine F) → IsSized e → is_some (state_message w msg_type e) ≡ true
    unfolding IsSized
    is_some-announcement msg_type e h =
        is_some-state_message w msg_type e h.own_bytes h.session_bytes

    pub IsSized-broadcast_now : (e : Engine F) → IsSized e → IsSized (broadcast_now w e)
    unfolding broadcast_now
    IsSized-broadcast_now e h =
        IsSized-if e.enabled_flag _ _
          (IsSized-send _ _ _ (is_some-announcement discovery_alive e h) (λ m. tt)
            (IsSized-same _ _ h refl))
          h

    pub IsSized-broadcast : (e : Engine F) → IsSized e → IsSized (broadcast w e)
    unfolding broadcast
    IsSized-broadcast e h = IsSized-if (not e.enabled_flag) _ _ h (
        IsSized-if (ltb_ℤ (time_sub (w.wall e.reads) e.last_broadcast) (pos min_broadcast_gap)) _ _
          (IsSized-if e.broadcast_pending _ _ (IsSized-same _ _ h refl) (IsSized-same _ _ h refl))
          (IsSized-broadcast_now (tick e) (IsSized-same _ _ h refl)))

    pub IsSized-send_response_to :
        (from : UdpAddr) (e : Engine F) → IsSized e → IsSized (send_response_to w from e)
    unfolding send_response_to
    IsSized-send_response_to from e h =
        IsSized-send _ _ e (is_some-announcement discovery_resp e h) (λ m. tt) h

    pub IsSized-send_bye_bye : (e : Engine F) → IsSized e → IsSized (send_bye_bye w e)
    unfolding send_bye_bye IsSized
    IsSized-send_bye_bye e h =
        IsSized-send sent_multicast _ e
          (is_some-encode_discovery_message discovery_bye_bye 0 discovery_group_id e.node_id []
            h.own_bytes (omega arith))
          (λ m. tt) h

    pub IsSized-update_session_timing :
        (tl : Timeline F) (x : GhostXForm F) (e : Engine F)
        → IsSized e
        → IsSized (update_session_timing w tl x e)
    unfolding update_session_timing
    IsSized-update_session_timing tl x e h =
        let mapped =
          IsSized-if (e.start_stop_sync && not (is_empty e.session_start_stop)) _ _
            (IsSized-report _ (IsSized-same _ _ h refl)) (IsSized-same _ _ h refl) in
        IsSized-if (eq_timeline e.session_timeline (clamp_tempo tl) && eq_xform e.session_xform x) _
          _ h
          (IsSized-publish _ (
            IsSized-if (eq_tempo e.session_timeline.tempo (clamp_tempo tl).tempo) _ _ mapped
              (IsSized-emit _ _ tt mapped)))

    module _ (ids : (k : ℕ) → length (w.random k) ≡ 8) where
      pub IsSized-reset_state : (e : Engine F) → IsSized e → IsSized (reset_state w e)
      unfolding reset_state
      IsSized-reset_state e h = IsSized-alone _ (
          IsSized-broadcast _ (
            IsSized-update_session_timing _ _ _
              (IsSized-same _ _ (founded e _ (ids e.draws) h) refl)))

      pub IsSized-session_membership_changed :
          (e : Engine F) → IsSized e → IsSized (session_membership_changed w e)
      unfolding session_membership_changed
      IsSized-session_membership_changed e h =
          let count = count_session_peers e.session_id e.peers in
          IsSized-if (count == e.session_peer_nbr) _ _ h (
            IsSized-emit _ _ tt (
              IsSized-publish _ (
                IsSized-if ((count == 0) && ltb 0 e.session_peer_nbr) _ _
                  (IsSized-reset_state _ (IsSized-same _ _ h refl)) (IsSized-same _ _ h refl))))
