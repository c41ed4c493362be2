-- ===== src/Engine/Callbacks/Broadcasts.antt =====
-- The messages of link/engine.go and link/measurement.go tell the application nothing; founding a
-- session and counting its peers keep what it was told in step with what is so.
use abletonlink_client_go.Base.{ℕ, ◌++◌, ◌≡◌, refl, Bool, true, List, ◌==◌, ◌&&◌, ltb, not}
use abletonlink_client_go.Base.Int.{pos, ltb_ℤ}
use abletonlink_client_go.Float.{Float64}
use abletonlink_client_go.Clock.{Micros}
use abletonlink_client_go.NodeId.{NodeId}
use abletonlink_client_go.PeerState.{UdpAddr, StartStopState}
use abletonlink_client_go.Engine.State.{
  World, Engine, time_sub, min_broadcast_gap, sent_multicast, sent_to, sent_measurement,
}
use abletonlink_client_go.Engine.Session.{
  count_session_peers, broadcast_now, broadcast, send_response_to, send_bye_bye, reset_state,
  session_membership_changed,
}
use abletonlink_client_go.Engine.Join.{schedule_remeasure}
use abletonlink_client_go.Engine.Measurement.{send_ping, start_measurement, handle_ping}
use abletonlink_client_go.Engine.Callbacks.Heard.{
  heard, heard-same, heard-if, heard-emit, heard-send, IsTold, IsTold-of, IsTold-if,
}
use abletonlink_client_go.Engine.Callbacks.Frame.{IsTold-publish, IsTold-update_session_timing}

module _ {F : Type 0} ⦃fl : Float64 F⦄ (first : F × Bool) where
  pub heard-schedule_remeasure : (e : Engine F) → heard first (schedule_remeasure e) ≡ heard first e
  unfolding schedule_remeasure heard
  heard-schedule_remeasure e = refl

  pub heard-send_ping :
      (sid : NodeId) (to : UdpAddr) (host prev : Micros) (e : Engine F)
      → heard first (send_ping sid to host prev e) ≡ heard first e
  unfolding send_ping heard
  heard-send_ping sid to host prev e =
      heard-send first (λ msg. sent_measurement msg to) _ _ (λ m. tt)

  module _ (w : World) where
    pub heard-broadcast_now : (e : Engine F) → heard first (broadcast_now w e) ≡ heard first e
    unfolding broadcast_now heard
    heard-broadcast_now e =
        heard-if first e.enabled_flag _ _ (heard-send first sent_multicast _ _ (λ m. tt)) refl

    pub heard-broadcast : (e : Engine F) → heard first (broadcast w e) ≡ heard first e
    unfolding broadcast heard
    heard-broadcast e = heard-if first (not e.enabled_flag) _ _ refl (
        heard-if first (ltb_ℤ (time_sub (w.wall e.reads) e.last_broadcast) (pos min_broadcast_gap))
          _ _ (heard-if first e.broadcast_pending _ _ refl refl) (heard-broadcast_now _))

    pub heard-send_response_to :
        (from : UdpAddr) (e : Engine F) → heard first (send_response_to w from e) ≡ heard first e
    unfolding send_response_to
    heard-send_response_to from e = heard-send first (λ msg. sent_to msg from) _ e (λ m. tt)

    pub heard-send_bye_bye : (e : Engine F) → heard first (send_bye_bye w e) ≡ heard first e
    unfolding send_bye_bye
    heard-send_bye_bye e = heard-send first sent_multicast _ e (λ m. tt)

    pub heard-handle_ping :
        (from : UdpAddr) (payload : List ℕ) (e : Engine F)
        → heard first (handle_ping w from payload e) ≡ heard first e
    unfolding handle_ping heard
    heard-handle_ping from payload e =
        heard-send first (λ msg. sent_measurement (msg ++ payload) from) _ _ (λ m. tt)

    pub heard-start_measurement :
        (sid : NodeId) (to : UdpAddr) (e : Engine F)
        → heard first (start_measurement w sid to e) ≡ heard first e
    unfolding start_measurement send_ping heard
    heard-start_measurement sid to e =
        heard-send first (λ msg. sent_measurement msg to) _ _ (λ m. tt)

    -- A new session, and a new count: neither was told or is shown yet.
    heard-founded :
        (e : Engine F) (id : NodeId) (ss : StartStopState) (reads draws : ℕ)
        → heard first (record e {
          node_id = id;
          session_id = id;
          session_start_stop = ss;
          reads = reads;
          draws = draws;
        })
          ≡ heard first e
    unfolding heard
    heard-founded e id ss reads draws = refl

    heard-counted :
        (e : Engine F) (n : ℕ) → heard first (record e { session_peer_nbr = n }) ≡ heard first e
    unfolding heard
    heard-counted e n = refl

    pub IsTold-reset_state :
        (e : Engine F)
        → IsTold true true (heard first e)
        → IsTold true true (heard first (reset_state w e))
    unfolding reset_state
    IsTold-reset_state e h = IsTold-of (heard-same first _ _ _ _ _) (
        IsTold-of (heard-broadcast _)
          (IsTold-update_session_timing first w _ _ _ (IsTold-of (heard-founded e _ _ _ _) h)))

    pub IsTold-session_membership_changed :
        (e : Engine F)
        → IsTold true true (heard first e)
        → IsTold true true (heard first (session_membership_changed w e))
    unfolding session_membership_changed
    IsTold-session_membership_changed e h =
        let count = count_session_peers e.session_id e.peers in
        let counted = IsTold-of (heard-counted e count) h in
        IsTold-if first (count == e.session_peer_nbr) _ _ h (
          IsTold-of (heard-emit first _ _ tt) (
            IsTold-publish first _ (
              IsTold-if first ((count == 0) && ltb 0 e.session_peer_nbr) _ _
                (IsTold-reset_state _ counted) counted)))
