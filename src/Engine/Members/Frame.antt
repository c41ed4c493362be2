-- ===== src/Engine/Members/Frame.antt =====
-- The operations of link/engine.go and link/measurement.go that keep the session, the peers and the
-- other sessions.
use abletonlink_client_go.Base.{
  ℕ, ◌≡◌, refl, arith, Bool, true, false, Option, none, some, List, [], if◌then◌else◌, not, eqb,
}
use abletonlink_client_go.Base.Int.{ltb_ℤ, pos}
use abletonlink_client_go.Float.{Float64}
use abletonlink_client_go.Clock.{Micros}
use abletonlink_client_go.NodeId.{NodeId}
use abletonlink_client_go.Timeline.{Timeline, GhostXForm}
use abletonlink_client_go.PeerState.{UdpAddr, StartStopState}
use abletonlink_client_go.Engine.State.{
  World, Engine, PeerEntry, SessionEntry, Effect, send, tick, TimerHub, Measurer, time_sub,
  min_broadcast_gap,
}
use abletonlink_client_go.Engine.Session.{
  broadcast_now, broadcast, update_session_timing, report_playing_if_changed, publish_snapshot,
  send_response_to, send_bye_bye,
}
use abletonlink_client_go.Engine.Join.{schedule_remeasure}
use abletonlink_client_go.Engine.Measurement.{send_ping, start_measurement, handle_ping}
use abletonlink_client_go.Engine.Discovery.{handle_start_stop_from_session}

-- What the theorems on the members of a session are about.
pub record Members (F : Type 0) : Type 0 where
  pub enabled : Bool
  pub nbr : ℕ
  pub session : NodeId
  pub peers : List (NodeId × PeerEntry F)
  pub others : List (NodeId × SessionEntry F)

module _ {F : Type 0} where
  unfoldable pub members : Engine F → Members F
  members e = record {
    enabled = e.enabled_flag;
    nbr = e.session_peer_nbr;
    session = e.session_id;
    peers = e.peers;
    others = e.other_sessions;
  }

  pub members-enabled : (e : Engine F) {b : Bool} → e.enabled_flag ≡ b → (members e).enabled ≡ b
  unfolding members
  members-enabled e h = h

  pub members-tick : (e : Engine F) → members (tick e) ≡ members e
  unfolding members
  members-tick e = refl

  -- Timers and measurements are no members.
  pub members-hub :
      (e : Engine F) (hub : TimerHub) (ms : List (NodeId × Measurer F))
      → members (record e { hub = hub; measurements = ms }) ≡ members e
  unfolding members
  members-hub e hub ms = refl

  -- The log of effects starts afresh.
  pub members-unlogged : (e : Engine F) → members (record e { effects = [] }) ≡ members e
  unfolding members
  members-unlogged e = refl

  pub members-if :
      (b : Bool) (x y : Engine F) {m : Members F}
      → members x ≡ m
      → members y ≡ m
      → members (if b then x else y) ≡ m
  members-if true x y hx hy = hx
  members-if false x y hx hy = hy

  pub members-send :
      (f : List ℕ → Effect F) (msg : Option (List ℕ)) (e : Engine F)
      → members (send f msg e) ≡ members e
  unfolding members
  members-send f none e = refl
  members-send f (some msg) e = refl

module _ {F : Type 0} ⦃fl : Float64 F⦄ where
  pub members-report : (e : Engine F) → members (report_playing_if_changed e) ≡ members e
  unfolding members report_playing_if_changed
  members-report e = members-if (eqb e.client_start_stop.is_playing e.last_playing_cb) _ _ refl refl

  pub members-publish : (e : Engine F) → members (publish_snapshot e) ≡ members e
  unfolding members publish_snapshot
  members-publish e = refl

  pub members-schedule_remeasure : (e : Engine F) → members (schedule_remeasure e) ≡ members e
  unfolding members schedule_remeasure
  members-schedule_remeasure e = refl

  module _ (w : World) where
    pub members-broadcast_now : (e : Engine F) → members (broadcast_now w e) ≡ members e
    unfolding broadcast_now members
    members-broadcast_now e = members-if e.enabled_flag _ _ (members-send _ _ _) refl

    pub members-broadcast : (e : Engine F) → members (broadcast w e) ≡ members e
    unfolding broadcast members
    members-broadcast e = members-if (not e.enabled_flag) _ _ refl (
        members-if (ltb_ℤ (time_sub (w.wall e.reads) e.last_broadcast) (pos min_broadcast_gap)) _ _
          (members-if e.broadcast_pending _ _ refl refl) (members-broadcast_now _))

    pub members-update_session_timing :
        (tl : Timeline F) (x : GhostXForm F) (e : Engine F)
        → members (update_session_timing w tl x e) ≡ members e
    unfolding update_session_timing members report_playing_if_changed publish_snapshot
    members-update_session_timing tl x e = ground arith

    pub members-send_bye_bye : (e : Engine F) → members (send_bye_bye w e) ≡ members e
    unfolding send_bye_bye
    members-send_bye_bye e = members-send _ _ e

    pub members-send_response_to :
        (from : UdpAddr) (e : Engine F) → members (send_response_to w from e) ≡ members e
    unfolding send_response_to
    members-send_response_to from e = members-send _ _ e

    pub members-send_ping :
        (sid : NodeId) (to : UdpAddr) (host prev : Micros) (e : Engine F)
        → members (send_ping sid to host prev e) ≡ members e
    unfolding send_ping members
    members-send_ping sid to host prev e = members-send _ _ _

    pub members-start_measurement :
        (sid : NodeId) (to : UdpAddr) (e : Engine F)
        → members (start_measurement w sid to e) ≡ members e
    unfolding start_measurement send_ping members
    members-start_measurement sid to e = ground arith

    pub members-handle_ping :
        (from : UdpAddr) (payload : List ℕ) (e : Engine F)
        → members (handle_ping w from payload e) ≡ members e
    unfolding handle_ping members
    members-handle_ping from payload e = members-send _ _ _

    pub members-handle_start_stop :
        (sid : NodeId) (ss : StartStopState) (e : Engine F)
        → members (handle_start_stop_from_session w sid ss e) ≡ members e
    unfolding handle_start_stop_from_session members broadcast broadcast_now
        report_playing_if_changed publish_snapshot
    members-handle_start_stop sid ss e = ground arith
