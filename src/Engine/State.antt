-- ===== src/Engine/State.antt =====
-- The state of the engine (link/engine.go, link/measurement.go), the inputs that it reads and the
-- effects that it has on the world. Logging is left out.
use abletonlink_client_go.Base.{
  ℕ, suc, ◌-◌, ◌^◌, Bool, true, Option, none, some, List, [], ◌∷◌, if◌then◌else◌, ◌==◌, ◌&&◌, ◌||◌,
  length, take, drop,
}
use abletonlink_client_go.Base.Int.{ℤ, pos, negsuc, sub_ℕ, ltb_ℤ}
use abletonlink_client_go.Base.Map.{Key}
use abletonlink_client_go.Clock.{Micros}
use abletonlink_client_go.NodeId.{NodeId, eq_node_id}
use abletonlink_client_go.NodeId.Order.{eq_node_id→eq, eq_node_id_of_eq}
use abletonlink_client_go.Timeline.{Timeline, GhostXForm}
use abletonlink_client_go.PeerState.{StartStopState, PeerState, UdpAddr}

abbrev all_zero : List ℕ → Bool
all_zero [] = true
all_zero (b ∷ bs) = b == 0 && all_zero bs

-- net.IP.IsUnspecified: 0.0.0.0 in its form of 4 or of 16 bytes, or `::`. An empty IP is not.
unfoldable pub is_unspecified : List ℕ → Bool
is_unspecified ip =
    if length ip == 4
    then all_zero ip
    else (length ip == 16)
      && all_zero (take 10 ip)
      && (all_zero (drop 10 ip)
          || (eq_node_id (take 2 (drop 10 ip)) (255 ∷ 255 ∷ []) && all_zero (drop 12 ip)))

-- What measurementEndpoint reads of the network: the local address of the measurement socket, and
-- the address of the discovery interface.
pub record Network : Type 0 where
  pub ms_local : Option UdpAddr
  pub if_ip : Option (List ℕ)

unfoldable pub measurement_endpoint : Network → Option UdpAddr
unfolding is_unspecified
measurement_endpoint n = elim n.ms_local [
  | none ↦ none
  | some addr ↦
      if is_unspecified addr.ip
      then elim n.if_ip [ none ↦ some addr | some ip ↦ some (record { ip = ip; port = addr.port }) ]
      else some addr
]

-- The k-th reading of the monotonic clock and of the wall clock (in nanoseconds from Go's zero
-- time), and the k-th random identifier. rand.Read of crypto/rand is documented never to return an
-- error, since Go 1.24 (go.mod asks for 1.27.1), so the panic in randomNodeId is not reached.
pub record World : Type 0 where
  pub micros : ℕ → Micros
  pub wall : ℕ → ℕ
  pub random : ℕ → NodeId
  pub network : Network

instance abbrev pub node_id_key : Key NodeId
node_id_key = record {
  same = eq_node_id;
  same_iff = λ a b. (eq_node_id→eq a b, eq_node_id_of_eq a b);
}

-- time.Time.Sub: a difference in nanoseconds, saturated to int64.
unfoldable pub time_sub : ℕ → ℕ → ℤ
time_sub t u =
    let d = sub_ℕ t u in
    if ltb_ℤ (pos (2 ^ 63 - 1)) d
    then pos (2 ^ 63 - 1)
    else if ltb_ℤ d (negsuc (2 ^ 63 - 1))
    then negsuc (2 ^ 63 - 1)
    else d

-- Durations, in nanoseconds.
abbrev pub peer_ttl_duration : ℕ
peer_ttl_duration = 5_000_000_000

abbrev pub peer_prune_pad : ℕ
peer_prune_pad = 1_000_000_000

abbrev pub min_broadcast_gap : ℕ
min_broadcast_gap = 50_000_000

abbrev pub remeasure_after : ℕ
remeasure_after = 30_000_000_000

abbrev pub measure_timer : ℕ
measure_timer = 50_000_000

-- In microseconds of ghost time.
abbrev pub session_epsilon : ℕ
session_epsilon = 500_000

abbrev pub max_measure_points : ℕ
max_measure_points = 100

abbrev pub max_measure_starts : ℕ
max_measure_starts = 5

pub record ClientStartStop : Type 0 where
  pub is_playing : Bool
  pub time : Micros
  pub timestamp : Micros

pub record PeerEntry (F : Type 0) : Type 0 where
  pub state : PeerState F
  pub src : Option UdpAddr
  pub last_seen : ℕ
  pub expire_at : ℕ
  pub tl_session : NodeId
  pub tl_propagated : Timeline F
  pub tl_known : Bool
  pub ss_session : NodeId
  pub ss_propagated : StartStopState
  pub ss_known : Bool

pub record SessionEntry (F : Type 0) : Type 0 where
  pub timeline : Timeline F

pub record Measurer (F : Type 0) : Type 0 where
  pub session_id : NodeId
  pub target : UdpAddr
  pub points : List F
  pub started : ℕ
  pub last_host : Micros
  pub last_ghost : Micros
  pub timer_id : ℕ

-- The closures that the engine hands to timers.
pub data Callback : Type 0 where
  deferred_broadcast remeasure : Callback
  measurer_timer_fired : NodeId → Callback

pub record TimerHub : Type 0 where
  pub seq : ℕ
  -- The running timers with their durations.
  pub tim : List (ℕ × ℤ)
  pub cbs : List (ℕ × Callback)

pub record PeerInfo (F : Type 0) : Type 0 where
  pub node_id : NodeId
  pub session_id : NodeId
  pub tempo : F
  pub addr : Option UdpAddr

pub record Snapshot (F : Type 0) : Type 0 where
  pub enabled : Bool
  pub num_peers : ℕ
  pub tempo : F
  pub playing : Bool
  pub timeline : Timeline F
  pub node_id : NodeId
  pub session_id : NodeId
  pub peers : List (PeerInfo F)

pub data Effect (F : Type 0) : Type 0 where
  sent_multicast : List ℕ → Effect F
  sent_to sent_measurement : List ℕ → UdpAddr → Effect F
  peers_callback : ℕ → Effect F
  tempo_callback : F → Effect F
  start_stop_callback : Bool → Effect F
  -- The panic of an encoder; what the model does after it is no behaviour of the code.
  panicked : Effect F

pub record Engine (F : Type 0) : Type 0 where
  pub node_id : NodeId
  pub session_id : NodeId
  pub session_timeline : Timeline F
  pub session_xform : GhostXForm F
  pub session_start_stop : StartStopState
  pub client_timeline : Timeline F
  pub client_start_stop : ClientStartStop
  pub last_playing_cb : Bool
  pub start_stop_sync : Bool
  pub enabled_flag : Bool
  pub peers : List (NodeId × PeerEntry F)
  pub other_sessions : List (NodeId × SessionEntry F)
  pub measurements : List (NodeId × Measurer F)
  pub session_peer_nbr : ℕ
  pub last_broadcast : ℕ
  pub broadcast_pending : Bool
  pub broadcast_timer_id : ℕ
  pub remeasure_id : ℕ
  pub hub : TimerHub
  -- The snapshot that the Link shows to callers, the effects so far (latest first), and how many
  -- clock readings and random identifiers have been drawn.
  pub snap : Snapshot F
  pub effects : List (Effect F)
  pub reads : ℕ
  pub draws : ℕ

module _ {F : Type 0} where
  abbrev pub emit : Effect F → Engine F → Engine F
  emit x e = record e { effects = x ∷ e.effects }

  -- One clock reading is used up.
  abbrev pub tick : Engine F → Engine F
  tick e = record e { reads = suc e.reads }

  abbrev pub send : (List ℕ → Effect F) → Option (List ℕ) → Engine F → Engine F
  send f none e = emit panicked e
  send f (some msg) e = emit (f msg) e
