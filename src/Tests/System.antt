-- ===== src/Tests/System.antt =====
-- Runs of the network's set-up, the receive loop, the log of failures and the text of identifiers.
use abletonlink_client_go.Base.{
  ◌+◌, ◌≤◌, ◌≡◌, refl, arith, true, false, none, some, List, [], ◌∷◌, ◌++◌,
}
use abletonlink_client_go.Base.Int.{ℤ, pos, negsuc}
use abletonlink_client_go.Clock.Wall.{
  time_of_micros, micros_from_time, micros_from_time-time_of_micros,
}
use abletonlink_client_go.NodeId.Text.{
  encode_hex, node_id_string, parse_node_id, parse_node_id-encode_hex,
}
use abletonlink_client_go.PeerState.{to4}
use abletonlink_client_go.Network.{
  Interface, Os, udp_conn, done, broadcast_socket, unicast_socket, multicast_socket,
  measurement_socket, Socket, Sockets, resolve_unicast_bind, open_sockets, first_v4,
  select_interface, open_network,
}
use abletonlink_client_go.Network.Select.{select_interface-preferred}
use abletonlink_client_go.Network.Cleanup.{LeavesOpen, open_network-LeavesOpen}
use abletonlink_client_go.Network.Receive.{
  Turn, datagram, read_error, arrives, takes, IsBounded, IsSubsequence, arrived, turns,
  fresh_channel, turns_deliver,
}
use abletonlink_client_go.Reporter.{Sent, succeeded, failed, new_reporter, report_all}
use abletonlink_client_go.Reporter.Accounting.{told_all, hints, report_all_accounts}
use abletonlink_client_go.Exact.{Exact, exact_float}
use abletonlink_client_go.Engine.Loop.{enable, init}
use abletonlink_client_go.Engine.State.{Engine}
use abletonlink_client_go.Link.{Config, Link, with_defaults, started, new_link, close}
use abletonlink_client_go.Link.Lifecycle.{close-new_link}
use abletonlink_client_go.Terminal.Bars.{replicate}
use abletonlink_client_go.Terminal.Main.{Flags, main, IsClean, main-open}
use abletonlink_client_go.Tests.Members.{world, joined}
use abletonlink_client_go.Tests.Values.{id_a, endpoint}

abbrev lo : Interface
lo = record {
  name = 108 ∷ 111 ∷ [];
  addrs = some (some (127 ∷ 0 ∷ 0 ∷ 1 ∷ []) ∷ []);
  is_up = true;
  is_loopback = true;
}

abbrev en : Interface
en = record {
  name = 101 ∷ 110 ∷ [];
  addrs = some (none ∷ some (10 ∷ 0 ∷ 0 ∷ 7 ∷ []) ∷ []);
  is_up = true;
  is_loopback = false;
}

-- A host with a loopback and a wired interface, whose unicast port is in use.
abbrev host : Os
host = record {
  interfaces = some (lo ∷ en ∷ []);
  parse_ip = λ s. none;
  interface_by_name = λ s. none;
  listen_packet = λ port. udp_conn;
  join_group = λ ifi ip. true;
  listen_broadcast = λ ip. true;
  listen_unicast = λ ip. false;
  listen_measurement = λ ip. true;
}

-- The wired interface is taken, though it comes second.
select_interface-preferred_example : select_interface host [] ≡ done (en, 10 ∷ 0 ∷ 0 ∷ 7 ∷ [])
unfolding first_v4 to4
select_interface-preferred_example = select_interface-preferred host []

open_network-LeavesOpen_example :
    LeavesOpen (broadcast_socket ∷ []) (open_network host [] [] (broadcast_socket ∷ []))
open_network-LeavesOpen_example = open_network-LeavesOpen host [] [] (broadcast_socket ∷ [])

-- The channel has room for one packet, so the second is dropped.
abbrev four_reads : List Turn
four_reads =
    arrives (datagram endpoint (1 ∷ []))
    ∷ arrives (datagram endpoint (2 ∷ []))
    ∷ takes
    ∷ arrives (datagram endpoint (3 ∷ []))
    ∷ arrives (datagram endpoint (replicate 513 4))
    ∷ arrives read_error
    ∷ []

turns_deliver_example :
    let c = turns four_reads (fresh_channel 1) in
    IsBounded c × IsSubsequence (c.taken ++ c.queue) (arrived four_reads)
turns_deliver_example = turns_deliver four_reads 1

-- Two failures within the interval, and a recovery.
abbrev three_sends : List Sent
three_sends = failed 100 ∷ failed 200 ∷ succeeded 300 ∷ []

report_all_accounts_example :
    let (r, lines) = report_all three_sends new_reporter in
    (told_all lines + r.suppressed ≡ 2) × (hints lines ≤ 1)
report_all_accounts_example = report_all_accounts three_sends

parse_node_id-encode_hex_example :
    (parse_node_id (encode_hex id_a) ≡ some id_a) × (parse_node_id (node_id_string id_a) ≡ none)
parse_node_id-encode_hex_example = parse_node_id-encode_hex id_a (
  refl,
  (
    omega arith,
    (
      omega arith,
      (omega arith, (omega arith, (omega arith, (omega arith, (omega arith, (omega arith, tt)))))),
    ),
  ),
)

-- A microsecond before the start comes back as the start.
micros_from_time-time_of_micros_example :
    micros_from_time (pos 5_000) (time_of_micros (pos 5_000) (negsuc 0)) ≡ pos 0
micros_from_time-time_of_micros_example =
    micros_from_time-time_of_micros (pos 5_000) (negsuc 0) (omega arith)

-- A host on which everything can be opened.
abbrev free_host : Os
free_host = record host { listen_unicast = λ ip. true }

abbrev config : Config Exact
config = record {
  tempo = exact_float.decimal 120 0;
  enabled = true;
  start_stop_sync = false;
  interface_name = [];
  unicast_interface = [];
}

abbrev opened : Sockets
opened = record {
  mc_interface = en;
  bc_ip = 10 ∷ 0 ∷ 0 ∷ 7 ∷ [];
  uc_ip = 10 ∷ 0 ∷ 0 ∷ 7 ∷ [];
  ms_ip = 10 ∷ 0 ∷ 0 ∷ 7 ∷ [];
  if_ip = 10 ∷ 0 ∷ 0 ∷ 7 ∷ [];
}

abbrev four_sockets : List Socket
four_sockets = measurement_socket ∷ unicast_socket ∷ broadcast_socket ∷ multicast_socket ∷ []

abbrev created : Link Exact
created = record {
  cfg = config;
  sockets = opened;
  engine = init world (exact_float.decimal 120 0) false;
  commands = enable true ∷ [];
  is_closed = false;
}

close-new_link_example :
    let (closed, left) = close world (record created { engine = joined 1 }) four_sockets in
    (left ≡ []) × (close world closed left ≡ (closed, left)) × (closed.engine.hub.tim ≡ [])
unfolding new_link started with_defaults open_network select_interface first_v4 to4
    resolve_unicast_bind open_sockets
close-new_link_example =
    close-new_link world free_host config [] {l = created} {after = four_sockets} refl (joined 1)

-- A client without a terminal, with two status lines.
abbrev two_lines : Engine Exact → List (ℤ × Engine Exact)
two_lines e = (pos 5, e) ∷ (pos 6, e) ∷ []

abbrev flags : Flags Exact
flags = record {
  tempo = exact_float.decimal 120 0;
  quantum = exact_float.decimal 4 0;
  interface_name = [];
  unicast_interface = [];
  start_stop_sync = true;
  show_version = false;
}

main-open_example :
    IsClean world
      (pos 0)
      false
      true
      two_lines
      (λ e. e)
      flags.quantum
      []
      (main world (pos 0) false true two_lines (λ e. e) free_host flags [])
main-open_example = main-open world (pos 0) false true two_lines (λ e. e) free_host flags []
