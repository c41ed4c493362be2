-- ===== src/Network.antt =====
-- link/network.go: choice of the interfaces, the four sockets of a node, and the receive loops. What
-- the operating system and package net answer is the parameter Os.
pub mod Select
pub mod Cleanup
pub mod Receive
pub mod Send
use abletonlink_client_go.Base.{
  ℕ, ◌+◌, Bool, true, false, Option, none, some, List, [], ◌∷◌, ◌&&◌, ◌||◌, not, ◌==◌, ltb, length,
  if◌then◌else◌,
}
use abletonlink_client_go.NodeId.{eq_node_id}
use abletonlink_client_go.PeerState.{UdpAddr, to4}

-- A net.Interface. `addrs` is what Addrs returns: for each address the IP if it is a *net.IPNet; none
-- is an error.
pub record Interface : Type 0 where
  pub name : List ℕ
  pub addrs : Option (List (Option (List ℕ)))
  pub is_up : Bool
  pub is_loopback : Bool

-- The results of ListenPacket: an error, a connection of another type, a UDP connection.
pub data Listened : Type 0 where
  listen_failed other_conn udp_conn : Listened

pub record Os : Type 0 where
  -- net.Interfaces, net.ParseIP and net.InterfaceByName.
  pub interfaces : Option (List Interface)
  pub parse_ip : List ℕ → Option (List ℕ)
  pub interface_by_name : List ℕ → Option Interface
  -- Whether the sockets can be opened at an address, and the group can be joined.
  pub listen_packet : ℕ → Listened
  pub join_group : Interface → List ℕ → Bool
  pub listen_broadcast : List ℕ → Bool
  pub listen_unicast : List ℕ → Bool
  pub listen_measurement : List ℕ → Bool

pub data NetError : Type 0 where
  cannot_list_interfaces no_usable_interface : NetError
  interface_not_found : List ℕ → NetError
  not_an_ipv4 unknown_unicast cannot_list_addresses no_ipv4_address : List ℕ → NetError
  cannot_listen_multicast unexpected_conn cannot_join_group : NetError
  cannot_open_broadcast cannot_open_unicast cannot_open_measurement : NetError

pub data Outcome {ℓ} (A : Type ℓ) : Type ℓ where
  done : A → Outcome A
  failed : NetError → Outcome A

-- 224.76.78.75:20808
abbrev pub multicast_group : UdpAddr
multicast_group = record { ip = 224 ∷ 76 ∷ 78 ∷ 75 ∷ []; port = 20808 }

-- The loops over the addresses of an interface: the first IPv4 address.
unfoldable pub first_v4 : List (Option (List ℕ)) → Option (List ℕ)
first_v4 [] = none
first_v4 (none ∷ addrs) = first_v4 addrs
first_v4 (some ip ∷ addrs) =
    let rest = first_v4 addrs in elim (to4 ip) [ some v4 ↦ some v4 | none ↦ rest ]

abbrev pub address_of : Interface → Option (List ℕ)
address_of ifi = elim ifi.addrs [ none ↦ none | some addrs ↦ first_v4 addrs ]

abbrev pub is_named : List ℕ → Interface → Bool
is_named name ifi = (length name == 0) || eq_node_id ifi.name name

-- The fallback, if there is none yet.
abbrev pub or_else : Option (Interface × List ℕ) → Interface × List ℕ → Option (Interface × List ℕ)
or_else none found = some found
or_else (some first) found = some first

-- The loop of selectInterface from a fallback on.
unfoldable pub select_loop :
    List ℕ → Option (Interface × List ℕ) → List Interface → Outcome (Interface × List ℕ)
select_loop name (some fallback) [] = done fallback
select_loop name none [] =
    failed (if length name == 0 then no_usable_interface else interface_not_found name)
select_loop name fallback (ifi ∷ ifaces) =
    let loopback = λ (ip : List ℕ). select_loop name (or_else fallback (ifi, ip)) ifaces in
    let skip = select_loop name fallback ifaces in
    if not (is_named name ifi) then skip else elim (address_of ifi) [
      | none ↦ skip
      | some ip ↦
          if not ifi.is_up then skip else if ifi.is_loopback then loopback ip else done (ifi, ip)
    ]

unfoldable pub select_interface : Os → List ℕ → Outcome (Interface × List ℕ)
unfolding select_loop
select_interface os name = elim os.interfaces [
  | none ↦ failed cannot_list_interfaces
  | some ifaces ↦ select_loop name none ifaces
]

unfoldable pub resolve_unicast_bind : Os → List ℕ → List ℕ → Outcome (List ℕ)
resolve_unicast_bind os name discovery_ip =
    if length name == 0 then done discovery_ip else elim (os.parse_ip name) [
      | some ip ↦ elim (to4 ip) [ none ↦ failed (not_an_ipv4 name) | some v4 ↦ done v4 ]
      | none ↦ elim (os.interface_by_name name) [
        | none ↦ failed (unknown_unicast name)
        | some ifi ↦ elim ifi.addrs [
          | none ↦ failed (cannot_list_addresses name)
          | some addrs ↦ elim (first_v4 addrs) [
            | none ↦ failed (no_ipv4_address name)
            | some v4 ↦ done v4
          ]
        ]
      ]
    ]

pub data Socket : Type 0 where
  multicast_socket broadcast_socket unicast_socket measurement_socket : Socket

-- The sockets with the addresses that they are bound to; mcConn is bound to the wildcard address.
pub record Sockets : Type 0 where
  pub mc_interface : Interface
  pub bc_ip : List ℕ
  pub uc_ip : List ℕ
  pub ms_ip : List ℕ
  pub if_ip : List ℕ

-- Close calls, with their effect on the sockets that are open.
abbrev pub same_socket : Socket → Socket → Bool
same_socket multicast_socket multicast_socket = true
same_socket broadcast_socket broadcast_socket = true
same_socket unicast_socket unicast_socket = true
same_socket measurement_socket measurement_socket = true
same_socket _ _ = false

unfoldable pub close_socket : Socket → List Socket → List Socket
close_socket s [] = []
close_socket s (t ∷ ts) = if same_socket s t then ts else t ∷ close_socket s ts

-- listenMulticast, with the sockets that are open before and after.
unfoldable pub listen_multicast : Os → Interface → List Socket → Outcome (Unit {0}) × List Socket
unfolding close_socket
listen_multicast os ifi opened = elim (os.listen_packet multicast_group.port) [
  | listen_failed ↦ (failed cannot_listen_multicast, opened)
  | other_conn ↦ (failed unexpected_conn, close_socket multicast_socket (multicast_socket ∷ opened))
  | udp_conn ↦
      if os.join_group ifi multicast_group.ip
      then (done tt, multicast_socket ∷ opened)
      else (failed cannot_join_group, close_socket multicast_socket (multicast_socket ∷ opened))
]

-- openNetwork from the multicast socket on.
unfoldable pub open_sockets :
    Os → Interface → List ℕ → List ℕ → List Socket → Outcome Sockets × List Socket
unfolding listen_multicast close_socket
open_sockets os ifi ip uc_ip opened =
    let (joined, with_mc) = listen_multicast os ifi opened in
    let with_bc = broadcast_socket ∷ with_mc in
    let with_uc = unicast_socket ∷ with_bc in
    elim joined [
      | failed x ↦ (failed x, with_mc)
      | done _ ↦
          if not (os.listen_broadcast ip)
          then (failed cannot_open_broadcast, close_socket multicast_socket with_mc)
          else if not (os.listen_unicast uc_ip)
          then (
            failed cannot_open_unicast,
            close_socket broadcast_socket (close_socket multicast_socket with_bc),
          )
          else if not (os.listen_measurement uc_ip)
          then (
            failed cannot_open_measurement,
            close_socket unicast_socket
                (close_socket broadcast_socket (close_socket multicast_socket with_uc)),
          )
          else (
            done (record {
              mc_interface = ifi;
              bc_ip = ip;
              uc_ip = uc_ip;
              ms_ip = uc_ip;
              if_ip = ip;
            }),
            measurement_socket ∷ with_uc,
          )
    ]

unfoldable pub open_network : Os → List ℕ → List ℕ → List Socket → Outcome Sockets × List Socket
unfolding select_interface resolve_unicast_bind open_sockets
open_network os name unicast opened = elim (select_interface os name) [
  | failed x ↦ (failed x, opened)
  | done (ifi, ip) ↦ elim (resolve_unicast_bind os unicast ip) [
    | failed x ↦ (failed x, opened)
    | done uc_ip ↦ open_sockets os ifi ip uc_ip opened
  ]
]

unfoldable pub close_network : List Socket → List Socket
unfolding close_socket
close_network opened = close_socket measurement_socket (
    close_socket unicast_socket
      (close_socket broadcast_socket (close_socket multicast_socket opened)))
