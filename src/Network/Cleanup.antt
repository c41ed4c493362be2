-- ===== src/Network/Cleanup.antt =====
-- The sockets that openNetwork of link/network.go leaves open.
use abletonlink_client_go.Base.{ℕ, ◌≡◌, refl, arith, List, ◌∷◌}
use abletonlink_client_go.Network.{
  Os, Interface, Outcome, done, failed, Socket, multicast_socket, broadcast_socket, unicast_socket,
  measurement_socket, Sockets, close_socket, listen_multicast, open_sockets, open_network,
  close_network, select_interface, resolve_unicast_bind,
}

-- An error leaves the sockets that were open before; a success adds one of each kind, and closing the
-- network closes these.
abbrev pub LeavesOpen : List Socket → Outcome Sockets × List Socket → Type 0
LeavesOpen before (failed x, after) = after ≡ before
LeavesOpen before (done s, after) =
    (after ≡ measurement_socket ∷ unicast_socket ∷ broadcast_socket ∷ multicast_socket ∷ before)
    × (close_network after ≡ before)

open_sockets-LeavesOpen :
    (os : Os) (ifi : Interface) (ip uc_ip : List ℕ) (before : List Socket)
    → LeavesOpen before (open_sockets os ifi ip uc_ip before)
unfolding open_sockets listen_multicast close_network close_socket
open_sockets-LeavesOpen os ifi ip uc_ip before = ground arith

after_resolution :
    (os : Os) (ifi : Interface) (ip : List ℕ) (before : List Socket) (r : Outcome (List ℕ))
    → LeavesOpen before (elim r [
      | failed x ↦ (failed x, before)
      | done uc_ip ↦ open_sockets os ifi ip uc_ip before
    ])
after_resolution os ifi ip before (failed x) = refl
after_resolution os ifi ip before (done uc_ip) = open_sockets-LeavesOpen os ifi ip uc_ip before

after_selection :
    (os : Os) (unicast : List ℕ) (before : List Socket) (r : Outcome (Interface × List ℕ))
    → LeavesOpen before (elim r [
      | failed x ↦ (failed x, before)
      | done (ifi, ip) ↦ elim (resolve_unicast_bind os unicast ip) [
        | failed x ↦ (failed x, before)
        | done uc_ip ↦ open_sockets os ifi ip uc_ip before
      ]
    ])
after_selection os unicast before (failed x) = refl
after_selection os unicast before (done (ifi, ip)) =
    after_resolution os ifi ip before (resolve_unicast_bind os unicast ip)

-- Whatever the operating system answers, an openNetwork that fails, at any of its steps, leaves open
-- exactly the sockets that were open before; one that succeeds adds the four sockets of a network,
-- and close takes these away again.
pub open_network-LeavesOpen :
    (os : Os) (name unicast : List ℕ) (before : List Socket)
    → LeavesOpen before (open_network os name unicast before)
unfolding open_network
open_network-LeavesOpen os name unicast before =
    after_selection os unicast before (select_interface os name)
