-- ===== src/Link.antt =====
-- The life of a Link, link/link.go: New with its error paths, and Close. The sockets that are open on
-- the host are passed along. A round that the engine still serves after done is closed counts as one
-- before it.
pub mod Lifecycle
pub mod Callbacks
use abletonlink_client_go.Base.{ℕ, Bool, true, false, List, [], ◌∷◌, ◌||◌, if◌then◌else◌}
use abletonlink_client_go.Float.{Float64}
use abletonlink_client_go.Engine.State.{World, Engine}
use abletonlink_client_go.Engine.Loop.{Command, enable, init, shut_down}
use abletonlink_client_go.Network.{
  Os, Outcome, done, failed, Sockets, Socket, open_network, close_network,
}

-- The logger is left out.
pub record Config (F : Type 0) : Type 0 where
  pub tempo : F
  pub enabled : Bool
  pub start_stop_sync : Bool
  pub interface_name : List ℕ
  pub unicast_interface : List ℕ

-- `is_closed` is whether the done channel is closed.
pub record Link (F : Type 0) : Type 0 where
  pub cfg : Config F
  pub sockets : Sockets
  pub engine : Engine F
  pub commands : List (Command F)
  pub is_closed : Bool

module _ {F : Type 0} ⦃fl : Float64 F⦄ where
  unfoldable pub with_defaults : Config F → Config F
  with_defaults c =
      if fl.lt c.tempo (fl.decimal 0 0) || fl.eq c.tempo (fl.decimal 0 0)
      then record c { tempo = fl.decimal 120 0 }
      else c

  module _ (w : World) where
    -- New after openNetwork.
    unfoldable pub started :
        Config F → Outcome Sockets × List Socket → Outcome (Link F) × List Socket
    unfolding init
    started c (failed x, opened) = (failed x, opened)
    started c (done sockets, opened) = (
      done (record {
        cfg = c;
        sockets = sockets;
        engine = init w c.tempo c.start_stop_sync;
        commands = if c.enabled then enable true ∷ [] else [];
        is_closed = false;
      }),
      opened,
    )

    unfoldable pub new_link : Os → Config F → List Socket → Outcome (Link F) × List Socket
    unfolding with_defaults started open_network
    new_link os cfg opened =
        let c = with_defaults cfg in
        started c (open_network os c.interface_name c.unicast_interface opened)

    unfoldable pub close : Link F → List Socket → Link F × List Socket
    unfolding shut_down close_network
    close l opened =
        if l.is_closed
        then (l, opened)
        else (record l { engine = shut_down w l.engine; is_closed = true }, close_network opened)
