-- ===== src/Link/Lifecycle.antt =====
-- What a Link leaves behind.
use abletonlink_client_go.Base.{◌≡◌, refl, sym, ap, ◌∙◌, Bool, true, false, List, []}
use abletonlink_client_go.Float.{Float64}
use abletonlink_client_go.Engine.State.{World, Engine}
use abletonlink_client_go.Engine.Hub.{stop_all}
use abletonlink_client_go.Engine.Loop.{shut_down}
use abletonlink_client_go.Network.{
  Os, NetError, Outcome, done, failed, Sockets, Socket, close_network,
}
use abletonlink_client_go.Network.Cleanup.{LeavesOpen, open_network-LeavesOpen}
use abletonlink_client_go.Link.{Config, Link, with_defaults, started, new_link, close}

module _ {F : Type 0} ⦃fl : Float64 F⦄ (w : World) where
  abbrev is_over : Outcome (Link F) → Bool
  is_over (failed x) = true
  is_over (done l) = l.is_closed

  started-open :
      (c : Config F) (before : List Socket) (r : Outcome Sockets × List Socket) {l : Link F}
      {after : List Socket}
      → LeavesOpen before r
      → started w c r ≡ (done l, after)
      → (close_network after ≡ before) × (l.is_closed ≡ false)
  unfolding started
  started-open c before (failed x, opened) h e =
      let never : failed x ≡ done _ = ap (λ p. p.0) e in cc
  started-open c before (done sockets, opened) h e =
      (ap close_network (sym (ap (λ p. p.1) e)) ∙ h.1, sym (ap (λ p. is_over p.0) e))

  started-failed :
      (c : Config F) (before : List Socket) (r : Outcome Sockets × List Socket) {x : NetError}
      {after : List Socket}
      → LeavesOpen before r
      → started w c r ≡ (failed x, after)
      → after ≡ before
  unfolding started
  started-failed c before (failed x, opened) h e = sym (ap (λ p. p.1) e) ∙ h
  started-failed c before (done sockets, opened) h e =
      let never : done _ ≡ failed _ = ap (λ p. p.0) e in cc

  -- A New that fails leaves open what was open before.
  pub new_link-failed :
      (os : Os) (cfg : Config F) (before : List Socket) {x : NetError} {after : List Socket}
      → new_link w os cfg before ≡ (failed x, after)
      → after ≡ before
  unfolding new_link
  new_link-failed os cfg before r =
      let c = with_defaults cfg in
      started-failed c before _
        (open_network-LeavesOpen os c.interface_name c.unicast_interface before) r

  -- A Link that New has returned, in whatever state e its engine has come to since: Close closes just
  -- the sockets that New has opened and stops all timers, and a second Close changes nothing.
  pub close-new_link :
      (os : Os) (cfg : Config F) (before : List Socket) {l : Link F} {after : List Socket}
      → new_link w os cfg before ≡ (done l, after)
      → (e : Engine F)
      → let (closed, left) = close w (record l { engine = e }) after in
        (left ≡ before) × (close w closed left ≡ (closed, left)) × (closed.engine.hub.tim ≡ [])
  unfolding new_link close shut_down stop_all
  close-new_link os cfg before {l} {after} r e =
      let c = with_defaults cfg in
      let (restored, fresh) =
        started-open c before _
          (open_network-LeavesOpen os c.interface_name c.unicast_interface before) r in
      rw fresh (restored, refl, refl)
