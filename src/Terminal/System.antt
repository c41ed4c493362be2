-- ===== src/Terminal/System.antt =====
-- The terminal client and the engine with the command channel between them. The client's messages,
-- the engine's rounds for commands and for what else arrives take turns in any order.
use abletonlink_client_go.Base.{
  ℕ, Bool, true, Option, none, some, List, [], ◌∷◌, ◌++◌, ◌>>=◌, ltb, length, if◌then◌else◌,
}
use abletonlink_client_go.Base.Int.{ℤ}
use abletonlink_client_go.Float.{Float64}
use abletonlink_client_go.Engine.State.{World, Engine}
use abletonlink_client_go.Engine.Loop.{Command, enable, Event, command, step, init}
use abletonlink_client_go.Terminal.{Model, Message, new_model, update}
use abletonlink_client_go.Terminal.View.{view}

-- The capacity of cmdCh.
abbrev pub command_capacity : ℕ
command_capacity = 64

pub record System (F : Type 0) : Type 0 where
  pub engine : Engine F
  pub commands : List (Command F)
  pub client : Model F

-- The client handles a message, or draws its view, which reads the clock twice; the engine serves the
-- next command, or what else arrives.
pub data Turn (F : Type 0) : Type 0 where
  handles : Message → Turn F
  draws : ℤ → ℤ → Turn F
  serves : Turn F
  arrival : Event F → Turn F

module _ {F : Type 0} ⦃fl : Float64 F⦄ (w : World) (parse_float : List ℕ → Option F)
    (clock_start : ℤ) where
  -- Update with its command. A message whose command finds no room in the channel has to wait.
  unfoldable pub handle : Message → System F → System F
  unfolding update
  handle x s =
      let r = update parse_float clock_start s.engine x s.client in
      elim r.sent [
        | none ↦ record s { client = r.model }
        | some c ↦
            if ltb (length s.commands) command_capacity
            then record s { client = r.model; commands = s.commands ++ c ∷ [] }
            else s
      ]

  unfoldable pub serve : List (Command F) → System F → Option (System F)
  unfolding step
  serve [] s = some s
  serve (c ∷ cs) s =
      step w (command c) s.engine >>= λ e. some (record s { engine = e; commands = cs })

  unfoldable pub turn : Turn F → System F → Option (System F)
  unfolding handle serve view
  turn (handles x) s = some (handle x s)
  turn (draws now after) s = view clock_start s.engine now after s.client >>= λ v. some s
  turn serves s = serve s.commands s
  turn (arrival x) s = step w x s.engine >>= λ e. some (record s { engine = e })

  unfoldable pub turns : List (Turn F) → System F → Option (System F)
  unfolding turn
  turns [] s = some s
  turns (t ∷ ts) s = turn t s >>= turns ts

  -- main: New enables the Link, and newModel reads its first state.
  unfoldable pub start : F → Bool → F → System F
  unfolding init new_model
  start tempo sync quantum =
      let e = init w tempo sync in
      record { engine = e; commands = enable true ∷ []; client = new_model e quantum }
