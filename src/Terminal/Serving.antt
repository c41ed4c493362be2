-- ===== src/Terminal/Serving.antt =====
-- Runs of the terminal client together with the engine.
use abletonlink_client_go.Base.{
  ℕ, ◌≤◌, ◌≡◌, refl, ◌∙◌, arith, Bool, true, Option, none, some, List, [], ◌∷◌, ◌++◌, ◌&&◌, ◌>>=◌,
  ltb, ◌==◌, length, if◌then◌else◌, All, All-append, length-append, Option-cases, Bool-cases, inl,
  inr,
}
use abletonlink_client_go.Base.Int.{ℤ}
use abletonlink_client_go.Base.Results.{
  OnResult, panics, returns, is_some, OnResult-both, Returns, Returns-bind, Returns-OnResult,
  of_branches,
}
use abletonlink_client_go.Float.{Float64}
use abletonlink_client_go.Engine.State.{World, Engine}
use abletonlink_client_go.Engine.Loop.{
  Command, Event, discovery_packet, measurement_packet, broadcast_tick, prune_tick, command, timer,
  set_tempo, step,
}
use abletonlink_client_go.Engine.Members.Reachable.{IsSettled, step-IsSettled, init-IsSettled}
use abletonlink_client_go.Engine.Messages.Frame.{IsSized}
use abletonlink_client_go.Engine.Messages.Reachable.{step-IsSized, init-IsSized}
use abletonlink_client_go.Engine.Panics.{is_harmless, is_some-step}
use abletonlink_client_go.Terminal.{
  Model, Message, window_size, tick_msg, update_msg, key, Key, quits, raises, lowers, plays,
  enables, narrows, widens, enters, erases, types, key_of, Reaction, at_least, refresh, new_model,
  typed_tempo, press, update,
}
use abletonlink_client_go.Terminal.Input.{IsTyped, update-IsTyped}
use abletonlink_client_go.Terminal.System.{
  System, Turn, handles, draws, serves, arrival, command_capacity, handle, serve, turn, turns,
  start,
}
use abletonlink_client_go.Beats.{beats_from_float}
use abletonlink_client_go.Timeline.Panics.{is_nonzero}
use abletonlink_client_go.Terminal.View.{Row, view}
use abletonlink_client_go.Terminal.Bars.{view-is_some}

module _ {F : Type 0} ⦃fl : Float64 F⦄ (w : World) (parse_float : List ℕ → Option F)
    (clock_start : ℤ) where
  -- Only the client sends commands.
  abbrev pub IsOutside : Turn F → Type 0
  IsOutside (arrival (command c)) = ⊥
  IsOutside _ = Unit {0}

  -- Not a drawing of the view.
  abbrev IsQuick : Turn F → Type 0
  IsQuick (draws now after) = ⊥
  IsQuick _ = Unit {0}

  abbrev pub IsMild : Command F → Type 0
  IsMild c = is_harmless (command c) ≡ true

  pub record IsOrderly (s : System F) : Type 0 where
    pub settled : IsSettled s.engine
    pub sized : IsSized s.engine
    pub typed : IsTyped s.client.input
    pub room : length s.commands ≤ command_capacity
    pub mild : All IsMild s.commands

  abbrev IsMildIfSent : Option (Command F) → Type 0
  IsMildIfSent none = Unit {0}
  IsMildIfSent (some c) = IsMild c

  set_tempo-IsMild : (bpm : F) (at : ℤ) → IsMildIfSent (set_tempo bpm at)
  unfolding set_tempo
  set_tempo-IsMild bpm at = ground arith

  typed_tempo-IsMild :
      (s : List ℕ) (at : ℤ) → IsMildIfSent (typed_tempo parse_float clock_start s at)
  unfolding typed_tempo
  typed_tempo-IsMild s at = elim (Option-cases (parse_float s)) [
    | inl missing ↦ rw missing tt
    | inr (bpm, known) ↦ rw known (
        of_branches IsMildIfSent (at_least bpm (fl.decimal 20 0) && at_least (fl.decimal 999 0) bpm)
          _ _ (set_tempo-IsMild bpm _) tt)
  ]

  press-IsMild :
      (k : Key) (s : List ℕ) (at : ℤ) (m : Model F)
      → IsMildIfSent (press parse_float clock_start k s at m).sent
  unfolding press
  press-IsMild quits s at m = tt
  press-IsMild raises s at m = set_tempo-IsMild _ _
  press-IsMild lowers s at m = set_tempo-IsMild _ _
  press-IsMild plays s at m = refl
  press-IsMild enables s at m = refl
  press-IsMild narrows s at m = tt
  press-IsMild widens s at m = tt
  press-IsMild enters s at m =
      of_branches (λ (r : Reaction F). IsMildIfSent r.sent) (length m.input == 0) _ _ tt
        (typed_tempo-IsMild m.input at)
  press-IsMild erases s at m = tt
  press-IsMild types s at m = tt

  update-IsMild :
      (lnk : Engine F) (x : Message) (m : Model F)
      → IsMildIfSent (update parse_float clock_start lnk x m).sent
  unfolding update
  update-IsMild lnk (window_size a b) m = tt
  update-IsMild lnk tick_msg m = tt
  update-IsMild lnk update_msg m = tt
  update-IsMild lnk (key s at) m = press-IsMild (key_of s) s at m

  pub handle-IsOrderly :
      (x : Message) (s : System F) → IsOrderly s → IsOrderly (handle w parse_float clock_start x s)
  unfolding handle
  handle-IsOrderly x s h =
      let r = update parse_float clock_start s.engine x s.client in
      let typed = update-IsTyped parse_float clock_start s.engine x s.client h.typed in
      sent r.sent r.model typed (update-IsMild s.engine x s.client)
    where
      sent :
          (c : Option (Command F)) (m : Model F)
          → IsTyped m.input
          → IsMildIfSent c
          → IsOrderly (elim c [
            | none ↦ record s { client = m }
            | some c ↦
                if ltb (length s.commands) command_capacity
                then record s { client = m; commands = s.commands ++ c ∷ [] }
                else s
          ])
      sent none m typed mild = record {
        settled = h.settled;
        sized = h.sized;
        typed = typed;
        room = h.room;
        mild = h.mild;
      }
      sent (some c) m typed mild = elim (Bool-cases (ltb (length s.commands) command_capacity)) [
        | inl space ↦ rw space (record {
          settled = h.settled;
          sized = h.sized;
          typed = typed;
          room = ground (arith, length-append s.commands (c ∷ []));
          mild = All-append IsMild s.commands (c ∷ []) h.mild (mild, tt);
        })
        | inr full ↦ rw full h
      ]

  module _ (ids : (k : ℕ) → length (w.random k) ≡ 8) where
    step-Returns :
        (x : Event F) (s : System F) (cs : List (Command F))
        → is_harmless x ≡ true
        → IsOrderly s
        → (length cs ≤ command_capacity) × All IsMild cs
        → Returns IsOrderly
            (step w x s.engine >>= λ e. some (record s { engine = e; commands = cs }))
    step-Returns x s cs harmless h (room, mild) =
        Returns-bind (λ e. IsSettled e × IsSized e) IsOrderly (step w x s.engine) _
          (Returns-OnResult
            (OnResult-both (step-IsSettled w x s.engine h.settled)
              (step-IsSized w ids x s.engine h.sized))
            (is_some-step w x s.engine ∙ harmless))
          λ e (settled, sized). record {
            settled = settled;
            sized = sized;
            typed = h.typed;
            room = room;
            mild = mild;
          }

    serve-Returns :
        (cs : List (Command F)) (s : System F)
        → IsOrderly s
        → (length cs ≤ command_capacity) × All IsMild cs
        → Returns IsOrderly (serve w parse_float clock_start cs s)
    unfolding serve
    serve-Returns [] s h _ = h
    serve-Returns (c ∷ cs) s h (room, (mild, milds)) =
        step-Returns (command c) s cs mild h (omega arith, milds)

    pub turn-Returns :
        (t : Turn F) (s : System F)
        → IsOutside t
        → IsQuick t
        → IsOrderly s
        → Returns IsOrderly (turn w parse_float clock_start t s)
    unfolding turn
    turn-Returns (draws now after) s o q h = elim q [ ]
    turn-Returns (handles x) s o q h = handle-IsOrderly x s h
    turn-Returns serves s o q h = serve-Returns s.commands s h (h.room, h.mild)
    turn-Returns (arrival x) s o q h = step-Returns x s s.commands (outside x o) h (h.room, h.mild)
      where
        outside : (x : Event F) → IsOutside (arrival x) → is_harmless x ≡ true
        outside (discovery_packet from bytes) o = refl
        outside (measurement_packet from bytes) o = refl
        outside broadcast_tick o = refl
        outside prune_tick o = refl
        outside (timer id) o = refl
        outside (command c) o = elim o [ ]

    -- Whether every drawing of the view among the turns finds a quantum that is not zero in
    -- micro-beats. A turn that stops the program is no reason to say that one does not.
    abbrev pub all_drawn : List (Turn F) → System F → Bool
    all_drawn [] s = true
    all_drawn (draws now after ∷ ts) s =
        is_nonzero (beats_from_float s.client.quantum) && all_drawn ts s
    all_drawn (t ∷ ts) s = elim (turn w parse_float clock_start t s) [
      | none ↦ true
      | some s' ↦ all_drawn ts s'
    ]

    -- The program runs to the end if all views can be drawn, and else it stops.
    abbrev pub IsServed : Bool → Option (System F) → Type 0
    IsServed drawn r = (is_some r ≡ drawn) × OnResult IsOrderly r

    IsServed-bind :
        (m : Option (System F)) (f : System F → Option (System F)) (g : System F → Bool)
        → Returns IsOrderly m
        → ((s : System F) → IsOrderly s → IsServed (g s) (f s))
        → IsServed (elim m [ none ↦ true | some s ↦ g s ]) (m >>= f)
    IsServed-bind none f g h k = elim h [ ]
    IsServed-bind (some s) f g h k = k s h

    turns-IsServed :
        (ts : List (Turn F)) (s : System F)
        → All IsOutside ts
        → IsOrderly s
        → IsServed (all_drawn ts s) (turns w parse_float clock_start ts s)
    unfolding turns
    turns-IsServed [] s o h = (refl, returns h)
    turns-IsServed (draws now after ∷ ts) s (o, os) h =
        drawn (view clock_start s.engine now after s.client)
          (view-is_some clock_start s.engine now after s.client).0 (turns-IsServed ts s os h)
      where
        drawn :
            (v : Option (List (Row F)))
            → is_some v ≡ is_nonzero (beats_from_float s.client.quantum)
            → IsServed (all_drawn ts s) (turns w parse_float clock_start ts s)
            → IsServed
                (all_drawn (draws now after ∷ ts) s)
                ((v >>= λ v. some s) >>= turns w parse_float clock_start ts)
        drawn none e rest = rw (← e) (refl, panics)
        drawn (some v) e rest = rw (← e) rest
    turns-IsServed (handles x ∷ ts) s (o, os) h =
        IsServed-bind (turn w parse_float clock_start (handles x) s) _ (all_drawn ts)
          (turn-Returns (handles x) s o tt h) (λ s'. turns-IsServed ts s' os)
    turns-IsServed (serves ∷ ts) s (o, os) h =
        IsServed-bind (turn w parse_float clock_start serves s) _ (all_drawn ts)
          (turn-Returns serves s o tt h) (λ s'. turns-IsServed ts s' os)
    turns-IsServed (arrival x ∷ ts) s (o, os) h =
        IsServed-bind (turn w parse_float clock_start (arrival x) s) _ (all_drawn ts)
          (turn-Returns (arrival x) s o tt h) (λ s'. turns-IsServed ts s' os)

    pub start-IsOrderly :
        (tempo : F) (sync : Bool) (quantum : F)
        → IsOrderly (start w parse_float clock_start tempo sync quantum)
    unfolding start new_model refresh
    start-IsOrderly tempo sync quantum = record {
      settled = init-IsSettled w tempo sync;
      sized = init-IsSized w ids tempo sync;
      typed = (omega arith, tt);
      room = omega arith;
      mild = (refl, tt);
    }

    pub turns-IsOrderly :
        (tempo : F) (sync : Bool) (quantum : F) (ts : List (Turn F))
        → All IsOutside ts
        → let first = start w parse_float clock_start tempo sync quantum in
          IsServed (all_drawn ts first) (turns w parse_float clock_start ts first)
    turns-IsOrderly tempo sync quantum ts o =
        turns-IsServed ts (start w parse_float clock_start tempo sync quantum) o
          (start-IsOrderly tempo sync quantum)
