-- ===== src/Tests/Client.antt =====
-- Runs of the terminal client with the engine.
use abletonlink_client_go.Base.{refl, ℕ, ◌≡◌, some, Option, List, [], ◌∷◌, ◌++◌, true, false}
use abletonlink_client_go.Base.Int.{pos}
use abletonlink_client_go.Base.Results.{is_some}
use abletonlink_client_go.Base.Int64.{wrap}
use abletonlink_client_go.Clock.{llround}
use abletonlink_client_go.Beats.{beats_from_float}
use abletonlink_client_go.Exact.{Exact, exact_float}
use abletonlink_client_go.Engine.State.{Engine}
use abletonlink_client_go.Engine.Session.{publish_snapshot}
use abletonlink_client_go.Engine.Loop.{
  discovery_packet, command, enable_start_stop_sync, run_command, run, step, init,
}
use abletonlink_client_go.Terminal.{Message, tick_msg, key, new_model}
use abletonlink_client_go.Terminal.View.{dot, bullet, blank, fine_bar, view, plain_line}
use abletonlink_client_go.Terminal.Input.{IsTyped, updates, updates-IsTyped}
use abletonlink_client_go.Terminal.Bars.{replicate, fine_bar-replicate, view-is_some}
use abletonlink_client_go.Terminal.System.{Turn, handles, draws, serves, arrival, turns, start}
use abletonlink_client_go.Terminal.Serving.{IsServed, all_drawn, turns-IsOrderly}
use abletonlink_client_go.Terminal.Updates.{unlogged}
use abletonlink_client_go.Terminal.Wakes.{run-init-wakes}
use abletonlink_client_go.Engine.Callbacks.Heard.{Agrees}
use abletonlink_client_go.Tests.Values.{endpoint}
use abletonlink_client_go.Tests.Members.{world, alive_c, joined}

-- A parser that takes every text for 7.
abbrev parse : List ℕ → Option Exact
parse _ = some (exact_float.decimal 7 0)

abbrev typing : List (Engine Exact × Message)
typing =
    (joined 1, key (b'7' ∷ []) (pos 5))
    ∷ (joined 0, tick_msg)
    ∷ (joined 1, key (b'x' ∷ []) (pos 6))
    ∷ (joined 1, key (b'.' ∷ []) (pos 7))
    ∷ []

updates-IsTyped_example :
    IsTyped (updates parse (pos 0) typing (new_model (joined 1) (exact_float.decimal 4 0))).input
updates-IsTyped_example = updates-IsTyped parse (pos 0) (joined 1) (exact_float.decimal 4 0) typing

fine_bar-replicate_example : fine_bar (pos 40) ≡ replicate 31 dot ++ bullet ∷ replicate 0 blank
fine_bar-replicate_example = fine_bar-replicate 40

-- The client switches the Link off while the engine has a packet to read.
abbrev session : List (Turn Exact)
session =
    serves
    ∷ handles tick_msg
    ∷ draws (pos 5) (pos 6)
    ∷ arrival (discovery_packet endpoint alive_c)
    ∷ handles (key (b'e' ∷ []) (pos 9))
    ∷ serves
    ∷ serves
    ∷ []

turns-IsOrderly_example :
    let first =
      start world parse (pos 0) (exact_float.decimal 120 0) true (exact_float.decimal 4 0) in
    IsServed world parse
      (pos 0)
      (λ k. refl)
      (all_drawn world parse (pos 0) (λ k. refl) session first)
      (turns world parse (pos 0) session first)
turns-IsOrderly_example =
    turns-IsOrderly world parse (pos 0) (λ k. refl) (exact_float.decimal 120 0) true
      (exact_float.decimal 4 0) session (tt, (tt, (tt, (tt, (tt, (tt, (tt, tt)))))))

-- A new Link stops to follow the transport: the round calls no callback.
abbrev created : Engine Exact
created = init world (exact_float.decimal 120 0) true

abbrev unsynced : Engine Exact
unsynced = record (unlogged created) { start_stop_sync = false }

run-init-wakes_example :
    (◌≡◌ {A = ℕ} 0 0)
    × Agrees created.snap.tempo unsynced.snap.tempo
    × (unsynced.snap.playing ≡ created.snap.playing)
unfolding run step run_command init publish_snapshot
run-init-wakes_example =
    run-init-wakes world (exact_float.decimal 120 0) true []
      (command (enable_start_stop_sync false)) 0 {e = created} {e' = unsynced} refl refl refl

-- `-quantum 0` without a terminal.
view-is_some_example :
    let m = record (new_model (joined 1) (exact_float.decimal 4 0)) {
      quantum = exact_float.decimal 0 0;
    } in
    (is_some (view (pos 0) (joined 1) (pos 9) (pos 9) m) ≡ false)
    × (is_some (plain_line (pos 0) (joined 1) (pos 9) (exact_float.decimal 0 0)) ≡ false)
unfolding beats_from_float llround wrap
view-is_some_example =
    view-is_some (pos 0) (joined 1) (pos 9) (pos 9)
      (record (new_model (joined 1) (exact_float.decimal 4 0)) {
        quantum = exact_float.decimal 0 0;
      })
