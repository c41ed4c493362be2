-- ===== src/Terminal/Main.antt =====
-- main of cmd/linkclient/main.go: its ways to the end, with the sockets that are open on the host.
-- Whether a terminal can be opened, whether the user interface ends without an error (Bubble Tea catches
-- a panic of Update or View, and Run returns an error for it), and what the engine has come to at each
-- tick and when the client ends are parameters; the logger is left out.
use abletonlink_client_go.Base.{
  ◌≡◌, refl, ℕ, Bool, true, false, List, [], ◌∷◌, not, if◌then◌else◌, ◌&&◌, ◌⊎◌, inl, inr,
  Bool-cases,
}
use abletonlink_client_go.Base.Int.{ℤ}
use abletonlink_client_go.Base.Results.{of_branches, of_either, is_some}
use abletonlink_client_go.Beats.{beats_from_float}
use abletonlink_client_go.Timeline.Panics.{is_nonzero}
use abletonlink_client_go.Terminal.View.{plain_line}
use abletonlink_client_go.Terminal.Bars.{plain_line-is_some}
use abletonlink_client_go.Float.{Float64}
use abletonlink_client_go.Engine.State.{World, Engine}
use abletonlink_client_go.Network.{Os, Outcome, done, failed, Socket}
use abletonlink_client_go.Link.{Config, Link, new_link, close}
use abletonlink_client_go.Link.Lifecycle.{close-new_link, new_link-failed}

pub record Flags (F : Type 0) : Type 0 where
  pub tempo : F
  pub quantum : F
  pub interface_name : List ℕ
  pub unicast_interface : List ℕ
  pub start_stop_sync : Bool
  pub show_version : Bool

-- How main ends; `panicked` is the panic of a status line, which ends the process with the Link open.
pub data End : Type 0 where
  version_shown no_link plain_ended panicked ui_failed ui_ended : End

not-true : (b : Bool) → not b ≡ true → b ≡ false
not-true true h = cc
not-true false h = refl

module _ {F : Type 0} where
  abbrev pub config_of : Flags F → Config F
  config_of flags = record {
    tempo = flags.tempo;
    enabled = true;
    start_stop_sync = flags.start_stop_sync;
    interface_name = flags.interface_name;
    unicast_interface = flags.unicast_interface;
  }

module _ {F : Type 0} ⦃fl : Float64 F⦄ (clock_start : ℤ) where
  -- runPlain until it is interrupted, given the times of its ticks with the engine as it is then. It
  -- returns whether it comes to its end.
  unfoldable pub run_plain : List (ℤ × Engine F) → F → Bool
  unfolding plain_line
  run_plain [] quantum = true
  run_plain ((now, e) ∷ ticks) quantum =
      is_some (plain_line clock_start e now quantum) && run_plain ticks quantum

  -- The quantum of all status lines is one, so it is enough that it is not zero in micro-beats.
  run_plain-ends :
      (ticks : List (ℤ × Engine F)) (quantum : F)
      → run_plain ticks quantum ≡ false
      → is_nonzero (beats_from_float quantum) ≡ false
  unfolding run_plain
  run_plain-ends [] quantum e = cc
  run_plain-ends ((now, e) ∷ ticks) quantum h =
      let drawn = plain_line-is_some clock_start e now quantum in
      elim (Bool-cases (is_nonzero (beats_from_float quantum))) [
        | inl fine ↦
            let rest : run_plain ticks quantum ≡ false = rw (drawn, fine) at h in
            run_plain-ends ticks quantum rest
        | inr zero ↦ zero
      ]

module _ {F : Type 0} ⦃fl : Float64 F⦄ (w : World) (clock_start : ℤ)
    (is_interactive ui_succeeds : Bool) (ticks : Engine F → List (ℤ × Engine F))
    (later : Engine F → Engine F) where
  -- runPlain, or the user interface.
  unfoldable pub run_client : F → Outcome (Link F) × List Socket → End × List Socket
  unfolding close run_plain
  run_client quantum (failed x, opened) = (no_link, opened)
  run_client quantum (done lnk, opened) =
      let used = record lnk { engine = later lnk.engine } in
      if not is_interactive
      then (if run_plain clock_start (ticks lnk.engine) quantum
          then (plain_ended, (close w used opened).1)
          else (panicked, opened))
      else if not ui_succeeds
      then (ui_failed, (close w used opened).1)
      else (ui_ended, (close w used opened).1)

  unfoldable pub main : Os → Flags F → List Socket → End × List Socket
  unfolding run_client new_link
  main os flags opened =
      if flags.show_version
      then (version_shown, opened)
      else run_client flags.quantum (new_link w os (config_of flags) opened)

  -- The sockets are as before, or a status line has panicked, for a quantum of zero micro-beats.
  abbrev pub IsClean : F → List Socket → End × List Socket → Type 0
  IsClean quantum before r =
      (r.1 ≡ before)
      ⊎ ((r.0 ≡ panicked)
          × (is_interactive ≡ false)
          × (is_nonzero (beats_from_float quantum) ≡ false))

  run_client-IsClean :
      (os : Os) (cfg : Config F) (quantum : F) (before : List Socket)
      (r : Outcome (Link F) × List Socket)
      → new_link w os cfg before ≡ r
      → IsClean quantum before (run_client quantum r)
  unfolding run_client
  run_client-IsClean os cfg quantum before (failed x, opened) e =
      inl (new_link-failed w os cfg before e)
  run_client-IsClean os cfg quantum before (done lnk, opened) e =
      let restored = (close-new_link w os cfg before e (later lnk.engine)).0 in
      of_either (IsClean quantum before) (not is_interactive) _ _
        (λ plain.
          of_either (IsClean quantum before) (run_plain clock_start (ticks lnk.engine) quantum) _ _
            (λ ended. inl restored)
            (λ broken. inr (
              (
                refl,
                not-true is_interactive plain,
                run_plain-ends clock_start (ticks lnk.engine) quantum broken,
              ))))
        (λ shown.
          of_branches (IsClean quantum before) (not ui_succeeds) _ _ (inl restored) (inl restored))

  -- Whatever the operating system answers when the sockets are opened, and whichever way main ends,
  -- with a Link or without one: the sockets that are open then are those that were open before, unless
  -- a status line of the client without a terminal has panicked, which happens only if the quantum of
  -- the command line is zero in micro-beats.
  pub main-open :
      (os : Os) (flags : Flags F) (before : List Socket)
      → IsClean flags.quantum before (main os flags before)
  unfolding main
  main-open os flags before =
      of_branches (IsClean flags.quantum before) flags.show_version _ _ (inl refl)
        (run_client-IsClean os (config_of flags) flags.quantum before _ refl)
