-- ===== src/Terminal.antt =====
-- The terminal client, cmd/linkclient/main.go: the model that Bubble Tea updates. The Link is a state of the engine; a message reads one state. strconv.ParseFloat and the
-- reading of the clock at its start are parameters. Texts are lists of character codes.
pub mod Input
pub mod View
pub mod System
pub mod Bars
pub mod Serving
pub mod Updates
pub mod Wakes
pub mod Main
use abletonlink_client_go.Base.{
  ℕ, zero, suc, ◌+◌, ◌-◌, Bool, true, false, Option, none, some, List, [], ◌∷◌, ◌++◌, ◌&&◌, ◌||◌,
  not, ltb, leb, ◌==◌, length, if◌then◌else◌, ◌>>=◌,
}
use abletonlink_client_go.Base.Int.{ℤ, pos, ltb_ℤ, eqb_ℤ, pos_part}
use abletonlink_client_go.Float.{Float64}
use abletonlink_client_go.Clock.Wall.{micros_from_time}
use abletonlink_client_go.NodeId.{NodeId, eq_node_id, zero_node_id}
use abletonlink_client_go.Engine.State.{Engine, PeerInfo}
use abletonlink_client_go.Engine.Loop.{Command, change_playing, enable, set_tempo}
use abletonlink_client_go.Engine.Api.{
  is_enabled, num_peers, peers, tempo, is_playing, node_id, session_id, start_stop_sync_enabled,
  beat_at_time, phase_at_time,
}

pub record Model (F : Type 0) : Type 0 where
  pub quantum : F
  pub tempo : F
  pub peers : List (PeerInfo F)
  pub num_peers : ℕ
  pub playing : Bool
  pub enabled : Bool
  pub start_stop_sync : Bool
  pub node_id : NodeId
  pub session_id : NodeId
  pub input : List ℕ
  pub width : ℕ
  pub height : ℕ

-- tea.WindowSizeMsg, tickMsg, updateMsg, and tea.KeyMsg with its String and the time of the press.
pub data Message : Type 0 where
  window_size : ℕ → ℕ → Message
  tick_msg update_msg : Message
  key : List ℕ → ℤ → Message

-- The tea.Cmd that is returned.
pub data TeaCmd : Type 0 where
  no_cmd quit tick wait_for_update : TeaCmd

pub data Key : Type 0 where
  quits raises lowers plays enables narrows widens enters erases types : Key

-- The cases of the switch on the text of a key.
abbrev is_text : List ℕ → List ℕ → Bool
is_text s t = eq_node_id s t

unfoldable pub key_of : List ℕ → Key
unfolding eq_node_id
key_of s =
    if is_text s (b'q' ∷ [])
      || is_text s (b'e' ∷ b's' ∷ b'c' ∷ [])
      || is_text s (b'c' ∷ b't' ∷ b'r' ∷ b'l' ∷ b'+' ∷ b'c' ∷ [])
    then quits
    else if is_text s (b'u' ∷ b'p' ∷ []) || is_text s (b'+' ∷ []) || is_text s (b'=' ∷ [])
    then raises
    else if is_text s (b'd' ∷ b'o' ∷ b'w' ∷ b'n' ∷ []) || is_text s (b'-' ∷ [])
    then lowers
    else if is_text s (b'p' ∷ []) || is_text s (b' ' ∷ [])
    then plays
    else if is_text s (b'e' ∷ [])
    then enables
    else if is_text s (b'[' ∷ [])
    then narrows
    else if is_text s (b']' ∷ [])
    then widens
    else if is_text s (b'e' ∷ b'n' ∷ b't' ∷ b'e' ∷ b'r' ∷ [])
    then enters
    else if is_text s (b'b' ∷ b'a' ∷ b'c' ∷ b'k' ∷ b's' ∷ b'p' ∷ b'a' ∷ b'c' ∷ b'e' ∷ [])
    then erases
    else types

-- m.input[:len(m.input)-1]
unfoldable pub drop_last : List ℕ → List ℕ
drop_last [] = []
drop_last (c ∷ []) = []
drop_last (c ∷ d ∷ s) = c ∷ drop_last (d ∷ s)

-- Whether a key's text is one digit or the decimal point.
abbrev pub is_digit : ℕ → Bool
is_digit c = (leb b'0' c && leb c b'9') || (c == b'.')

abbrev pub is_digit_text : List ℕ → Bool
is_digit_text [] = false
is_digit_text (c ∷ []) = is_digit c
is_digit_text (c ∷ d ∷ s) = false

-- What Update returns, with the command that it sends to the Link, if any.
pub record Reaction (F : Type 0) : Type 0 where
  pub model : Model F
  pub sent : Option (Command F)
  pub cmd : TeaCmd

module _ {F : Type 0} ⦃fl : Float64 F⦄ where
  -- Go's `>=`.
  abbrev pub at_least : F → F → Bool
  at_least x y = fl.lt y x || fl.eq x y

  unfoldable pub refresh : Engine F → Model F → Model F
  refresh lnk m = record m {
    tempo = tempo lnk.snap;
    peers = peers lnk.snap;
    num_peers = num_peers lnk.snap;
    playing = is_playing lnk.snap;
    enabled = is_enabled lnk.snap;
    start_stop_sync = start_stop_sync_enabled lnk;
    node_id = node_id lnk.snap;
    session_id = session_id lnk.snap;
  }

  unfoldable pub new_model : Engine F → F → Model F
  unfolding refresh
  new_model lnk quantum = refresh lnk (record {
    quantum = if fl.lt quantum (fl.decimal 1 0) then fl.decimal 4 0 else quantum;
    tempo = fl.decimal 0 0;
    peers = [];
    num_peers = 0;
    playing = false;
    enabled = false;
    start_stop_sync = false;
    node_id = zero_node_id;
    session_id = zero_node_id;
    input = [];
    width = 0;
    height = 0;
  })

  module _ (parse_float : List ℕ → Option F) (clock_start : ℤ) where
    -- The tempo that enter sends for the input.
    unfoldable pub typed_tempo : List ℕ → ℤ → Option (Command F)
    typed_tempo input at = parse_float input >>= λ bpm.
        if at_least bpm (fl.decimal 20 0) && at_least (fl.decimal 999 0) bpm
        then set_tempo bpm (micros_from_time clock_start at)
        else none

    unfoldable pub press : Key → List ℕ → ℤ → Model F → Reaction F
    unfolding typed_tempo drop_last
    press quits s at m = record { model = m; sent = none; cmd = quit }
    press raises s at m = record {
      model = m;
      sent = set_tempo (fl.add m.tempo (fl.decimal 1 0)) (micros_from_time clock_start at);
      cmd = no_cmd;
    }
    press lowers s at m = record {
      model = m;
      sent = set_tempo (fl.sub m.tempo (fl.decimal 1 0)) (micros_from_time clock_start at);
      cmd = no_cmd;
    }
    press plays s at m = record {
      model = m;
      sent = some (change_playing (not m.playing) (micros_from_time clock_start at));
      cmd = no_cmd;
    }
    press enables s at m = record { model = m; sent = some (enable (not m.enabled)); cmd = no_cmd }
    press narrows s at m = record {
      model =
          if fl.lt (fl.decimal 1 0) m.quantum
          then record m { quantum = fl.sub m.quantum (fl.decimal 1 0) }
          else m;
      sent = none;
      cmd = no_cmd;
    }
    press widens s at m = record {
      model =
          if fl.lt m.quantum (fl.decimal 32 0)
          then record m { quantum = fl.add m.quantum (fl.decimal 1 0) }
          else m;
      sent = none;
      cmd = no_cmd;
    }
    press enters s at m =
        if length m.input == 0
        then record { model = m; sent = none; cmd = no_cmd }
        else record { model = record m { input = [] }; sent = typed_tempo m.input at; cmd = no_cmd }
    press erases s at m = record {
      model = record m { input = drop_last m.input };
      sent = none;
      cmd = no_cmd;
    }
    press types s at m = record {
      model = record m {
        input = if is_digit_text s && ltb (length m.input) 6 then m.input ++ s else m.input;
      };
      sent = none;
      cmd = no_cmd;
    }

    unfoldable pub update : Engine F → Message → Model F → Reaction F
    unfolding press refresh key_of
    update lnk (window_size w h) m = record {
      model = record m { width = w; height = h };
      sent = none;
      cmd = no_cmd;
    }
    update lnk tick_msg m = record { model = refresh lnk m; sent = none; cmd = tick }
    update lnk update_msg m = record { model = refresh lnk m; sent = none; cmd = wait_for_update }
    update lnk (key s at) m = press (key_of s) s at m
