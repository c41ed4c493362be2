-- ===== src/Terminal/View.antt =====
-- What the terminal client shows: the figures of View, and a line of runPlain.
use abletonlink_client_go.Base.{
  ℕ, zero, suc, ◌+◌, Bool, Option, some, List, [], ◌∷◌, ◌++◌, length, ◌==◌, if◌then◌else◌, ◌>>=◌,
}
use abletonlink_client_go.Base.Int.{ℤ, pos, ltb_ℤ, eqb_ℤ, pos_part}
use abletonlink_client_go.Float.{Float64}
use abletonlink_client_go.NodeId.{NodeId}
use abletonlink_client_go.PeerState.{UdpAddr}
use abletonlink_client_go.Engine.State.{Engine, PeerInfo}
use abletonlink_client_go.Engine.Api.{num_peers, tempo, is_playing, beat_at_time, phase_at_time}
use abletonlink_client_go.Terminal.{Model}

-- The figures that View draws.
pub data Cell : Type 0 where
  dot bullet blank : Cell

unfoldable pub fine_from : ℤ → ℕ → ℕ → List Cell
fine_from p i zero = []
fine_from p i (suc n) =
    let rest = fine_from p (i + 1) n in
    (if ltb_ℤ (pos i) p then dot else if eqb_ℤ (pos i) p then bullet else blank) ∷ rest

-- The bar of 32 cells for a position that is 31 at most.
unfoldable pub fine_bar : ℤ → List Cell
unfolding fine_from
fine_bar p = fine_from (if ltb_ℤ p (pos 32) then p else pos 31) 0 32

-- One marker for each of n beats from beat i on; the marker of beat p is filled.
unfoldable pub metro_from : ℤ → ℕ → ℕ → List Bool
metro_from p i zero = []
metro_from p i (suc n) = let rest = metro_from p (i + 1) n in eqb_ℤ p (pos i) ∷ rest

pub record Figures (F : Type 0) : Type 0 where
  pub bar : ℤ
  pub phase : F
  pub fine : List Cell
  pub metro : List Bool

module _ {F : Type 0} ⦃fl : Float64 F⦄ (clock_start : ℤ) where
  -- The figures of View, which reads the clock twice.
  unfoldable pub figures : Engine F → ℤ → ℤ → Model F → Option (Figures F)
  unfolding fine_bar metro_from
  figures lnk now later m = do
    beat ← beat_at_time clock_start lnk.snap now m.quantum
    phase ← phase_at_time clock_start lnk.snap later m.quantum
    some (record {
      bar = fl.to_int64 (fl.div beat m.quantum);
      phase = phase;
      fine = fine_bar (fl.to_int64 (fl.mul (fl.div phase m.quantum) (fl.decimal 32 0)));
      metro = metro_from (fl.to_int64 phase) 0 (pos_part (fl.to_int64 m.quantum));
    })

-- The rows of View, with what each of them shows; styles and texts are left out.
pub data Row (F : Type 0) : Type 0 where
  title empty_row waiting : Row F
  status_row : F → Bool → Bool → Row F
  phase_row : F → ℤ → F → Row F
  metro_row : List Bool → Row F
  fine_row : List Cell → Row F
  peers_header : ℕ → Row F
  peer_row : NodeId → Option UdpAddr → F → Row F
  input_row : List ℕ → Row F

module _ {F : Type 0} where
  unfoldable pub peer_rows : List (PeerInfo F) → List (Row F)
  peer_rows [] = []
  peer_rows (p ∷ ps) = peer_row p.node_id p.addr p.tempo ∷ peer_rows ps

  unfoldable pub peers_view : Model F → List (Row F)
  unfolding peer_rows
  peers_view m =
      if length m.peers == 0 then waiting ∷ [] else peers_header m.num_peers ∷ peer_rows m.peers

  unfoldable pub rows : Model F → Figures F → List (Row F)
  unfolding peers_view
  rows m f =
      (title
        ∷ empty_row
        ∷ status_row m.tempo m.playing m.enabled
        ∷ phase_row f.phase f.bar m.quantum
        ∷ metro_row f.metro
        ∷ fine_row f.fine
        ∷ empty_row
        ∷ [])
      ++ (peers_view m ++ (if length m.input == 0 then [] else input_row m.input ∷ []))

module _ {F : Type 0} ⦃fl : Float64 F⦄ (clock_start : ℤ) where
  unfoldable pub view : Engine F → ℤ → ℤ → Model F → Option (List (Row F))
  unfolding figures rows
  view lnk now later m = figures clock_start lnk now later m >>= λ f. some (rows m f)

-- What a line of runPlain shows.
pub record PlainLine (F : Type 0) : Type 0 where
  pub tempo : F
  pub phase : F
  pub quantum : F
  pub num_peers : ℕ
  pub playing : Bool

module _ {F : Type 0} ⦃fl : Float64 F⦄ (clock_start : ℤ) where
  -- One tick of runPlain, with the quantum of the command line.
  unfoldable pub plain_line : Engine F → ℤ → F → Option (PlainLine F)
  plain_line lnk now quantum = do
    phase ← phase_at_time clock_start lnk.snap now quantum
    some (record {
      tempo = tempo lnk.snap;
      phase = phase;
      quantum = quantum;
      num_peers = num_peers lnk.snap;
      playing = is_playing lnk.snap;
    })
