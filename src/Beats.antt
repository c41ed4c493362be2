-- ===== src/Beats.antt =====
-- link/beats.go: positions in micro-beats and the phase arithmetic on the quantum grid. `none` is
-- the run-time panic of an integer division by zero.
pub mod Phase
pub mod Match
use abletonlink_client_go.Base.{◌≡◌, refl, Bool, Option, none, some, if◌then◌else◌, ◌>>=◌}
use abletonlink_client_go.Base.Int.{ℤ, pos, negsuc, ltb_ℤ, eqb_ℤ}
use abletonlink_client_go.Base.Int64.{add64, sub64, neg64, mul64, div64, rem64}
use abletonlink_client_go.Float.{Float64}
use abletonlink_client_go.Clock.{llround}

pub record Beats : Type 0 where
  pub micro : ℤ

abbrev pub beats : ℤ → Beats
beats m = record { micro = m }

unfoldable pub neg_beats : Beats → Beats
neg_beats b = beats (neg64 b.micro)

unfoldable pub add_beats : Beats → Beats → Beats
add_beats b o = beats (add64 b.micro o.micro)

unfoldable pub sub_beats : Beats → Beats → Beats
sub_beats b o = beats (sub64 b.micro o.micro)

unfoldable pub mod_beats : Beats → Beats → Option Beats
mod_beats b o = do r ← rem64 b.micro o.micro; some (beats r)

unfoldable pub less : Beats → Beats → Bool
less b o = ltb_ℤ b.micro o.micro

unfoldable pub greater : Beats → Beats → Bool
greater b o = ltb_ℤ o.micro b.micro

unfoldable pub eq_beats : Beats → Beats → Bool
eq_beats b o = eqb_ℤ b.micro o.micro

unfoldable pub abs64 : ℤ → ℤ
abs64 v = if ltb_ℤ v (pos 0) then neg64 v else v

unfoldable pub abs_beats : Beats → Beats
abs_beats b = if ltb_ℤ b.micro (pos 0) then beats (neg64 b.micro) else b

unfoldable pub phase : Beats → Beats → Option Beats
phase b quantum =
    let qm = quantum.micro in
    if eqb_ℤ qm (pos 0) then some (beats (pos 0)) else (do
      quantum_bins ← div64 (add64 (abs64 b.micro) qm) qm
      mod_beats (add_beats b (beats (mul64 quantum_bins qm))) quantum)

unfoldable pub next_phase_match : Beats → Beats → Beats → Option Beats
next_phase_match x target quantum = do
  desired_phase ← phase target quantum
  x_phase ← phase x quantum
  phase_diff ← mod_beats (add_beats (sub_beats desired_phase x_phase) quantum) quantum
  some (add_beats x phase_diff)

module _ {F : Type 0} ⦃fl : Float64 F⦄ where
  unfoldable pub beats_from_float : F → Beats
  beats_from_float b = beats (llround (fl.mul b (fl.decimal 1_000_000 0)))

  unfoldable pub float : Beats → F
  float b = fl.div (fl.of_int b.micro) (fl.decimal 1_000_000 0)

module _ (F : Type 0) ⦃fl : Float64 F⦄ where
  -- The argument of Beats{} in ClosestPhaseMatch.
  unfoldable pub half_quantum : Beats → Beats
  half_quantum quantum = beats (llround (fl.mul (fl.decimal 5 1) (float {F = F} quantum)))

  unfoldable pub closest_phase_match : Beats → Beats → Beats → Option Beats
  closest_phase_match x target quantum =
      next_phase_match (sub_beats x (half_quantum quantum)) target quantum
