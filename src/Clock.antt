-- ===== src/Clock.antt =====
-- link/clock.go: microseconds on the local monotonic clock, and rounding to int64. The wall clock
-- itself is an input of the operations that read it.
pub mod Wall
use abletonlink_client_go.Base.{◌^◌, ◌≤◌, ◌≡◌, ◌∙◌, ap}
use abletonlink_client_go.Base.Int.{ℤ, nat_abs}
use abletonlink_client_go.Base.Int64.{neg64}
use abletonlink_client_go.Float.{Float64, IsFloat64, FitsInt64}

-- Micros is an int64; its arithmetic is that of Base.Int64.
abbrev pub Micros : Type 0
Micros = ℤ

unfoldable pub llround : {F : Type 0} ⦃fl : Float64 F⦄ → F → ℤ
llround ⦃fl⦄ v = fl.to_int64 (fl.round v)

module _ {F : Type 0} ⦃fl : Float64 F⦄ (laws : IsFloat64 F) where
  pub llround-of_int : (z : ℤ) → nat_abs z ≤ 2 ^ 53 → llround (fl.of_int z) ≡ z
  unfolding llround
  llround-of_int z h = ap fl.to_int64 (laws.round-of_int z) ∙ laws.to_int64-of_int z h

  pub llround-neg : (v : F) → FitsInt64 (fl.round v) → llround (fl.neg v) ≡ neg64 (llround v)
  unfolding llround
  llround-neg v h = ap fl.to_int64 (laws.round-neg v) ∙ laws.to_int64-neg (fl.round v) h
