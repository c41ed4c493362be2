-- ===== src/Timeline/Panics.antt =====
-- Which calls of link/beats.go and link/timeline.go panic: those that take a remainder by a quantum of
-- zero.
use abletonlink_client_go.Base.{
  zero, suc, ◌≡◌, refl, arith, Bool, true, false, Option, some, not, if◌then◌else◌,
}
use abletonlink_client_go.Base.Int.{ℤ, pos, negsuc, eqb_ℤ}
use abletonlink_client_go.Base.Int64.{div64, rem64, add64}
use abletonlink_client_go.Base.Results.{
  is_some, is_some-bind, is_some-bind_total, is_some-bind_last,
}
use abletonlink_client_go.Float.{Float64}
use abletonlink_client_go.Clock.{Micros}
use abletonlink_client_go.Beats.{
  Beats, beats, abs64, add_beats, sub_beats, mod_beats, phase, next_phase_match,
  closest_phase_match,
}
use abletonlink_client_go.Timeline.{
  Timeline, to_phase_encoded_beats, from_phase_encoded_beats, force_beat_at_time_impl,
}

abbrev pub is_nonzero : Beats → Bool
is_nonzero q = not (eqb_ℤ q.micro (pos 0))

is_some-rem64 : (a b : ℤ) → is_some (rem64 a b) ≡ not (eqb_ℤ b (pos 0))
unfolding rem64
is_some-rem64 a (pos zero) = refl
is_some-rem64 a (pos (suc d)) = ground arith
is_some-rem64 a (negsuc d) = ground arith

is_some-div64 : (a b : ℤ) → is_some (div64 a b) ≡ not (eqb_ℤ b (pos 0))
unfolding div64
is_some-div64 a (pos zero) = refl
is_some-div64 a (pos (suc d)) = ground arith
is_some-div64 a (negsuc d) = ground arith

is_some-mod_beats : (b q : Beats) → is_some (mod_beats b q) ≡ is_nonzero q
unfolding mod_beats
is_some-mod_beats b q =
    is_some-bind_last _ (rem64 b.micro q.micro) _ (is_some-rem64 b.micro q.micro) (λ r. refl)

guarded :
    (z : Bool) (a : Beats) (m : Option Beats)
    → is_some m ≡ not z
    → is_some (if z then some a else m) ≡ true
guarded true a m h = refl
guarded false a m h = h

pub is_some-phase : (b q : Beats) → is_some (phase b q) ≡ true
unfolding phase
is_some-phase b q = guarded (eqb_ℤ q.micro (pos 0)) (beats (pos 0)) _ (
    is_some-bind _ (div64 (add64 (abs64 b.micro) q.micro) q.micro) _ (is_some-div64 _ q.micro)
      λ n. is_some-mod_beats _ q)

pub is_some-next_phase_match : (x t q : Beats) → is_some (next_phase_match x t q) ≡ is_nonzero q
unfolding next_phase_match
is_some-next_phase_match x t q = is_some-bind_total _ (phase t q) _ (is_some-phase t q) λ d.
    is_some-bind_total _ (phase x q) _ (is_some-phase x q) λ p.
      is_some-bind_last _ (mod_beats (add_beats (sub_beats d p) q) q) _ (is_some-mod_beats _ q)
        λ r. refl

is_some-closest_phase_match :
    (F : Type 0) ⦃fl : Float64 F⦄ (x t q : Beats)
    → is_some (closest_phase_match F x t q) ≡ is_nonzero q
unfolding closest_phase_match
is_some-closest_phase_match F x t q = is_some-next_phase_match _ t q

module _ {F : Type 0} ⦃fl : Float64 F⦄ where
  pub is_some-to_phase_encoded_beats :
      (tl : Timeline F) (t : Micros) (q : Beats)
      → is_some (to_phase_encoded_beats tl t q) ≡ is_nonzero q
  unfolding to_phase_encoded_beats
  is_some-to_phase_encoded_beats tl t q = is_some-closest_phase_match F _ _ q

  pub is_some-from_phase_encoded_beats :
      (tl : Timeline F) (b q : Beats) → is_some (from_phase_encoded_beats tl b q) ≡ is_nonzero q
  unfolding from_phase_encoded_beats
  is_some-from_phase_encoded_beats tl b q =
      is_some-bind_total _ (phase (sub_beats b tl.beat_origin) q) _ (is_some-phase _ q) λ o.
        is_some-bind_total _ (phase b q) _ (is_some-phase b q) λ p.
          is_some-bind_last _ (closest_phase_match F (sub_beats q o) (sub_beats q p) q) _
            (is_some-closest_phase_match F _ _ q) λ i. refl

  pub is_some-force_beat_at_time_impl :
      (tl : Timeline F) (b : Beats) (t : Micros) (q : Beats)
      → is_some (force_beat_at_time_impl tl b t q) ≡ is_nonzero q
  unfolding force_beat_at_time_impl
  is_some-force_beat_at_time_impl tl b t q =
      is_some-bind _ (to_phase_encoded_beats tl t q) _ (is_some-to_phase_encoded_beats tl t q) λ c.
        is_some-bind_last _ (closest_phase_match F c b q) _ (is_some-closest_phase_match F c b q)
          λ p. refl
