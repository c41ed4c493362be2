-- ===== src/Timeline/Mapping.antt =====
-- The mappings of link/timeline.go: continuity of the client timeline, precedence of a new session
-- timeline, range of the tempo.
use abletonlink_client_go.Base.{
  ℕ, zero, suc, ◌^◌, ◌<◌, ◌≡◌, ◌≢◌, refl, ap, ◌∙◌, arith, Bool, true, false, not, ◌&&◌, ◌||◌, ◌⊎◌,
  inl, inr, Bool-cases, if◌then◌else◌,
}
use abletonlink_client_go.Base.Int.{ℤ, pos, negsuc, nat_abs, ◌+ℤ◌, neg_ℤ}
use abletonlink_client_go.Base.Int64.{IsI64, wrap, add64, sub64, neg64}
use abletonlink_client_go.Base.Int64.Laws.{add64-neg64, sub64_swap, add64-IsI64}
use abletonlink_client_go.Float.{Float64, IsFloat64, FitsInt64}
use abletonlink_client_go.Clock.{Micros, llround-of_int, llround-neg}
use abletonlink_client_go.Beats.{beats, add_beats, less, greater, eq_beats, beats_from_float}
use abletonlink_client_go.Timeline.{
  Tempo, Timeline, GhostXForm, micros_per_beat, micros_to_beats, to_beats, from_beats, clamp_tempo,
  host_to_ghost, ghost_to_host, update_client_timeline_from_session, eq_tempo, min_bpm, max_bpm,
  update_session_timeline_from_client,
}

neg_zero : neg_ℤ (pos 0) ≡ pos 0
unfolding neg_ℤ
neg_zero = refl

add64_zero_twice : (b : ℤ) → IsI64 b → add64 (add64 b (pos 0)) (pos 0) ≡ b
unfolding add64 wrap ◌+ℤ◌
add64_zero_twice b h = ground arith

neg64_small : (z : ℤ) → nat_abs z < 2 ^ 63 → neg64 z ≡ neg_ℤ z
unfolding neg64 wrap neg_ℤ
neg64_small z h = ground arith

sub64_neg : (a b : ℤ) → nat_abs (sub64 a b) < 2 ^ 63 → sub64 b a ≡ neg_ℤ (sub64 a b)
sub64_neg a b h = sub64_swap b a ∙ neg64_small (sub64 a b) h

module _ {F : Type 0} ⦃fl : Float64 F⦄ where
  -- The micro-beats of a duration, before they are rounded.
  abbrev pub exact_micro_beats : Tempo F → Micros → F
  exact_micro_beats t m =
      fl.mul (fl.div (fl.of_int m) (fl.of_int (micros_per_beat t))) (fl.decimal 1_000_000 0)

  -- For a session whose beat origin is below 2^62 in absolute value: a client change that is no
  -- repetition gives the session a later beat origin and the client's tempo; a repetition gives back
  -- the session's timeline.
  pub update_session_timeline_precedence :
      (s c : Timeline F) (at : Micros) (x : GhostXForm F)
      → nat_abs s.beat_origin.micro < 2 ^ 62
      → let repeated =
          eq_beats (to_beats s (host_to_ghost x c.time_origin)) (beats (pos 0))
          && eq_tempo c.tempo s.tempo in
        let r = update_session_timeline_from_client s c at x in
        (greater r.beat_origin s.beat_origin ≡ not repeated)
        × (r.tempo ≡ (if repeated then s.tempo else c.tempo))
        × (repeated ≡ true → r ≡ s)
  unfolding update_session_timeline_from_client greater less add_beats add64 wrap ◌+ℤ◌
  update_session_timeline_precedence s c at x h = ground arith

  module _ (laws : IsFloat64 F) where
    micros_to_beats-zero :
        (t : Tempo F) (n : ℕ)
        → micros_per_beat t ≡ pos n
        → 0 < n
        → micros_to_beats t (pos 0) ≡ beats (pos 0)
    unfolding micros_to_beats beats_from_float
    micros_to_beats-zero t n e h =
        rw
          (e, laws.zero_div n h, laws.zero_mul 1_000_000, llround-of_int laws (pos 0) (omega arith))

    micros_to_beats-neg :
        (t : Tempo F) (m : ℤ)
        → m ≢ pos 0
        → FitsInt64 (fl.round (exact_micro_beats t m))
        → micros_to_beats t (neg_ℤ m) ≡ beats (neg64 (micros_to_beats t m).micro)
    unfolding micros_to_beats beats_from_float
    micros_to_beats-neg t m nonzero fits =
        rw (laws.of_int-neg m nonzero, laws.neg_div, laws.neg_mul, llround-neg laws _ fits)

    -- 20 <= bpm and bpm <= 999, as comparisons of float64.
    abbrev pub is_in_range : F → Bool
    is_in_range bpm =
        (fl.lt min_bpm bpm || fl.eq bpm min_bpm) && (fl.lt bpm max_bpm || fl.eq bpm max_bpm)

    is_in_range-clamped :
        (bpm : F)
        → fl.eq bpm bpm ≡ true
        → is_in_range
            (if fl.lt bpm min_bpm then min_bpm else if fl.lt max_bpm bpm then max_bpm else bpm)
          ≡ true
    is_in_range-clamped bpm number = ground (
      arith,
      laws.eq_constant 20,
      laws.eq_constant 999,
      laws.lt_constant_less 20 999 (omega arith),
      laws.trichotomy bpm 20 number,
      laws.trichotomy bpm 999 number,
    )

    pub clamp_tempo_bounds :
        (tl : Timeline F)
        → let r = clamp_tempo tl in
          ((is_in_range r.tempo.bpm ≡ true)
            ⊎ ((fl.eq tl.tempo.bpm tl.tempo.bpm ≡ false) × (r.tempo.bpm ≡ tl.tempo.bpm)))
          × (r.beat_origin ≡ tl.beat_origin)
          × (r.time_origin ≡ tl.time_origin)
    unfolding clamp_tempo
    clamp_tempo_bounds tl = (
      elim (Bool-cases (fl.eq tl.tempo.bpm tl.tempo.bpm)) [
        | inl number ↦ inl (is_in_range-clamped tl.tempo.bpm number)
        | inr nan ↦
            let below = (laws.lt_nan tl.tempo.bpm min_bpm nan).0 in
            let above = (laws.lt_nan tl.tempo.bpm max_bpm nan).1 in
            inr (nan, rw (below, above) refl)
      ],
      refl,
      refl,
    )

    -- A step to a time and back again leaves the beat where it was.
    there_and_back :
        (t : Tempo F) (n : ℕ) (b d : ℤ)
        → micros_per_beat t ≡ pos n
        → 0 < n
        → FitsInt64 (fl.round (exact_micro_beats t d))
        → IsI64 b
        → add64 (add64 b (micros_to_beats t d).micro) (micros_to_beats t (neg_ℤ d)).micro ≡ b
    there_and_back t n b (pos zero) e h fits hb =
        rw (neg_zero, micros_to_beats-zero t n e h) (add64_zero_twice b hb)
    there_and_back t n b (pos (suc k)) e h fits hb =
        rw (micros_to_beats-neg t (pos (suc k)) (λ z. cc) fits) (add64-neg64 b _ hb)
    there_and_back t n b (negsuc k) e h fits hb =
        rw (micros_to_beats-neg t (negsuc k) (λ z. cc) fits) (add64-neg64 b _ hb)

    pub update_client_timeline_continuous :
        (c s : Timeline F) (at : Micros) (x : GhostXForm F) (n : ℕ)
        → let zero_time = ghost_to_host x (from_beats s (beats (pos 0))) in
          let elapsed = sub64 zero_time at in
          micros_per_beat s.tempo ≡ pos n
          → 0 < n
          → nat_abs elapsed < 2 ^ 63
          → FitsInt64 (fl.round (exact_micro_beats s.tempo elapsed))
          → let r = update_client_timeline_from_session c s at x in
            (to_beats r at ≡ to_beats c at) × (r.tempo ≡ s.tempo) × (r.time_origin ≡ zero_time)
    unfolding update_client_timeline_from_session to_beats add_beats
    update_client_timeline_continuous c s at x n e h small fits = (
      ap beats (
          rw (sub64_neg _ at small)
            (there_and_back s.tempo n (to_beats c at).micro _ e h fits (add64-IsI64 _ _))),
      refl,
      refl,
    )
