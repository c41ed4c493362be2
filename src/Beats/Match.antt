-- ===== src/Beats/Match.antt =====
-- NextPhaseMatch and ClosestPhaseMatch of link/beats.go.
use abletonlink_client_go.Base.{
  ℕ, zero, suc, ◌+◌, ◌-◌, ◌*◌, ◌%◌, ◌^◌, ◌≤◌, ◌<◌, ◌≡◌, ap, sym, ◌∙◌, arith, some,
}
use abletonlink_client_go.Base.Int.{ℤ, pos, negsuc, nat_abs, ◌+ℤ◌, ◌-ℤ◌, int_laws}
use abletonlink_client_go.Base.Int64.{wrap, add64, sub64, rem64, IsI64}
use abletonlink_client_go.Base.Int64.Laws.{add64-fits}
use abletonlink_client_go.Clock.{llround}
use abletonlink_client_go.Float.{Float64, IsFloat64}
use native.Mathlib.Decide.{dec_le}
use native.Mathlib.Nat.{
  mod-lt, mod-eq_of_lt, mod-add-mod, add-mod-mod, add-mul-mod_self_right, add-mod_right, mod-le,
}
use abletonlink_client_go.Beats.{
  beats, next_phase_match, closest_phase_match, half_quantum, float, add_beats, sub_beats,
  mod_beats,
}
use abletonlink_client_go.Beats.Phase.{residue, residue-lt, phase-residue, mod_complement}

pos_add_pos : (n k : ℕ) → pos n +ℤ pos k ≡ pos (n + k)
unfolding ◌+ℤ◌
pos_add_pos n k = ground arith

negsuc_add_past : (n k : ℕ) → suc n ≤ k → negsuc n +ℤ pos k ≡ pos (k - suc n)
unfolding ◌+ℤ◌
negsuc_add_past n k h = ground arith

negsuc_add_short : (n k : ℕ) → k ≤ n → negsuc n +ℤ pos k ≡ negsuc (n - k)
unfolding ◌+ℤ◌
negsuc_add_short n k h = ground arith

-- A residue after a step forward.
pub residue-add : (x : ℤ) (k q : ℕ) → 0 < q → residue (x +ℤ pos k) q ≡ (residue x q + k) % q
residue-add (pos n) k q h = rw pos_add_pos (sym (mod-add-mod n q k))
residue-add (negsuc n) k zero h = elim h [ ]
residue-add (negsuc n) k (suc d) h =
    let wide : suc n ≤ suc n * suc d = grind arith in
    let here = mod_complement n (suc n) d wide in
    let there : (d - n % suc d + k) % suc d ≡ (suc n * suc d - suc n + k) % suc d =
      rw (← here) (mod-add-mod (suc n * suc d - suc n) (suc d) k) in
    let same : suc d - 1 - n % suc d ≡ d - n % suc d = omega arith in
    rw (same, there)
      (elim (dec_le (suc n) k) [
        | yes past ↦ rw (negsuc_add_past n k past) (
            sym (add-mul-mod_self_right (k - suc n) (suc n) (suc d))
            ∙ ap (λ t. t % suc d) (omega arith))
        | no short ↦ rw (negsuc_add_short n k (omega arith)) (
            (omega arith)
            ∙ sym (mod_complement (n - k) (suc n) d (omega arith))
            ∙ ap (λ t. t % suc d) (omega arith))
      ])

-- The step from a residue to the next place with residue `s`.
abbrev pub gap : ℕ → ℕ → ℕ → ℕ
gap r s q = (s + (q - r)) % q

add-gap : (r s q : ℕ) → r < q → s < q → (r + gap r s q) % q ≡ s
add-gap r s q hr hs =
    add-mod-mod r (s + (q - r)) q
    ∙ ap (λ t. t % q) (omega arith)
    ∙ add-mod_right s q
    ∙ mod-eq_of_lt hs

gap_of_step : (r s q k : ℕ) → r < q → (r + k) % q ≡ s → gap r s q ≡ k % q
gap_of_step r s q k hr e =
    rw (← e) (mod-add-mod (r + k) q (q - r) ∙ ap (λ t. t % q) (omega arith) ∙ add-mod_right k q)

gap_least : (r s q k : ℕ) → r < q → (r + k) % q ≡ s → gap r s q ≤ k
gap_least r s q k hr e = rw (gap_of_step r s q k hr e) (mod-le k q)

to_gap :
    (r s q : ℕ)
    → r < q
    → s < q
    → q < 2 ^ 61
    → add64 (sub64 (pos s) (pos r)) (pos q) ≡ pos (s + (q - r))
unfolding add64 sub64 wrap ◌+ℤ◌ ◌-ℤ◌
to_gap r s q hr hs small = ground arith

phase_diff_lem :
    (r s q : ℕ)
    → r < q
    → s < q
    → q < 2 ^ 61
    → mod_beats
        (add_beats (sub_beats (beats (pos s)) (beats (pos r))) (beats (pos q)))
        (beats (pos q))
      ≡ some (beats (pos (gap r s q)))
unfolding mod_beats add_beats sub_beats rem64
phase_diff_lem r s zero hr hs small = elim hr [ ]
phase_diff_lem r s (suc d) hr hs small = rw (to_gap r s (suc d) hr hs small)

next_fits : (x : ℤ) (g : ℕ) → nat_abs x < 2 ^ 61 → g < 2 ^ 61 → IsI64 (x +ℤ pos g)
unfolding ◌+ℤ◌
next_fits x g hx hg = ground arith

-- NextPhaseMatch adds to x the gap between the two residues.
pub next_phase_match-gap :
    (x t : ℤ) (q : ℕ)
    → 0 < q
    → nat_abs x < 2 ^ 61
    → nat_abs t < 2 ^ 61
    → q < 2 ^ 61
    → next_phase_match (beats x) (beats t) (beats (pos q))
      ≡ some (beats (x +ℤ pos (gap (residue x q) (residue t q) q)))
unfolding next_phase_match add_beats
next_phase_match-gap x t q h hx ht hq =
    let g = gap (residue x q) (residue t q) q in
    let small : g < q = mod-lt _ h in
    let fits : IsI64 (x +ℤ pos g) = next_fits x g hx (omega arith) in
    rw
      (
        phase-residue t q h (omega arith),
        phase-residue x q h (omega arith),
        phase_diff_lem (residue x q) (residue t q) q (residue-lt x q h) (residue-lt t q h) hq,
      )
      (ap (λ z. some (beats z)) (add64-fits x (pos g) fits))

-- For a positive quantum, and numbers below 2^61, the result of NextPhaseMatch is x itself or lies
-- less than one quantum after x, it has the phase of the target, and no earlier place from x on has
-- that phase.
pub next_phase_match_least :
    (x t : ℤ) (q : ℕ)
    → 0 < q
    → nat_abs x < 2 ^ 61
    → nat_abs t < 2 ^ 61
    → q < 2 ^ 61
    → (g : ℕ) × (next_phase_match (beats x) (beats t) (beats (pos q)) ≡ some (beats (x +ℤ pos g)))
      × (g < q)
      × (residue (x +ℤ pos g) q ≡ residue t q)
      × ((k : ℕ) → residue (x +ℤ pos k) q ≡ residue t q → g ≤ k)
next_phase_match_least x t q h hx ht hq =
    let r = residue x q in
    let s = residue t q in
    (
      gap r s q,
      next_phase_match-gap x t q h hx ht hq,
      mod-lt _ h,
      residue-add x (gap r s q) q h ∙ add-gap r s q (residue-lt x q h) (residue-lt t q h),
      λ k e. gap_least r s q k (residue-lt x q h) (sym (residue-add x k q h) ∙ e),
    )

back_and_forth : (x : ℤ) (m n : ℕ) → x -ℤ pos m +ℤ pos (m + n) ≡ x +ℤ pos n
back_and_forth x m n = omega int_laws

back_fits :
    (x : ℤ) (h : ℕ)
    → nat_abs x < 2 ^ 60
    → h < 2 ^ 60
    → (sub64 x (pos h) ≡ x -ℤ pos h) × (nat_abs (x -ℤ pos h) < 2 ^ 61)
unfolding sub64 wrap ◌-ℤ◌
back_fits x h hx hh = (ground arith, ground arith)

twice_back : (q g : ℕ) → g ≤ q → q - (q - g) ≡ g
twice_back q g h = omega arith

residue_of_lap :
    (x : ℤ) (q m : ℕ) → 0 < q → m ≤ q → residue (x -ℤ pos m) q ≡ residue (x +ℤ pos (q - m)) q
residue_of_lap x q m h hm =
    let lap : x -ℤ pos m +ℤ pos q ≡ x +ℤ pos (q - m) = omega int_laws in
    rw (← lap) (
      sym (
        residue-add (x -ℤ pos m) q q h
        ∙ add-mod_right _ q
        ∙ mod-eq_of_lt (residue-lt (x -ℤ pos m) q h)))

module _ (F : Type 0) ⦃fl : Float64 F⦄ where
  -- The case of a shift by h, whatever it is.
  past_half :
      (x t : ℤ) (q h g : ℕ)
      → nat_abs x < 2 ^ 60
      → nat_abs t < 2 ^ 60
      → q < 2 ^ 60
      → half_quantum F (beats (pos q)) ≡ beats (pos h)
      → q < 2 * g
      → g + h < q
      → residue (x +ℤ pos g) q ≡ residue t q
      → (closest_phase_match F (beats x) (beats t) (beats (pos q)) ≡ some (beats (x +ℤ pos g)))
        × (residue (x -ℤ pos (q - g)) q ≡ residue t q)
        × (q - g < g)
  unfolding closest_phase_match sub_beats
  past_half x t q h g bx bt bq half far room e =
      let hq : 0 < q = omega arith in
      let y = x -ℤ pos h in
      let (start, small) = back_fits x h bx (omega arith) in
      let landed : residue (y +ℤ pos (h + g)) q ≡ residue t q = rw (back_and_forth x h g) e in
      let step : gap (residue y q) (residue t q) q ≡ h + g =
        gap_of_step (residue y q) (residue t q) q (h + g) (residue-lt y q hq)
          (sym (residue-add y (h + g) q hq) ∙ landed)
        ∙ mod-eq_of_lt (omega arith) in
      (
        rw (
          half,
          start,
          next_phase_match-gap y t q hq small (omega arith) (omega arith),
          step,
          back_and_forth x h g,
        ),
        residue_of_lap x q (q - g) hq (omega arith) ∙ rw (twice_back q g (omega arith)) e,
        omega arith,
      )

module _ {F : Type 0} ⦃fl : Float64 F⦄ (laws : IsFloat64 F) where
  -- For 2k beats the code takes k millionths of a beat as half of the quantum.
  half_quantum-millions :
      (k : ℕ)
      → 2 * (k * 1_000_000) ≤ 2 ^ 53
      → half_quantum F (beats (pos (2 * (k * 1_000_000)))) ≡ beats (pos k)
  unfolding half_quantum float llround
  half_quantum-millions k h =
      ap beats
        (ap fl.to_int64 (laws.half_of_millions k h) ∙ laws.to_int64-of_int (pos k) (omega arith))

  pub closest_phase_match_not_closest :
      (x t : ℤ) (k g : ℕ)
      → nat_abs x < 2 ^ 60
      → nat_abs t < 2 ^ 60
      → k ≤ 2 ^ 30
      → 2 * (k * 1_000_000) < 2 * g
      → g + k < 2 * (k * 1_000_000)
      → residue (x +ℤ pos g) (2 * (k * 1_000_000)) ≡ residue t (2 * (k * 1_000_000))
      → let q = 2 * (k * 1_000_000) in
        (closest_phase_match F (beats x) (beats t) (beats (pos q)) ≡ some (beats (x +ℤ pos g)))
        × (residue (x -ℤ pos (q - g)) q ≡ residue t q)
        × (q - g < g)
  closest_phase_match_not_closest x t k g bx bt bk far room e =
      past_half F x t (2 * (k * 1_000_000)) k g bx bt (omega arith)
        (half_quantum-millions k (omega arith)) far room e
