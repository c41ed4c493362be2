-- ===== src/Beats/Phase.antt =====
-- The phase arithmetic of link/beats.go against the mathematical remainder.
use abletonlink_client_go.Base.{
  ℕ, zero, suc, ◌+◌, ◌-◌, ◌*◌, ◌/◌, ◌%◌, ◌^◌, ◌≤◌, ◌<◌, ◌≡◌, ap, arith, some,
}
use abletonlink_client_go.Base.Int.{ℤ, pos, negsuc, nat_abs, ◌+ℤ◌, neg_ℤ}
use abletonlink_client_go.Base.Int64.{wrap, add64, neg64, rem64}
use abletonlink_client_go.Base.Int64.Laws.{add64_pos, mul64_pos, div64_pos}
use native.Mathlib.Nat.{
  div-add-mod, div-add-mod', mod-lt, mod-eq_of_lt, div-lt_iff_lt-mul, mul-add-mod_self_right,
  add-mul-mod_self_right,
}
use abletonlink_client_go.Beats.{beats, phase, abs64, add_beats, mod_beats}

-- The remainder that lies in [0, q) for either sign.
abbrev pub residue : ℤ → ℕ → ℕ
residue (pos n) q = n % q
residue (negsuc n) q = q - 1 - n % q

abs64_lem : (b : ℤ) → nat_abs b < 2 ^ 63 → abs64 b ≡ pos (nat_abs b)
unfolding abs64 neg64 wrap neg_ℤ
abs64_lem b h = ground arith

add_neg : (n m : ℕ) → suc n ≤ m → m < 2 ^ 63 → add64 (negsuc n) (pos m) ≡ pos (m - suc n)
unfolding add64 wrap ◌+ℤ◌
add_neg n m lo hi = ground arith

pub mod_complement : (n k d : ℕ) → suc n ≤ k * suc d → (k * suc d - suc n) % suc d ≡ d - n % suc d
mod_complement n k d h =
    let positive : 0 < suc d = omega arith in
    let below : n / suc d < k = (div-lt_iff_lt-mul positive).1 h in
    let split : k * suc d ≡ (suc (n / suc d) + (k - suc (n / suc d))) * suc d =
      ap (λ (t : ℕ). t * suc d) (omega arith) in
    let rest : k * suc d - suc n ≡ (k - suc (n / suc d)) * suc d + (d - n % suc d) =
      omega (arith, split, div-add-mod n (suc d), mod-lt n {m = suc d} (omega arith)) in
    rw (rest, mul-add-mod_self_right) (mod-eq_of_lt (omega arith))

-- A number of whole quanta added to `b` leaves its residue.
shifted_rem :
    (b : ℤ) (k d : ℕ)
    → nat_abs b < k * suc d
    → nat_abs b + k * suc d < 2 ^ 63
    → rem64 (add64 b (pos (k * suc d))) (pos (suc d)) ≡ some (pos (residue b (suc d)))
unfolding rem64
shifted_rem (pos n) k d lo hi = rw (add64_pos n (k * suc d) hi) (rw add-mul-mod_self_right)
shifted_rem (negsuc n) k d lo hi =
    rw (add_neg n (k * suc d) (omega arith) (omega arith)) rw (mod_complement n k d (omega arith))
      (ap (λ t. some (pos t)) (omega arith))

-- For a positive quantum q with 2 |b| + q < 2^63, Phase is the mathematical remainder: it does not panic, and
-- its result lies in [0, quantum) and differs from `b` by a whole number of quanta.
pub phase-residue :
    (b : ℤ) (q : ℕ)
    → 0 < q
    → 2 * nat_abs b + q < 2 ^ 63
    → phase (beats b) (beats (pos q)) ≡ some (beats (pos (residue b q)))
unfolding phase mod_beats add_beats
phase-residue b zero h fits = elim h [ ]
phase-residue b (suc d) h fits =
    let m = nat_abs b + suc d in
    let whole : m / suc d * suc d + m % suc d ≡ m = div-add-mod' m (suc d) in
    let part : m % suc d < suc d = mod-lt m h in
    rw
      (
        abs64_lem b (omega arith),
        add64_pos (nat_abs b) (suc d) (omega arith),
        div64_pos (nat_abs b + suc d) d (omega arith),
        mul64_pos ((nat_abs b + suc d) / suc d) (suc d) (omega arith),
        shifted_rem b ((nat_abs b + suc d) / suc d) d (omega arith) (omega arith),
      )
      (ground arith)

pub residue-lt : (b : ℤ) (q : ℕ) → 0 < q → residue b q < q
residue-lt (pos n) q h = mod-lt n h
residue-lt (negsuc n) q h = omega arith
