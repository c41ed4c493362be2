-- ===== src/Float.antt =====
-- What the code does with `float64`: conversions, arithmetic, comparisons and math.Round. The type
-- is a parameter; IsFloat64 names the facts of IEEE 754 arithmetic that the theorems rely on.
use abletonlink_client_go.Base.{ℕ, ◌*◌, ◌^◌, ◌≤◌, ◌<◌, ◌≡◌, ◌≢◌, Bool, true, false}
use abletonlink_client_go.Base.Int.{ℤ, pos, nat_abs, neg_ℤ}
use abletonlink_client_go.Base.Int64.{neg64}

pub record Float64 (F : Type 0) : Type 0 where
  -- `decimal n k` is the constant n / 10^k.
  pub decimal : ℕ → ℕ → F
  pub of_int : ℤ → F
  pub to_int64 : F → ℤ
  pub round : F → F
  pub neg : F → F
  pub add : F → F → F
  pub sub : F → F → F
  pub mul : F → F → F
  pub div : F → F → F
  pub lt : F → F → Bool
  pub eq : F → F → Bool

-- `v` lies strictly between -2^63 and 2^63, so its conversion to int64 is defined.
abbrev pub FitsInt64 : {F : Type 0} ⦃fl : Float64 F⦄ → F → Type 0
FitsInt64 ⦃fl⦄ v =
    (fl.lt v (fl.decimal (2 ^ 63) 0) ≡ true) × (fl.lt (fl.neg (fl.decimal (2 ^ 63) 0)) v ≡ true)

pub record IsFloat64 (F : Type 0) ⦃fl : Float64 F⦄ : Type 0 where
  -- Positive zero divided by a positive number, and times a constant, is positive zero.
  pub zero_div :
      (n : ℕ) → 0 < n → fl.div (fl.of_int (pos 0)) (fl.of_int (pos n)) ≡ fl.of_int (pos 0)
  pub zero_mul : (n : ℕ) → fl.mul (fl.of_int (pos 0)) (fl.decimal n 0) ≡ fl.of_int (pos 0)
  -- Division and multiplication by the constant 1 are exact.
  pub one_mul : (z : ℤ) → fl.mul (fl.decimal 1 0) (fl.of_int z) ≡ fl.of_int z
  pub div_one : (z : ℤ) → fl.div (fl.of_int z) (fl.decimal 1 0) ≡ fl.of_int z
  -- A converted integer is integral, and up to 2^53 it is exact.
  pub round-of_int : (z : ℤ) → fl.round (fl.of_int z) ≡ fl.of_int z
  pub to_int64-of_int : (z : ℤ) → nat_abs z ≤ 2 ^ 53 → fl.to_int64 (fl.of_int z) ≡ z
  -- All operations treat the two signs alike (of_int 0 is positive zero).
  pub of_int-neg : (z : ℤ) → z ≢ pos 0 → fl.of_int (neg_ℤ z) ≡ fl.neg (fl.of_int z)
  pub neg_div : (x y : F) → fl.div (fl.neg x) y ≡ fl.neg (fl.div x y)
  pub neg_mul : (x y : F) → fl.mul (fl.neg x) y ≡ fl.neg (fl.mul x y)
  pub round-neg : (x : F) → fl.round (fl.neg x) ≡ fl.neg (fl.round x)
  pub to_int64-neg : (x : F) → FitsInt64 x → fl.to_int64 (fl.neg x) ≡ neg64 (fl.to_int64 x)
  -- Constants compare as the numbers that they are.
  pub lt_constant : (m n : ℕ) → n ≤ m → fl.lt (fl.decimal m 0) (fl.decimal n 0) ≡ false
  pub lt_constant_less : (m n : ℕ) → m < n → fl.lt (fl.decimal m 0) (fl.decimal n 0) ≡ true
  pub eq_constant : (n : ℕ) → fl.eq (fl.decimal n 0) (fl.decimal n 0) ≡ true
  -- A number is less than a constant, greater, or equal to it; NaN, which alone is not equal to itself,
  -- is neither less nor greater than anything.
  pub trichotomy :
      (x : F) (n : ℕ)
      → fl.eq x x ≡ true
      → fl.lt x (fl.decimal n 0) ≡ false
      → fl.lt (fl.decimal n 0) x ≡ false
      → fl.eq x (fl.decimal n 0) ≡ true
  pub lt_nan : (x y : F) → fl.eq x x ≡ false → (fl.lt x y ≡ false) × (fl.lt y x ≡ false)
  -- An even whole number of millions, divided by a million and halved, is exact.
  pub half_of_millions :
      (k : ℕ)
      → 2 * (k * 1_000_000) ≤ 2 ^ 53
      → fl.round (
          fl.mul
            (fl.decimal 5 1)
            (fl.div (fl.of_int (pos (2 * (k * 1_000_000)))) (fl.decimal 1_000_000 0)))
        ≡ fl.of_int (pos k)
