-- ===== src/Exact.antt =====
-- An executable arithmetic that meets IsFloat64: a sign with an exact fraction. A fraction over 0
-- stands for an infinity or for NaN, and zero has a sign, as in IEEE 754; nothing is rounded. It
-- serves the tests and the instances of theorems at concrete inputs.
use abletonlink_client_go.Base.{
  ℕ, zero, suc, ◌+◌, ◌-◌, ◌*◌, ◌/◌, ◌^◌, ◌≤◌, ◌<◌, ◌≡◌, ◌≢◌, refl, ap, Bool, true, false, not, ◌&&◌,
  ◌||◌, arith, ltb, ◌==◌, eqb, if◌then◌else◌,
}
use abletonlink_client_go.Base.Int.{ℤ, pos, negsuc, nat_abs, sub_ℕ, neg_ℤ}
use abletonlink_client_go.Base.Int64.{neg64, wrap}
use native.Mathlib.Nat.{one-mul, mul-one, zero-mul, mul-zero}
use abletonlink_client_go.Float.{Float64, FitsInt64, IsFloat64}

pub record Exact : Type 0 where
  pub minus : Bool
  pub num : ℕ
  pub den : ℕ

-- Zero has one form for each sign.
abbrev unit_den : ℕ → ℕ
unit_den zero = zero
unit_den (suc d) = 1

abbrev exact : Bool → ℕ → ℕ → Exact
exact s zero d = record { minus = s; num = 0; den = unit_den d }
exact s (suc n) d = record { minus = s; num = suc n; den = d }

abbrev add_exact : Exact → Exact → Exact
add_exact x y =
    let a = x.num * y.den in
    let b = y.num * x.den in
    let d = x.den * y.den in
    if eqb x.minus y.minus
    then exact x.minus (a + b) d
    else if ltb a b
    then exact y.minus (b - a) d
    else exact (ltb b a && x.minus) (a - b) d

abbrev lt_exact : Exact → Exact → Bool
lt_exact x y =
    let a = x.num * y.den in
    let b = y.num * x.den in
    if x.minus
    then (if y.minus then ltb b a else ltb 0 (a + b))
    else (if y.minus then false else ltb a b)

abbrev eq_exact : Exact → Exact → Bool
eq_exact x y =
    let a = x.num * y.den in
    let b = y.num * x.den in
    ltb 0 (x.num + x.den) && ltb 0 (y.num + y.den) && (a == b) && (eqb x.minus y.minus || a == 0)

abbrev round_exact : Exact → Exact
round_exact x = record x {
  num = if x.den == 0 then x.num else (2 * x.num + x.den) / (2 * x.den);
  den = unit_den x.den;
}

abbrev to_int64_exact : Exact → ℤ
to_int64_exact x =
    if x.den == 0
    then negsuc (2 ^ 63 - 1)
    else let q = x.num / x.den in wrap (if x.minus then sub_ℕ 0 q else pos q)

instance abbrev pub exact_float : Float64 Exact
exact_float = record {
  decimal = λ n k. exact false n (10 ^ k);
  of_int = elim [ pos n ↦ exact false n 1 | negsuc n ↦ exact true (suc n) 1 ];
  to_int64 = to_int64_exact;
  round = round_exact;
  neg = λ x. record x { minus = not x.minus };
  add = add_exact;
  sub = λ x y. add_exact x (record y { minus = not y.minus });
  mul = λ x y. exact (not (eqb x.minus y.minus)) (x.num * y.num) (x.den * y.den);
  div = λ x y. exact (not (eqb x.minus y.minus)) (x.num * y.den) (x.den * y.num);
  lt = lt_exact;
  eq = eq_exact;
}

zero_div_exact :
    (n : ℕ)
    → 0 < n
    → exact_float.div (exact_float.of_int (pos 0)) (exact_float.of_int (pos n))
      ≡ exact_float.of_int (pos 0)
zero_div_exact zero h = elim h [ ]
zero_div_exact (suc n) h = rw one-mul

one_mul_exact :
    (z : ℤ)
    → exact_float.mul (exact_float.decimal 1 0) (exact_float.of_int z) ≡ exact_float.of_int z
one_mul_exact (pos zero) = refl
one_mul_exact (pos (suc n)) = rw (one-mul, mul-one)
one_mul_exact (negsuc n) = ground arith

div_one_exact :
    (z : ℤ)
    → exact_float.div (exact_float.of_int z) (exact_float.decimal 1 0) ≡ exact_float.of_int z
div_one_exact (pos zero) = refl
div_one_exact (pos (suc n)) = ground arith
div_one_exact (negsuc n) = ground arith

round-of_int_exact : (z : ℤ) → exact_float.round (exact_float.of_int z) ≡ exact_float.of_int z
round-of_int_exact (pos zero) = refl
round-of_int_exact (pos (suc n)) = ground arith
round-of_int_exact (negsuc n) = ground arith

to_int64-of_int_exact :
    (z : ℤ) → nat_abs z ≤ 2 ^ 53 → exact_float.to_int64 (exact_float.of_int z) ≡ z
unfolding wrap
to_int64-of_int_exact (pos zero) h = refl
to_int64-of_int_exact (pos (suc n)) h = ground arith
to_int64-of_int_exact (negsuc n) h = ground arith

of_int-neg_exact :
    (z : ℤ) → z ≢ pos 0 → exact_float.of_int (neg_ℤ z) ≡ exact_float.neg (exact_float.of_int z)
unfolding neg_ℤ
of_int-neg_exact (pos zero) h = absurd (h refl)
of_int-neg_exact (pos (suc n)) h = ground arith
of_int-neg_exact (negsuc n) h = ground arith

exact-not : (s : Bool) (n d : ℕ) → exact (not s) n d ≡ exact_float.neg (exact s n d)
exact-not s zero d = refl
exact-not s (suc n) d = refl

not-eqb : (s t : Bool) → not (eqb (not s) t) ≡ not (not (eqb s t))
not-eqb true true = refl
not-eqb true false = refl
not-eqb false true = refl
not-eqb false false = refl

neg_div_exact :
    (x y : Exact) → exact_float.div (exact_float.neg x) y ≡ exact_float.neg (exact_float.div x y)
neg_div_exact x y =
    rw not-eqb (exact-not (not (eqb x.minus y.minus)) (x.num * y.den) (x.den * y.num))

neg_mul_exact :
    (x y : Exact) → exact_float.mul (exact_float.neg x) y ≡ exact_float.neg (exact_float.mul x y)
neg_mul_exact x y =
    rw not-eqb (exact-not (not (eqb x.minus y.minus)) (x.num * y.num) (x.den * y.den))

to_int64-neg_exact :
    (x : Exact)
    → FitsInt64 x
    → exact_float.to_int64 (exact_float.neg x) ≡ neg64 (exact_float.to_int64 x)
unfolding neg64 wrap neg_ℤ
to_int64-neg_exact x h = ground arith

lt_constant_exact :
    (m n : ℕ) → n ≤ m → exact_float.lt (exact_float.decimal m 0) (exact_float.decimal n 0) ≡ false
lt_constant_exact zero n h = ground arith
lt_constant_exact (suc m) n h = ground arith

lt_constant_less_exact :
    (m n : ℕ) → m < n → exact_float.lt (exact_float.decimal m 0) (exact_float.decimal n 0) ≡ true
lt_constant_less_exact zero zero h = elim h [ ]
lt_constant_less_exact zero (suc n) h = ground arith
lt_constant_less_exact (suc m) zero h = elim h [ ]
lt_constant_less_exact (suc m) (suc n) h = ground arith

eq_constant_exact :
    (n : ℕ) → exact_float.eq (exact_float.decimal n 0) (exact_float.decimal n 0) ≡ true
eq_constant_exact zero = refl
eq_constant_exact (suc n) = ground arith

trichotomy_exact :
    (x : Exact) (n : ℕ)
    → eq_exact x x ≡ true
    → lt_exact x (exact_float.decimal n 0) ≡ false
    → lt_exact (exact_float.decimal n 0) x ≡ false
    → eq_exact x (exact_float.decimal n 0) ≡ true
trichotomy_exact x zero e h k = ground arith
trichotomy_exact x (suc n) e h k = ground arith

lt_nan_exact :
    (x y : Exact) → eq_exact x x ≡ false → (lt_exact x y ≡ false) × (lt_exact y x ≡ false)
lt_nan_exact x y h =
    let no_num : x.num ≡ 0 = ground arith in
    let no_den : x.den ≡ 0 = ground arith in
    let zero_num : x.num * y.den ≡ 0 = rw no_num (zero-mul y.den) in
    let zero_den : y.num * x.den ≡ 0 = rw no_den (mul-zero y.num) in (ground arith, ground arith)

exact_pos : (s : Bool) (n d : ℕ) → 0 < n → exact s n d ≡ record { minus = s; num = n; den = d }
exact_pos s zero d h = elim h [ ]
exact_pos s (suc n) d h = refl

half_of_millions_exact :
    (k : ℕ)
    → 2 * (k * 1_000_000) ≤ 2 ^ 53
    → exact_float.round (
        exact_float.mul (exact_float.decimal 5 1) (
          exact_float.div
            (exact_float.of_int (pos (2 * (k * 1_000_000))))
            (exact_float.decimal 1_000_000 0)))
      ≡ exact_float.of_int (pos k)
half_of_millions_exact zero h = refl
half_of_millions_exact (suc j) h =
    let n : ℕ = 2 * (suc j * 1_000_000) in
    rw
      (
        exact_pos false n 1 (omega arith),
        exact_pos false (n * 1) 1_000_000 (omega arith),
        exact_pos false (5 * (n * 1)) 10_000_000 (omega arith),
      )
      (ap (λ m. record { minus = false; num = m; den = 1 }) (omega arith))

pub Exact-IsFloat64 : IsFloat64 Exact
Exact-IsFloat64 = record {
  zero_div = zero_div_exact;
  zero_mul = λ n. ground arith;
  one_mul = one_mul_exact;
  div_one = div_one_exact;
  round-of_int = round-of_int_exact;
  to_int64-of_int = to_int64-of_int_exact;
  of_int-neg = of_int-neg_exact;
  neg_div = neg_div_exact;
  neg_mul = neg_mul_exact;
  round-neg = λ x. refl;
  to_int64-neg = to_int64-neg_exact;
  lt_constant = lt_constant_exact;
  lt_constant_less = lt_constant_less_exact;
  eq_constant = eq_constant_exact;
  trichotomy = trichotomy_exact;
  lt_nan = lt_nan_exact;
  half_of_millions = half_of_millions_exact;
}
