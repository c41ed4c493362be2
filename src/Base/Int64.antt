-- ===== src/Base/Int64.antt =====
-- Go's int64: an integer between -2^63 and 2^63 - 1. Every operation wraps its exact result.
pub mod Laws
use Prim.Native.Nat.{ℕ, zero, suc, ◌-◌, ◌/◌, ◌%◌, ◌^◌, ◌≤◌, ◌<◌}
use mathlib.Core.Path.{◌≡◌, refl}
use mathlib.Core.Option.{Option, none, some}
use native.Mathlib.Omega.{arith}
use abletonlink_client_go.Base.Tests.{ltb, if◌then◌else◌}
use abletonlink_client_go.Base.Int.{
  ℤ, pos, negsuc, pos_part, neg_part, nat_abs, sub_ℕ, ◌+ℤ◌, ◌-ℤ◌, ◌*ℤ◌, neg_ℤ, ltb_ℤ,
}

abbrev pub IsI64 : ℤ → Type 0
IsI64 z = (pos_part z < 2 ^ 63) × (neg_part z ≤ 2 ^ 63)

-- uint64(z), the bit pattern of an integer modulo 2^64.
unfoldable pub to_word : ℤ → ℕ
to_word (pos n) = n % 2 ^ 64
to_word (negsuc n) = 2 ^ 64 - 1 - n % 2 ^ 64

-- int64(w), the integer that a 64-bit pattern stands for.
unfoldable pub of_word : ℕ → ℤ
of_word w = if ltb w (2 ^ 63) then pos w else negsuc (2 ^ 64 - 1 - w)

unfoldable pub wrap : ℤ → ℤ
unfolding to_word of_word
wrap z = of_word (to_word z)

pub wrap-IsI64 : (z : ℤ) → IsI64 (wrap z)
unfolding wrap
wrap-IsI64 z = ground arith

pub wrap_of_IsI64 : (z : ℤ) → IsI64 z → wrap z ≡ z
unfolding wrap
wrap_of_IsI64 z h = ground arith

pub to_word-lt : (z : ℤ) → to_word z < 2 ^ 64
unfolding to_word
to_word-lt z = ground arith

pub of_word-to_word : (z : ℤ) → IsI64 z → of_word (to_word z) ≡ z
unfolding of_word to_word
of_word-to_word z h = ground arith

pub of_word-IsI64 : (w : ℕ) → w < 2 ^ 64 → IsI64 (of_word w)
unfolding of_word
of_word-IsI64 w h = ground arith

unfoldable pub add64 : ℤ → ℤ → ℤ
add64 a b = wrap (a +ℤ b)

unfoldable pub sub64 : ℤ → ℤ → ℤ
sub64 a b = wrap (a -ℤ b)

unfoldable pub neg64 : ℤ → ℤ
neg64 a = wrap (neg_ℤ a)

unfoldable pub mul64 : ℤ → ℤ → ℤ
mul64 a b = wrap (a *ℤ b)

-- The quotient and the remainder round towards zero; by zero they panic.
abbrev quot_ℤ : ℤ → ℕ → ℕ → ℤ
quot_ℤ a n d = if ltb_ℤ a (pos 0) then sub_ℕ 0 (n / d) else pos (n / d)

unfoldable pub div64 : ℤ → ℤ → Option ℤ
div64 a (pos zero) = none
div64 a (pos (suc d)) = some (wrap (quot_ℤ a (nat_abs a) (suc d)))
div64 a (negsuc d) = some (wrap (neg_ℤ (quot_ℤ a (nat_abs a) (suc d))))

abbrev rem_ℤ : ℤ → ℕ → ℤ
rem_ℤ (pos n) d = pos (n % d)
rem_ℤ (negsuc n) d = sub_ℕ 0 (suc n % d)

unfoldable pub rem64 : ℤ → ℤ → Option ℤ
rem64 a (pos zero) = none
rem64 a (pos (suc d)) = some (rem_ℤ a (suc d))
rem64 a (negsuc d) = some (rem_ℤ a (suc d))

minus_seven_by_four : div64 (negsuc 6) (pos 4) ≡ some (negsuc 0)
unfolding div64 wrap
minus_seven_by_four = refl

minus_seven_mod_four : rem64 (negsuc 6) (pos 4) ≡ some (negsuc 2)
unfolding rem64
minus_seven_mod_four = refl
