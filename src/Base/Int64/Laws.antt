-- ===== src/Base/Int64/Laws.antt =====
-- Arithmetic of int64: exact where the result fits, and a group under wrapping addition.
use abletonlink_client_go.Base.{ℕ, suc, ◌+◌, ◌*◌, ◌/◌, ◌^◌, ◌<◌, ◌≡◌, arith, some}
use abletonlink_client_go.Base.Int.{ℤ, pos, ◌+ℤ◌, ◌-ℤ◌, ◌*ℤ◌, neg_ℤ}
use abletonlink_client_go.Base.Int64.{
  IsI64, wrap, add64, sub64, neg64, mul64, div64, wrap_of_IsI64, wrap-IsI64,
}

pub add64-fits : (a b : ℤ) → IsI64 (a +ℤ b) → add64 a b ≡ a +ℤ b
unfolding add64
add64-fits a b h = wrap_of_IsI64 _ h

pub sub64-fits : (a b : ℤ) → IsI64 (a -ℤ b) → sub64 a b ≡ a -ℤ b
unfolding sub64
sub64-fits a b h = wrap_of_IsI64 _ h

pub add64_pos : (m n : ℕ) → m + n < 2 ^ 63 → add64 (pos m) (pos n) ≡ pos (m + n)
unfolding add64 ◌+ℤ◌ wrap
add64_pos m n h = ground arith

pub mul64_pos : (m n : ℕ) → m * n < 2 ^ 63 → mul64 (pos m) (pos n) ≡ pos (m * n)
unfolding mul64 ◌*ℤ◌ wrap
mul64_pos m n h = ground arith

pub div64_pos : (m d : ℕ) → m < 2 ^ 63 → div64 (pos m) (pos (suc d)) ≡ some (pos (m / suc d))
unfolding div64 wrap
div64_pos m d h = ground arith

pub add64-IsI64 : (a b : ℤ) → IsI64 (add64 a b)
unfolding add64
add64-IsI64 a b = wrap-IsI64 _

-- Subtracting what was added gives the value back, also across an overflow.
pub add64-neg64 : (b m : ℤ) → IsI64 b → add64 (add64 b m) (neg64 m) ≡ b
unfolding add64 neg64 wrap ◌+ℤ◌ neg_ℤ
add64-neg64 b m h = ground arith

pub sub64_swap : (a b : ℤ) → sub64 a b ≡ neg64 (sub64 b a)
unfolding sub64 neg64 wrap ◌-ℤ◌ neg_ℤ
sub64_swap a b = ground arith
