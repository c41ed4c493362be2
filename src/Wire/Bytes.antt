-- ===== src/Wire/Bytes.antt =====
-- Big-endian words of link/wire.go: what is appended is read back.
use abletonlink_client_go.Base.{
  ℕ, zero, suc, ◌+◌, ◌*◌, ◌/◌, ◌%◌, ◌^◌, ◌<◌, ◌≡◌, refl, ap, sym, ◌∙◌, arith, length, All,
}
use native.Mathlib.Nat.{pow-suc, div-div-eq-div-mul, div-one, div-eq_of_lt}
use abletonlink_client_go.Base.Int.{ℤ}
use abletonlink_client_go.Base.Int64.{IsI64, to_word, of_word-to_word, to_word-lt}
use abletonlink_client_go.Wire.{
  be_bytes, be_value_from, be_value, ok, encode_micros_entry, decode_micros,
}

pub length-be_bytes : (k w : ℕ) → length (be_bytes k w) ≡ k
unfolding be_bytes
length-be_bytes zero w = refl
length-be_bytes (suc k) w = ap suc (length-be_bytes k w)

be_bytes-All : (k w : ℕ) → All (λ b. b < 256) (be_bytes k w)
unfolding be_bytes
be_bytes-All zero w = tt
be_bytes-All (suc k) w = (omega arith, be_bytes-All k w)

high_part : (k w : ℕ) → w / 256 ^ suc k * 256 + w / 256 ^ k % 256 ≡ w / 256 ^ k
high_part k w = rw (pow-suc 256 k, ← div-div-eq-div-mul w (256 ^ k) 256) (omega arith)

-- Reading goes on from the part of the word above the bytes that are left.
value_from-be_bytes : (k w : ℕ) → be_value_from (w / 256 ^ k) (be_bytes k w) ≡ w
unfolding be_bytes be_value_from
value_from-be_bytes zero w = div-one w
value_from-be_bytes (suc k) w =
    ap (λ t. be_value_from t (be_bytes k w)) (high_part k w) ∙ value_from-be_bytes k w

-- A word below 256^k comes back from its k bytes.
pub be_value-be_bytes : (k w : ℕ) → w < 256 ^ k → be_value (be_bytes k w) ≡ w
unfolding be_value
be_value-be_bytes k w h =
    ap (λ t. be_value_from t (be_bytes k w)) (sym (div-eq_of_lt h)) ∙ value_from-be_bytes k w

-- A time in the range of int64 comes back from the value of the entry that carries it.
pub decode_micros-encode :
    (key : ℕ) (t : ℤ) → IsI64 t → decode_micros (encode_micros_entry key t).value ≡ ok t
unfolding decode_micros encode_micros_entry
decode_micros-encode key t h = rw (
  length-be_bytes 8 (to_word t),
  be_value-be_bytes 8 (to_word t) (to_word-lt t),
  of_word-to_word t h,
)
