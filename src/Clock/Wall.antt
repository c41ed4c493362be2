-- ===== src/Clock/Wall.antt =====
-- link/clock.go: from microseconds to times and back. A time.Time is its reading in nanoseconds, of
-- which clockStart is one; a time.Duration is an int64.
use abletonlink_client_go.Base.{
  ℕ, ◌-◌, ◌*◌, ◌/◌, ◌^◌, ◌<◌, ◌≡◌, refl, ap, suc, arith, true, false, if◌then◌else◌,
}
use abletonlink_client_go.Base.Int.{ℤ, pos, negsuc, ◌+ℤ◌, ◌-ℤ◌, ◌*ℤ◌, ltb_ℤ, pos_part, nat_abs}
use abletonlink_client_go.Base.Int64.{mul64, wrap}
use abletonlink_client_go.Base.Int64.Laws.{mul64_pos}
use abletonlink_client_go.Clock.{Micros}

-- time.Time.Sub saturates.
abbrev pub saturated : ℤ → ℤ
saturated d =
    if ltb_ℤ (pos (2 ^ 63 - 1)) d
    then pos (2 ^ 63 - 1)
    else if ltb_ℤ d (negsuc (2 ^ 63 - 1))
    then negsuc (2 ^ 63 - 1)
    else d

unfoldable pub time_of_micros : ℤ → Micros → ℤ
time_of_micros clock_start m = clock_start +ℤ mul64 m (pos 1000)

-- The difference that is divided is not negative.
unfoldable pub micros_from_time : ℤ → ℤ → Micros
micros_from_time clock_start t =
    if ltb_ℤ t clock_start then pos 0 else pos (pos_part (saturated (t -ℤ clock_start)) / 1000)

not_before : (s : ℤ) (k : ℕ) → ltb_ℤ (s +ℤ pos k) s ≡ false
unfolding ◌+ℤ◌
not_before (pos n) k = ground arith
not_before (negsuc n) k = ground arith

before : (s : ℤ) (k : ℕ) → ltb_ℤ (s +ℤ negsuc k) s ≡ true
unfolding ◌+ℤ◌
before (pos n) k = ground arith
before (negsuc n) k = ground arith

elapsed : (s : ℤ) (k : ℕ) → (s +ℤ pos k) -ℤ s ≡ pos k
unfolding ◌+ℤ◌ ◌-ℤ◌
elapsed (pos n) k = ground arith
elapsed (negsuc n) k = ground arith

scaled_back :
    (n : ℕ) → suc n * 1000 < 2 ^ 63 → mul64 (negsuc n) (pos 1000) ≡ negsuc (suc n * 1000 - 1)
unfolding mul64 wrap ◌*ℤ◌
scaled_back n h = ground arith

unsaturated : (k : ℕ) → k < 2 ^ 63 → saturated (pos k) ≡ pos k
unsaturated k h = ground arith

-- A time of whole microseconds since the start, whose nanoseconds fit int64, comes back; a time
-- before the start comes back as 0.
pub micros_from_time-time_of_micros :
    (clock_start : ℤ) (m : Micros)
    → nat_abs m * 1000 < 2 ^ 63
    → micros_from_time clock_start (time_of_micros clock_start m) ≡ pos (pos_part m)
unfolding micros_from_time time_of_micros
micros_from_time-time_of_micros s (pos n) h =
    rw (mul64_pos n 1000 h, not_before s (n * 1000), elapsed s (n * 1000), unsaturated (n * 1000) h)
      (ap pos (omega arith))
micros_from_time-time_of_micros s (negsuc n) h =
    rw (scaled_back n h, before s (suc n * 1000 - 1)) refl
