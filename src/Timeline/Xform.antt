-- ===== src/Timeline/Xform.antt =====
-- The clock transform of link/ghostxform.go at slope 1, the slope that every transform of the
-- engine has.
use abletonlink_client_go.Base.{◌^◌, ◌≤◌, ◌≡◌, arith}
use abletonlink_client_go.Base.Int.{ℤ, nat_abs, ◌+ℤ◌, ◌-ℤ◌}
use abletonlink_client_go.Base.Int64.{IsI64, wrap, add64, sub64}
use abletonlink_client_go.Float.{Float64, IsFloat64}
use abletonlink_client_go.Clock.{llround-of_int}
use abletonlink_client_go.Timeline.{GhostXForm, host_to_ghost, ghost_to_host}

sub64-add64 : (t i : ℤ) → IsI64 t → sub64 (add64 t i) i ≡ t
unfolding add64 sub64 wrap ◌+ℤ◌ ◌-ℤ◌
sub64-add64 t i h = ground arith

add64-sub64 : (t i : ℤ) → IsI64 t → add64 (sub64 t i) i ≡ t
unfolding add64 sub64 wrap ◌+ℤ◌ ◌-ℤ◌
add64-sub64 t i h = ground arith

small_fits : (t : ℤ) → nat_abs t ≤ 2 ^ 53 → IsI64 t
small_fits t h = ground arith

module _ {F : Type 0} ⦃fl : Float64 F⦄ (laws : IsFloat64 F) where
  pub ghost_to_host-host_to_ghost :
      (i t g : ℤ)
      → nat_abs t ≤ 2 ^ 53
      → IsI64 g
      → nat_abs (sub64 g i) ≤ 2 ^ 53
      → let x : GhostXForm F = record { slope = fl.decimal 1 0; intercept = i } in
        (ghost_to_host x (host_to_ghost x t) ≡ t) × (host_to_ghost x (ghost_to_host x g) ≡ g)
  unfolding ghost_to_host host_to_ghost
  ghost_to_host-host_to_ghost i t g ht hg hd = (
    rw (
      laws.one_mul t,
      llround-of_int laws t ht,
      sub64-add64 t i (small_fits t ht),
      laws.div_one t,
      llround-of_int laws t ht,
    ),
    rw (
      laws.div_one (sub64 g i),
      llround-of_int laws (sub64 g i) hd,
      laws.one_mul (sub64 g i),
      llround-of_int laws (sub64 g i) hd,
      add64-sub64 g i hg,
    ),
  )
