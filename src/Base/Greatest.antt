-- ===== src/Base/Greatest.antt =====
-- Elements of a list with the greatest measure.
use mathlib.Core.Path.{◌≡◌}
use mathlib.Core.Logic.{◌⊎◌, inl, inr}
use mathlib.Core.List.{List, [], ◌∷◌}
use native.Mathlib.Omega.{arith}
use abletonlink_client_go.Base.Tests.{if◌then◌else◌, Bool-cases}
use abletonlink_client_go.Base.Lists.{All}
use abletonlink_client_go.Base.Int.{ℤ, ltb_ℤ, ◌≤ℤ◌}

-- x is in xs, and none of them has a greater key.
abbrev pub IsIn : {A : Type 0} → A → List A → Type 0
IsIn x [] = ⊥
IsIn x (y ∷ ys) = (x ≡ y) ⊎ IsIn x ys

module _ {A : Type 0} (measure : A → ℤ) where
  abbrev pub IsGreatest : A → List A → Type 0
  IsGreatest x xs = IsIn x xs × All (λ y. measure y ≤ℤ measure x) xs

  -- The later one of two.
  abbrev pub later : A → A → A
  later x y = if ltb_ℤ (measure x) (measure y) then y else x

  pub IsGreatest-later :
      (x y z : A) (ys : List A) → IsGreatest z (later x y ∷ ys) → IsGreatest z (x ∷ y ∷ ys)
  IsGreatest-later x y z ys h = elim (Bool-cases (ltb_ℤ (measure x) (measure y))) [
    | inl less ↦
        let (found, (bound, bounds)) : IsGreatest z (y ∷ ys) = rw less at h in
        (inr found, (ground arith, (bound, bounds)))
    | inr not_less ↦
        let (found, (bound, bounds)) : IsGreatest z (x ∷ ys) = rw not_less at h in
        (
          elim found [ inl here ↦ inl here | inr there ↦ inr (inr there) ],
          (bound, (ground arith, bounds)),
        )
  ]
