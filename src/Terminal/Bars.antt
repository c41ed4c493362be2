-- ===== src/Terminal/Bars.antt =====
-- The figures of the view.
use abletonlink_client_go.Base.{
  ℕ, zero, suc, ◌+◌, ◌-◌, ◌<◌, ◌≡◌, refl, ap, ◌∙◌, dec_lt, ℕ_discrete, arith, true, false, List, [],
  ◌∷◌, ◌++◌, ltb, if◌then◌else◌,
}
use abletonlink_client_go.Base.Int.{ℤ, pos, ltb_ℤ}
use abletonlink_client_go.Base.Results.{is_some, is_some-bind, is_some-bind_last}
use abletonlink_client_go.Float.{Float64}
use abletonlink_client_go.Beats.{beats_from_float}
use abletonlink_client_go.Timeline.Panics.{is_nonzero}
use abletonlink_client_go.Engine.State.{Engine}
use abletonlink_client_go.Engine.Api.{beat_at_time, phase_at_time, queries-is_some}
use abletonlink_client_go.Terminal.{Model}
use abletonlink_client_go.Terminal.View.{
  view, figures, plain_line, dot, bullet, blank, fine_from, fine_bar, metro_from,
}

abbrev pub replicate {ℓ} : {A : Type ℓ} → ℕ → A → List A
replicate zero x = []
replicate (suc n) x = x ∷ replicate n x

abbrev pub min_of : ℕ → ℕ → ℕ
min_of a b = if ltb a b then a else b

fine_after : (p i n : ℕ) → p < i → fine_from (pos p) i n ≡ replicate n blank
unfolding fine_from
fine_after p i zero h = refl
fine_after p i (suc n) h = let rest = fine_after p (i + 1) n (omega arith) in grind arith

fine_around :
    (d p i n k : ℕ)
    → p ≡ i + d
    → k ≡ d + suc n
    → fine_from (pos p) i k ≡ replicate d dot ++ bullet ∷ replicate n blank
unfolding fine_from
fine_around d p i n zero at total = ground arith
fine_around zero p i n (suc k) at total =
    let same : k ≡ n = omega arith in
    let rest : fine_from (pos p) (i + 1) k ≡ replicate n blank =
      fine_after p (i + 1) k (omega arith) ∙ ap (λ j. replicate j blank) same in
    ground arith
fine_around (suc d) p i n (suc k) at total =
    let rest = fine_around d p (i + 1) n k (omega arith) (omega arith) in ground arith

clipped : (p : ℕ) → (if ltb_ℤ (pos p) (pos 32) then pos p else pos 31) ≡ pos (min_of p 31)
clipped p = elim (dec_lt p 31) [
  | yes h ↦ ground arith
  | no h ↦ elim (ℕ_discrete p 31) [ yes e ↦ rw e refl | no ne ↦ ground arith ]
]

metro_after : (p i n : ℕ) → p < i → metro_from (pos p) i n ≡ replicate n false
unfolding metro_from
metro_after p i zero h = refl
metro_after p i (suc n) h = let rest = metro_after p (i + 1) n (omega arith) in grind arith

min_total : (p : ℕ) → 32 ≡ min_of p 31 + suc (31 - min_of p 31)
min_total p = ground arith

metro_around :
    (d p i n k : ℕ)
    → p ≡ i + d
    → k ≡ d + suc n
    → metro_from (pos p) i k ≡ replicate d false ++ true ∷ replicate n false
unfolding metro_from
metro_around d p i n zero at total = ground arith
metro_around zero p i n (suc k) at total =
    let same : k ≡ n = omega arith in
    let rest : metro_from (pos p) (i + 1) k ≡ replicate n false =
      metro_after p (i + 1) k (omega arith) ∙ ap (λ j. replicate j false) same in
    ground arith
metro_around (suc d) p i n (suc k) at total =
    let rest = metro_around d p (i + 1) n k (omega arith) (omega arith) in ground arith

-- The row of markers for n beats has one for each beat, and only that of the current beat is filled.
pub metro_from-replicate :
    (p n : ℕ)
    → p < n
    → metro_from (pos p) 0 n ≡ replicate p false ++ true ∷ replicate (n - suc p) false
metro_from-replicate p n h = metro_around p p 0 (n - suc p) n (omega arith) (omega arith)

-- The bar for a position p is 32 cells: a dot for each of the first min(p, 31), the bullet, and blanks.
pub fine_bar-replicate :
    (p : ℕ)
    → let q = min_of p 31 in fine_bar (pos p) ≡ replicate q dot ++ bullet ∷ replicate (31 - q) blank
unfolding fine_bar
fine_bar-replicate p =
    let q = min_of p 31 in
    ap (λ z. fine_from z 0 32) (clipped p)
    ∙ fine_around q q 0 (31 - q) 32 (omega arith) (min_total p)

module _ {F : Type 0} ⦃fl : Float64 F⦄ (clock_start : ℤ) where
  pub plain_line-is_some :
      (lnk : Engine F) (now : ℤ) (quantum : F)
      → is_some (plain_line clock_start lnk now quantum) ≡ is_nonzero (beats_from_float quantum)
  unfolding plain_line
  plain_line-is_some lnk now quantum =
      let at = queries-is_some clock_start lnk.snap now (fl.decimal 0 0) quantum in
      is_some-bind_last _ (phase_at_time clock_start lnk.snap now quantum) _ at.1 (λ p. refl)

  -- The view, and the line of the client without a terminal, can be drawn if and only if the quantum is
  -- not zero in micro-beats; else they panic.
  pub view-is_some :
      (lnk : Engine F) (now later : ℤ) (m : Model F)
      → let returns = is_nonzero (beats_from_float m.quantum) in
        (is_some (view clock_start lnk now later m) ≡ returns)
        × (is_some (plain_line clock_start lnk now m.quantum) ≡ returns)
  unfolding view figures
  view-is_some lnk now later m =
      let at = queries-is_some clock_start lnk.snap now (fl.decimal 0 0) m.quantum in
      let after = queries-is_some clock_start lnk.snap later (fl.decimal 0 0) m.quantum in
      (
        is_some-bind_last _ (figures clock_start lnk now later m) _
            (is_some-bind _ (beat_at_time clock_start lnk.snap now m.quantum) _ at.0 (λ b.
              is_some-bind_last _ (phase_at_time clock_start lnk.snap later m.quantum) _ after.1
                (λ p. refl)))
            (λ f. refl),
        plain_line-is_some lnk now m.quantum,
      )
