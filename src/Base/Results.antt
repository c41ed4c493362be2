-- ===== src/Base/Results.antt =====
-- Postconditions of steps that may panic.
use mathlib.Core.Path.{◌≡◌, ◌∙◌, sym, refl}
use mathlib.Core.Bool.{Bool, true, false, ◌&&◌}
use mathlib.Core.Option.{Option, none, some}
use abletonlink_client_go.Base.Tests.{if◌then◌else◌, ◌>>=◌}

-- P holds of the result, if there is one.
pub data OnResult {ℓ κ} {A : Type ℓ} (P : A → Type κ) : Option A → Type (ℓ ⊔ κ) where
  panics : OnResult P none
  returns : {a : A} → P a → OnResult P (some a)

pub OnResult-bind {ℓ κ μ} :
    {A : Type ℓ} {B : Type κ} (P : B → Type μ) (m : Option A) (f : A → Option B)
    → ((a : A) → OnResult P (f a))
    → OnResult P (m >>= f)
OnResult-bind P none f h = panics
OnResult-bind P (some a) f h = h a

pub OnResult-then {ℓ κ μ ν} :
    {A : Type ℓ} {B : Type κ} (P : A → Type μ) (Q : B → Type ν) (m : Option A) (f : A → Option B)
    → OnResult P m
    → ((a : A) → P a → OnResult Q (f a))
    → OnResult Q (m >>= f)
OnResult-then P Q m f panics k = panics
OnResult-then P Q m f (returns p) k = k _ p

pub OnResult-both {ℓ} :
    {A : Type ℓ} {P Q : A → Type 0} {m : Option A}
    → OnResult P m
    → OnResult Q m
    → OnResult (λ a. P a × Q a) m
OnResult-both panics q = panics
OnResult-both (returns p) (returns q) = returns (p, q)

pub OnResult-some {ℓ κ} :
    {A : Type ℓ} {P : A → Type κ} {o : Option A} {a : A} → OnResult P o → o ≡ some a → P a
OnResult-some panics e = cc
OnResult-some {a} (returns {a = b} p) e = let same : a ≡ b = cc in rw same p

pub OnResult-if {ℓ κ} :
    {A : Type ℓ} (P : A → Type κ) (b : Bool) (x y : Option A)
    → OnResult P x
    → OnResult P y
    → OnResult P (if b then x else y)
OnResult-if P true x y hx hy = hx
OnResult-if P false x y hx hy = hy

abbrev pub is_some {ℓ} : {A : Type ℓ} → Option A → Bool
is_some none = false
is_some (some a) = true

-- What holds of both branches holds of the conditional.
pub of_branches {ℓ κ} :
    {A : Type ℓ} (P : A → Type κ) (b : Bool) (x y : A) → P x → P y → P (if b then x else y)
of_branches P true x y hx hy = hx
of_branches P false x y hx hy = hy

-- The same, with the test known in each branch.
pub of_either {ℓ κ} :
    {A : Type ℓ} (P : A → Type κ) (b : Bool) (x y : A)
    → (b ≡ true → P x)
    → (b ≡ false → P y)
    → P (if b then x else y)
of_either P true x y hx hy = hx refl
of_either P false x y hx hy = hy refl

-- There is a result, and P holds of it.
abbrev pub Returns {ℓ} : {A : Type ℓ} → (A → Type 0) → Option A → Type 0
Returns P none = ⊥
Returns P (some a) = P a

pub Returns-bind {ℓ κ} :
    {A : Type ℓ} {B : Type κ} (P : A → Type 0) (Q : B → Type 0) (m : Option A) (f : A → Option B)
    → Returns P m
    → ((a : A) → P a → Returns Q (f a))
    → Returns Q (m >>= f)
Returns-bind P Q none f h k = elim h [ ]
Returns-bind P Q (some a) f h k = k a h

pub Returns-implies {ℓ} :
    {A : Type ℓ} (P Q : A → Type 0) (m : Option A)
    → Returns P m
    → ((a : A) → P a → Returns Q (some a))
    → Returns Q m
Returns-implies P Q none h k = elim h [ ]
Returns-implies P Q (some a) h k = k a h

pub Returns-both {ℓ} :
    {A : Type ℓ} (P Q : A → Type 0) {m : Option A}
    → Returns P m
    → OnResult Q m
    → Returns (λ a. P a × Q a) m
Returns-both P Q h panics = elim h [ ]
Returns-both P Q h (returns q) = (h, q)

pub Returns-OnResult {ℓ} :
    {A : Type ℓ} {P : A → Type 0} {m : Option A} → OnResult P m → is_some m ≡ true → Returns P m
Returns-OnResult panics e = cc
Returns-OnResult (returns p) e = p

-- A chain returns if and only if its parts do.
module _ {ℓ κ} {A : Type ℓ} {B : Type κ} where
  pub is_some-bind :
      (b : Bool) (m : Option A) (f : A → Option B)
      → is_some m ≡ b
      → ((a : A) → is_some (f a) ≡ b)
      → is_some (m >>= f) ≡ b
  is_some-bind b none f hm hf = hm
  is_some-bind b (some a) f hm hf = hf a

  -- The rest may use that the first part has returned.
  pub is_some-bind_after :
      (b : Bool) (m : Option A) (f : A → Option B)
      → is_some m ≡ b
      → ((a : A) → b ≡ true → is_some (f a) ≡ b)
      → is_some (m >>= f) ≡ b
  is_some-bind_after b none f hm hf = hm
  is_some-bind_after b (some a) f hm hf = hf a (sym hm)

  pub is_some-bind_total :
      (b : Bool) (m : Option A) (f : A → Option B)
      → is_some m ≡ true
      → ((a : A) → is_some (f a) ≡ b)
      → is_some (m >>= f) ≡ b
  is_some-bind_total b none f hm hf = cc
  is_some-bind_total b (some a) f hm hf = hf a

  pub is_some-bind_last :
      (b : Bool) (m : Option A) (f : A → Option B)
      → is_some m ≡ b
      → ((a : A) → is_some (f a) ≡ true)
      → is_some (m >>= f) ≡ b
  is_some-bind_last b none f hm hf = hm
  is_some-bind_last b (some a) f hm hf = hf a ∙ hm

pub is_some-if {ℓ} :
    {A : Type ℓ} (b c : Bool) (x y : Option A)
    → is_some x ≡ b
    → is_some y ≡ b
    → is_some (if c then x else y) ≡ b
is_some-if b true x y hx hy = hx
is_some-if b false x y hx hy = hy

pub is_some-bind_and {ℓ κ} :
    {A : Type ℓ} {B : Type κ} (b c : Bool) (m : Option A) (f : A → Option B)
    → is_some m ≡ b
    → ((a : A) → is_some (f a) ≡ c)
    → is_some (m >>= f) ≡ b && c
is_some-bind_and true c none f hm hf = cc
is_some-bind_and true c (some a) f hm hf = hf a
is_some-bind_and false c none f hm hf = refl
is_some-bind_and false c (some a) f hm hf = cc
