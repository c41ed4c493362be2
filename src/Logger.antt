-- ===== src/Logger.antt =====
-- link/logger.go: the loggers, over a printf of the application's. A format is a list of character
-- codes, the arguments are passed along as they are, and what a printf does is a change of the
-- application's state.
use abletonlink_client_go.Base.{ℕ, Bool, Option, none, some, List, [], ◌∷◌, ◌++◌, if◌then◌else◌}

-- Debugf, Infof and Warnf.
pub data Level : Type 0 where
  debug info warn : Level

pub record PrintfLogger (A S : Type 0) : Type 0 where
  pub printf : Option (List ℕ → A → S → S)
  pub is_debug : Bool

-- "link: debug: ", "link: info: " and "link: warn: "
unfoldable pub prefix : Level → List ℕ
prefix debug =
    b'l' ∷ b'i' ∷ b'n' ∷ b'k' ∷ b':' ∷ b' ' ∷ b'd' ∷ b'e' ∷ b'b' ∷ b'u' ∷ b'g' ∷ b':' ∷ b' ' ∷ []
prefix info = b'l' ∷ b'i' ∷ b'n' ∷ b'k' ∷ b':' ∷ b' ' ∷ b'i' ∷ b'n' ∷ b'f' ∷ b'o' ∷ b':' ∷ b' ' ∷ []
prefix warn = b'l' ∷ b'i' ∷ b'n' ∷ b'k' ∷ b':' ∷ b' ' ∷ b'w' ∷ b'a' ∷ b'r' ∷ b'n' ∷ b':' ∷ b' ' ∷ []

-- With the new line, character 10.
abbrev line : Level → List ℕ → List ℕ
line level format = prefix level ++ (format ++ 10 ∷ [])

module _ {A S : Type 0} where
  -- nopLogger
  unfoldable pub log_nothing : Level → List ℕ → A → S → S
  log_nothing level format args s = s

  abbrev print_line : PrintfLogger A S → Level → List ℕ → A → S → S
  print_line l level format args s = elim l.printf [
    | none ↦ s
    | some printf ↦ printf (line level format) args s
  ]

  unfoldable pub log : PrintfLogger A S → Level → List ℕ → A → S → S
  unfolding prefix
  log l debug format args s = if l.is_debug then print_line l debug format args s else s
  log l info format args s = print_line l info format args s
  log l warn format args s = print_line l warn format args s

  unfoldable pub log_all : PrintfLogger A S → List (Level × List ℕ × A) → S → S
  unfolding log
  log_all l [] s = s
  log_all l ((level, format, args) ∷ xs) s = log_all l xs (log l level format args s)
