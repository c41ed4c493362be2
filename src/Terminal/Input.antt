-- ===== src/Terminal/Input.antt =====
-- The tempo that is typed into the terminal client.
use abletonlink_client_go.Base.{
  ℕ, ◌≤◌, ◌≡◌, refl, arith, Bool, true, false, Option, List, [], ◌∷◌, ◌++◌, ◌&&◌, ltb, length,
  if◌then◌else◌, All, All-append, length-append,
}
use abletonlink_client_go.Base.Int.{ℤ}
use abletonlink_client_go.Float.{Float64}
use abletonlink_client_go.Engine.State.{Engine}
use abletonlink_client_go.Terminal.{
  Model, Message, window_size, tick_msg, update_msg, key, Key, quits, raises, lowers, plays,
  enables, narrows, widens, enters, erases, types, key_of, drop_last, is_digit, is_digit_text,
  refresh, new_model, press, update,
}

abbrev pub IsTyped : List ℕ → Type 0
IsTyped s = (length s ≤ 6) × All (λ c. is_digit c ≡ true) s

drop_last-IsTyped : (s : List ℕ) → IsTyped s → IsTyped (drop_last s)
unfolding drop_last
drop_last-IsTyped [] h = h
drop_last-IsTyped (c ∷ []) h = (omega arith, tt)
drop_last-IsTyped (c ∷ d ∷ s) (short, (digit, digits)) =
    let shorter = drop_length (d ∷ s) in (omega arith, (digit, drop_digits (d ∷ s) digits))
  where
    drop_length : (s : List ℕ) → length (drop_last s) ≤ length s
    drop_length [] = omega arith
    drop_length (c ∷ []) = omega arith
    drop_length (c ∷ d ∷ s) = let rest = drop_length (d ∷ s) in omega arith

    drop_digits :
        (s : List ℕ) → All (λ c. is_digit c ≡ true) s → All (λ c. is_digit c ≡ true) (drop_last s)
    drop_digits [] h = tt
    drop_digits (c ∷ []) h = tt
    drop_digits (c ∷ d ∷ s) (digit, digits) = (digit, drop_digits (d ∷ s) digits)

if-IsTyped :
    (p q : Bool) (s t : List ℕ)
    → (p ≡ true → q ≡ true → IsTyped s)
    → IsTyped t
    → IsTyped (if p && q then s else t)
if-IsTyped true true s t hs ht = hs refl refl
if-IsTyped true false s t hs ht = ht
if-IsTyped false q s t hs ht = ht

appended-IsTyped :
    (s t : List ℕ) → IsTyped t → IsTyped (if is_digit_text s && ltb (length t) 6 then t ++ s else t)
appended-IsTyped [] t h = h
appended-IsTyped (c ∷ d ∷ s) t h = h
appended-IsTyped (c ∷ []) t h =
    if-IsTyped (is_digit c) (ltb (length t) 6) (t ++ c ∷ []) t
      (λ digit room. (
        ground (arith, length-append t (c ∷ [])),
        All-append (λ c. is_digit c ≡ true) t (c ∷ []) h.1 (digit, tt),
      ))
      h

module _ {F : Type 0} ⦃fl : Float64 F⦄ (parse_float : List ℕ → Option F) (clock_start : ℤ) where
  -- The messages in turn, each with the state of the Link that it reads.
  unfoldable pub updates : List (Engine F × Message) → Model F → Model F
  unfolding update
  updates [] m = m
  updates ((lnk, x) ∷ xs) m = updates xs (update parse_float clock_start lnk x m).model

  press-IsTyped :
      (k : Key) (s : List ℕ) (at : ℤ) (m : Model F)
      → IsTyped m.input
      → IsTyped (press parse_float clock_start k s at m).model.input
  unfolding press
  press-IsTyped quits s at m h = h
  press-IsTyped raises s at m h = h
  press-IsTyped lowers s at m h = h
  press-IsTyped plays s at m h = h
  press-IsTyped enables s at m h = h
  press-IsTyped narrows s at m h = ground arith
  press-IsTyped widens s at m h = ground arith
  press-IsTyped enters s at m h = ground arith
  press-IsTyped erases s at m h = drop_last-IsTyped m.input h
  press-IsTyped types s at m h = appended-IsTyped s m.input h

  pub update-IsTyped :
      (lnk : Engine F) (x : Message) (m : Model F)
      → IsTyped m.input
      → IsTyped (update parse_float clock_start lnk x m).model.input
  unfolding update refresh
  update-IsTyped lnk (window_size w d) m h = h
  update-IsTyped lnk tick_msg m h = h
  update-IsTyped lnk update_msg m h = h
  update-IsTyped lnk (key s at) m h = press-IsTyped (key_of s) s at m h

  updates-from :
      (xs : List (Engine F × Message)) (m : Model F)
      → IsTyped m.input
      → IsTyped (updates xs m).input
  unfolding updates
  updates-from [] m h = h
  updates-from ((lnk, x) ∷ xs) m h = updates-from xs _ (update-IsTyped lnk x m h)

  -- After any messages the input buffer has at most six characters, each a digit or the decimal point.
  pub updates-IsTyped :
      (lnk : Engine F) (quantum : F) (xs : List (Engine F × Message))
      → IsTyped (updates xs (new_model lnk quantum)).input
  unfolding new_model refresh
  updates-IsTyped lnk quantum xs = updates-from xs (new_model lnk quantum) (omega arith, tt)
