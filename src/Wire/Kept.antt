-- ===== src/Wire/Kept.antt =====
-- What parseEntries of link/wire.go keeps of the state that its handler assigns to.
use abletonlink_client_go.Base.{
  ℕ, suc, zero, Bool, true, false, List, [], ◌∷◌, if◌then◌else◌, length, ltb, take, drop,
}
use abletonlink_client_go.Wire.{
  Result, ok, err, stuck, WireError, and_then, be_value, parse_entry, parse_entries_loop,
  parse_entries,
}

-- P holds of what was parsed, if parsing succeeds.
pub data OnOk {ℓ} {S : Type ℓ} (P : S → Type 0) : Result S → Type ℓ where
  parsed : {s : S} → P s → OnOk P (ok s)
  failed : {x : WireError} → OnOk P (err x)
  endless : OnOk P stuck

module _ {S : Type 0} (P : S → Type 0) where
  pub OnOk-if : (b : Bool) (x y : Result S) → OnOk P x → OnOk P y → OnOk P (if b then x else y)
  OnOk-if true x y hx hy = hx
  OnOk-if false x y hx hy = hy

  pub OnOk-and_then :
      {A : Type 0} (Q : A → Type 0) (m : Result A) (f : A → Result S)
      → OnOk Q m
      → ((a : A) → Q a → OnOk P (f a))
      → OnOk P (and_then m f)
  OnOk-and_then Q m f (parsed q) k = k _ q
  OnOk-and_then Q m f failed k = failed
  OnOk-and_then Q m f endless k = endless

  -- Nothing is needed of what was decoded before.
  pub OnOk-decoded :
      {A : Type 0} (m : Result A) (f : A → Result S)
      → ((a : A) → OnOk P (f a))
      → OnOk P (and_then m f)
  OnOk-decoded (ok a) f k = k a
  OnOk-decoded (err x) f k = failed
  OnOk-decoded stuck f k = endless

  module _ (handler : S → ℕ → List ℕ → Result S)
      (keeps : (s : S) (key : ℕ) (value : List ℕ) → P s → OnOk P (handler s key value)) where
    OnOk-parse_entry :
        (next : List ℕ → S → Result S) (payload : List ℕ) (s : S)
        → ((rest : List ℕ) (t : S) → P t → OnOk P (next rest t))
        → P s
        → OnOk P (parse_entry handler next payload s)
    unfolding parse_entry
    OnOk-parse_entry next payload s go p =
        let size = be_value (take 4 (drop 4 payload)) in
        let body = drop 8 payload in
        OnOk-if (ltb (length payload) 8) _ _ failed (
          OnOk-if (ltb (length body) size) _ _ failed (
            OnOk-and_then P (handler s (be_value (take 4 payload)) (take size body)) _
              (keeps s _ _ p) (λ t q. go _ t q)))

    OnOk-parse_entries_loop :
        (fuel : ℕ) (payload : List ℕ) (s : S)
        → P s
        → OnOk P (parse_entries_loop handler fuel payload s)
    unfolding parse_entries_loop
    OnOk-parse_entries_loop fuel [] s p = parsed p
    OnOk-parse_entries_loop zero (b ∷ bs) s p = endless
    OnOk-parse_entries_loop (suc fuel) (b ∷ bs) s p =
        OnOk-parse_entry (parse_entries_loop handler fuel) (b ∷ bs) s
          (λ rest t q. OnOk-parse_entries_loop fuel rest t q) p

    -- What holds at the start, and what the handler keeps, holds at the end.
    pub OnOk-parse_entries :
        (payload : List ℕ) (s : S) → P s → OnOk P (parse_entries handler payload s)
    unfolding parse_entries
    OnOk-parse_entries payload s p = OnOk-parse_entries_loop (length payload) payload s p
