-- ===== src/Wire/Entries.antt =====
-- The loop of parseEntries against the list of entries.
use abletonlink_client_go.Base.{
  ℕ, zero, suc, ◌+◌, ◌%◌, take_of_length, drop_of_length, ◌^◌, ◌≤◌, ◌<◌, ◌≡◌, ◌≢◌, refl, ap, sym,
  ◌∙◌, arith, List, [], ◌∷◌, ◌++◌, length, take, drop, All, length-append, take-append, drop-append,
  length-drop-le, ltb_of_le, Bool-cases, inl, inr, ltb, if◌then◌else◌, ◌==◌, false,
}
use mathlib.Core.Path.{fun_ext}
use mathlib.Core.List.{append_assoc, append-nil}
use abletonlink_client_go.Wire.{
  Result, ok, err, stuck, Entry, be_bytes, be_value, encode_entries, parse_entry,
  parse_entries_loop, parse_entries, and_then,
}
use abletonlink_client_go.Wire.Bytes.{length-be_bytes, be_value-be_bytes}

and_then-ne-stuck {ℓ} :
    {S : Type ℓ} (m : Result S) (f : S → Result S)
    → m ≢ stuck
    → ((t : S) → f t ≢ stuck)
    → and_then m f ≢ stuck
and_then-ne-stuck (ok a) f h k = k a
and_then-ne-stuck (err e) f h k = λ e. cc
and_then-ne-stuck stuck f h k = λ e. h e

module _ {ℓ} {S : Type ℓ} (handler : S → ℕ → List ℕ → Result S) where
  -- What the entries of a payload do to the state, one after another, without any bytes.
  abbrev pub handle_all : List Entry → S → Result S
  handle_all [] s = ok s
  handle_all (e ∷ es) s =
      if length e.value == 0
      then handle_all es s
      else and_then (handler s e.key e.value) (handle_all es)

  parse_entry-ne-stuck :
      (next : List ℕ → S → Result S) (payload : List ℕ) (s : S)
      → ((t : S) (k : ℕ) (v : List ℕ) → handler t k v ≢ stuck)
      → ((n : ℕ) (t : S) → next (drop n (drop 8 payload)) t ≢ stuck)
      → parse_entry handler next payload s ≢ stuck
  unfolding parse_entry
  parse_entry-ne-stuck next payload s total go =
      let size = be_value (take 4 (drop 4 payload)) in
      elim (Bool-cases (ltb (length payload) 8)) [
        | inl short ↦ rw short (λ e. cc)
        | inr long ↦ rw long (elim (Bool-cases (ltb (length (drop 8 payload)) size)) [
          | inl big ↦ rw big (λ e. cc)
          | inr fits ↦ rw fits (and_then-ne-stuck _ _ (total s _ _) (go size))
        ])
      ]

  parse_entries_loop-ne-stuck :
      (fuel : ℕ) (payload : List ℕ) (s : S)
      → ((t : S) (k : ℕ) (v : List ℕ) → handler t k v ≢ stuck)
      → length payload ≤ fuel
      → parse_entries_loop handler fuel payload s ≢ stuck
  unfolding parse_entries_loop
  parse_entries_loop-ne-stuck fuel [] s total h = λ e. cc
  parse_entries_loop-ne-stuck zero (b ∷ bs) s total h = absurd (omega arith)
  parse_entries_loop-ne-stuck (suc fuel) (b ∷ bs) s total h =
      parse_entry-ne-stuck (parse_entries_loop handler fuel) (b ∷ bs) s total λ n t.
        parse_entries_loop-ne-stuck fuel (drop n (drop 7 bs)) t total
          (omega (arith, length-drop-le n (drop 7 bs), length-drop-le 7 bs))

  -- Whatever the payload, the loop of parseEntries ends by its own test or by an error within the
  -- fuel that it has, provided that the handler never runs out of fuel itself.
  pub parse_entries-ne-stuck :
      (payload : List ℕ) (s : S)
      → ((t : S) (k : ℕ) (v : List ℕ) → handler t k v ≢ stuck)
      → parse_entries handler payload s ≢ stuck
  unfolding parse_entries
  parse_entries-ne-stuck payload s total =
      parse_entries_loop-ne-stuck (length payload) payload s total (omega arith)

abbrev pub entry_bytes : Entry → List ℕ
entry_bytes e =
    if length e.value == 0
    then []
    else be_bytes 4 e.key ++ (be_bytes 4 (length e.value % 2 ^ 32) ++ e.value)

abbrev pub payload_bytes : List Entry → List ℕ
payload_bytes [] = []
payload_bytes (e ∷ es) = entry_bytes e ++ payload_bytes es

pub encode_entries-append :
    (buf : List ℕ) (es : List Entry) → encode_entries buf es ≡ buf ++ payload_bytes es
unfolding encode_entries
encode_entries-append buf [] = sym (append-nil buf)
encode_entries-append buf (e ∷ es) = elim (Bool-cases (length e.value == 0)) [
  | inl empty ↦ rw empty (encode_entries-append buf es)
  | inr full ↦ rw full (
      encode_entries-append
        (buf ++ (be_bytes 4 e.key ++ (be_bytes 4 (length e.value % 2 ^ 32) ++ e.value))) es
      ∙ append_assoc buf _ _)
]

abbrev pub IsEncodable : Entry → Type 0
IsEncodable e = (e.key < 2 ^ 32) × (length e.value < 2 ^ 32)

drop_eight :
    (key size body : List ℕ)
    → length key ≡ 4
    → length size ≡ 4
    → drop 8 (key ++ (size ++ body)) ≡ body
drop_eight key size body hk hs =
    rw (← append_assoc key size body)
      (drop_of_length (key ++ size) body {n = 8} (omega (arith, length-append key size)))

full_length :
    (e : Entry) (es : List Entry)
    → (length e.value == 0) ≡ false
    → length (payload_bytes es) + 8 ≤ length (payload_bytes (e ∷ es))
full_length e es full = rw full (
    let a = be_bytes 4 e.key in
    let b = be_bytes 4 (length e.value % 2 ^ 32) in
    let tail = payload_bytes es in
    omega (
      arith,
      length-append (a ++ (b ++ e.value)) tail,
      length-append a (b ++ e.value),
      length-append b e.value,
      length-be_bytes 4 e.key,
      length-be_bytes 4 (length e.value % 2 ^ 32),
    ))

shorter :
    (e : Entry) (es : List Entry) (n : ℕ)
    → length (payload_bytes (e ∷ es)) ≤ n
    → length (payload_bytes es) ≤ n
shorter e es n h = omega (arith, length-append (entry_bytes e) (payload_bytes es))

regroup : (a b c d : List ℕ) → (a ++ (b ++ c)) ++ d ≡ a ++ (b ++ (c ++ d))
regroup a b c d = simp append_assoc

module _ {ℓ} {S : Type ℓ} (handler : S → ℕ → List ℕ → Result S) where
  -- The fields of an entry, given as bytes.
  parse_entry-fields :
      (next : List ℕ → S → Result S) (key size value rest : List ℕ) (s : S)
      → length key ≡ 4
      → length size ≡ 4
      → be_value size ≡ length value
      → parse_entry handler next (key ++ (size ++ (value ++ rest))) s
        ≡ and_then (handler s (be_value key) value) (next rest)
  unfolding parse_entry
  parse_entry-fields next key size value rest s hk hs e =
      let body = value ++ rest in
      let long : 8 ≤ length (key ++ (size ++ body)) =
        omega (arith, length-append key (size ++ body), length-append size body) in
      let fits : length value ≤ length body = omega (arith, length-append value rest) in
      rw (
        ltb_of_le _ 8 long,
        drop_eight key size body hk hs,
        drop_of_length key (size ++ body) hk,
        take_of_length size body hs,
        take_of_length key (size ++ body) hk,
        e,
        ltb_of_le (length body) (length value) fits,
        take-append value rest,
        drop-append value rest,
      )

  parse_entry-entry_bytes :
      (next : List ℕ → S → Result S) (e : Entry) (rest : List ℕ) (s : S)
      → IsEncodable e
      → (length e.value == 0) ≡ false
      → parse_entry handler next (entry_bytes e ++ rest) s
        ≡ and_then (handler s e.key e.value) (next rest)
  parse_entry-entry_bytes next e rest s (hk, hv) full = rw (
    full,
    regroup (be_bytes 4 e.key) (be_bytes 4 (length e.value % 2 ^ 32)) e.value rest,
    parse_entry-fields next (be_bytes 4 e.key) (be_bytes 4 (length e.value % 2 ^ 32)) e.value rest s
        (length-be_bytes 4 e.key) (length-be_bytes 4 (length e.value % 2 ^ 32))
        (be_value-be_bytes 4 (length e.value % 2 ^ 32) (omega arith) ∙ (omega arith)),
    be_value-be_bytes 4 e.key hk,
  )

  loop_nonempty :
      (fuel : ℕ) (payload : List ℕ) (s : S)
      → 0 < length payload
      → parse_entries_loop handler (suc fuel) payload s
        ≡ parse_entry handler (parse_entries_loop handler fuel) payload s
  unfolding parse_entries_loop
  loop_nonempty fuel [] s h = elim h [ ]
  loop_nonempty fuel (b ∷ bs) s h = refl

  handle_full :
      (e : Entry) (es : List Entry) (s : S)
      → (length e.value == 0) ≡ false
      → handle_all handler (e ∷ es) s ≡ and_then (handler s e.key e.value) (handle_all handler es)
  handle_full e es s full = rw full

  full_entry :
      (fuel : ℕ) (e : Entry) (es : List Entry) (s : S)
      → IsEncodable e
      → (length e.value == 0) ≡ false
      → length (payload_bytes (e ∷ es)) ≤ fuel
      → ((f : ℕ)
          → length (payload_bytes es) ≤ f
          → parse_entries_loop handler f (payload_bytes es) ≡ handle_all handler es)
      → parse_entries_loop handler fuel (payload_bytes (e ∷ es)) s ≡ handle_all handler (e ∷ es) s
  full_entry zero e es s fine full h ih = absurd (omega (arith, full_length e es full))
  full_entry (suc f) e es s fine full h ih =
      loop_nonempty f _ s (omega (arith, full_length e es full))
      ∙ parse_entry-entry_bytes (parse_entries_loop handler f) e (payload_bytes es) s fine full
      ∙ ap (and_then (handler s e.key e.value)) (ih f (omega (arith, full_length e es full)))
      ∙ sym (handle_full e es s full)

  loop_of_bytes :
      (fuel : ℕ) (es : List Entry) (s : S)
      → All IsEncodable es
      → length (payload_bytes es) ≤ fuel
      → parse_entries_loop handler fuel (payload_bytes es) s ≡ handle_all handler es s
  unfolding parse_entries_loop
  loop_of_bytes fuel [] s ok_all h = refl
  loop_of_bytes fuel (e ∷ es) s (fine, rest) h = elim (Bool-cases (length e.value == 0)) [
    | inl empty ↦ rw empty (loop_of_bytes fuel es s rest (shorter e es fuel h))
    | inr full ↦
        full_entry fuel e es s fine full h
          (λ f enough. fun_ext (λ t. loop_of_bytes f es t rest enough))
  ]

  -- When keys and lengths of values are below 2^32, parsing what encodeEntries wrote hands the handler the entries with a value, in order, and
  -- nothing else; it stops at the handler's first error.
  pub parse_entries-encode_entries :
      (es : List Entry) (s : S)
      → All IsEncodable es
      → parse_entries handler (encode_entries [] es) s ≡ handle_all handler es s
  unfolding parse_entries
  parse_entries-encode_entries es s fine =
      rw (encode_entries-append [] es) (loop_of_bytes _ es s fine (omega arith))
