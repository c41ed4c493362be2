-- ===== src/NodeId/Text.antt =====
-- The text form of identifiers (link/nodeid.go): String and parseNodeId, with the two functions of
-- encoding/hex that they use. Texts are lists of character codes.
use abletonlink_client_go.Base.{
  ℕ, ◌+◌, ◌-◌, ◌*◌, ◌/◌, ◌%◌, ◌<◌, ◌≡◌, refl, arith, Option, none, some, List, [], ◌∷◌, ◌&&◌, ◌>>=◌,
  ltb, leb, ◌==◌, length, All, if◌then◌else◌,
}
use abletonlink_client_go.NodeId.{NodeId, IsNodeId}

abbrev pub hex_digit : ℕ → ℕ
hex_digit v = if ltb v 10 then b'0' + v else b'a' + (v - 10)

unfoldable pub encode_hex : List ℕ → List ℕ
encode_hex [] = []
encode_hex (b ∷ bs) = hex_digit (b / 16) ∷ hex_digit (b % 16) ∷ encode_hex bs

abbrev pub digit_value : ℕ → Option ℕ
digit_value c =
    if leb b'0' c && leb c b'9'
    then some (c - b'0')
    else if leb b'a' c && leb c b'f'
    then some (c - b'a' + 10)
    else if leb b'A' c && leb c b'F'
    then some (c - b'A' + 10)
    else none

-- `none` is an error: a character that is no digit, or an odd length.
unfoldable pub decode_hex : List ℕ → Option (List ℕ)
decode_hex [] = some []
decode_hex (c ∷ []) = none
decode_hex (c ∷ d ∷ cs) =
    let rest = decode_hex cs in
    do high ← digit_value c; low ← digit_value d; bytes ← rest; some ((high * 16 + low) ∷ bytes)

unfoldable pub node_id_string : NodeId → List ℕ
unfolding encode_hex
node_id_string n = b'0' ∷ b'x' ∷ encode_hex n

unfoldable pub parse_node_id : List ℕ → Option NodeId
unfolding decode_hex
parse_node_id s = do b ← decode_hex s; if length b == 8 then some b else none

digit_value-hex_digit : (v : ℕ) → v < 16 → digit_value (hex_digit v) ≡ some v
digit_value-hex_digit v h = ground arith

decode_hex-encode_hex : (bs : List ℕ) → All (λ b. b < 256) bs → decode_hex (encode_hex bs) ≡ some bs
unfolding decode_hex encode_hex
decode_hex-encode_hex [] h = refl
decode_hex-encode_hex (b ∷ bs) h =
    rw
      (
        digit_value-hex_digit (b / 16) (omega arith),
        digit_value-hex_digit (b % 16) (omega arith),
        decode_hex-encode_hex bs h.1,
      )
      (ground arith)

-- The hexadecimal digits of an identifier parse to it; its String, which puts 0x before them, is
-- refused.
pub parse_node_id-encode_hex :
    (n : NodeId)
    → IsNodeId n
    → (parse_node_id (encode_hex n) ≡ some n) × (parse_node_id (node_id_string n) ≡ none)
unfolding parse_node_id node_id_string
parse_node_id-encode_hex n h = (rw (decode_hex-encode_hex n h.1, h.0) refl, refused (encode_hex n))
  where
    refused :
        (s : List ℕ)
        → (decode_hex (b'0' ∷ b'x' ∷ s) >>= λ b. if length b == 8 then some b else none) ≡ none
    refused s = refl
