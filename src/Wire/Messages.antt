-- ===== src/Wire/Messages.antt =====
-- The message headers of link/wire.go: encoding and parsing.
use abletonlink_client_go.Base.{
  ℕ, ◌^◌, ◌<◌, ◌≡◌, ◌∙◌, arith, List, ◌∷◌, ◌++◌, some, length, length-append, take_of_length,
  drop_of_length, ltb_of_le,
}
use mathlib.Core.List.{append_assoc}
use abletonlink_client_go.NodeId.{NodeId, eq_node_id}
use abletonlink_client_go.Wire.{
  Entry, be_bytes, bounded_message, encode_discovery_message, parse_discovery_message,
  encode_link_message, parse_link_message, discovery_magic, link_magic,
}
use abletonlink_client_go.Wire.Bytes.{be_value-be_bytes}
use abletonlink_client_go.Wire.Entries.{payload_bytes, encode_entries-append}

bounded :
    (buf : List ℕ) {msg : List ℕ}
    → bounded_message buf ≡ some msg
    → (msg ≡ buf) × (length buf < 512)
bounded buf e = ground arith

abbrev discovery_bytes : ℕ → ℕ → ℕ → NodeId → List Entry → List ℕ
discovery_bytes t ttl group id es =
    discovery_magic ++ (t ∷ ttl ∷ (be_bytes 2 group ++ (id ++ payload_bytes es)))

parse_bytes :
    (t ttl group : ℕ) (id : NodeId) (es : List Entry)
    → group < 2 ^ 16
    → length id ≡ 8
    → parse_discovery_message (discovery_bytes t ttl group id es)
      ≡ some (record { msg_type = t; ttl = ttl; group_id = group; node_id = id }, payload_bytes es)
unfolding parse_discovery_message be_bytes eq_node_id
parse_bytes t ttl group id es hg hid = rw (
  ltb_of_le (length (discovery_bytes t ttl group id es)) 20
      (omega (arith, length-append id (payload_bytes es))),
  take_of_length id (payload_bytes es) hid,
  drop_of_length id (payload_bytes es) hid,
  be_value-be_bytes 2 group hg,
)

-- For an 8-byte node id and a 16-bit group, a message that encodeDiscoveryMessage returns is below
-- 512 bytes, and parsing it gives back the
-- header and exactly the bytes of the entries.
pub parse_discovery_message-encode :
    (t ttl group : ℕ) (id : NodeId) (es : List Entry) {msg : List ℕ}
    → group < 2 ^ 16
    → length id ≡ 8
    → encode_discovery_message t ttl group id es ≡ some msg
    → (length msg < 512)
      × (parse_discovery_message msg
          ≡ some (
            record { msg_type = t; ttl = ttl; group_id = group; node_id = id },
            payload_bytes es,
          ))
unfolding encode_discovery_message
parse_discovery_message-encode t ttl group id es {msg} hg hid e =
    let (same, small) = bounded _ e in
    let whole : msg ≡ discovery_bytes t ttl group id es =
      same ∙ encode_entries-append _ es ∙ simp append_assoc in
    (rw same small, rw whole (parse_bytes t ttl group id es hg hid))

parse_link_bytes :
    (t : ℕ) (es : List Entry)
    → parse_link_message (link_magic ++ (t ∷ payload_bytes es)) ≡ some (t, payload_bytes es)
unfolding parse_link_message eq_node_id
parse_link_bytes t es =
    rw (ltb_of_le (length (link_magic ++ (t ∷ payload_bytes es))) 9 (omega arith))

-- A measurement message that encodeLinkMessage returns is below 512 bytes, and parsing it gives back
-- its type and exactly the bytes of the entries.
pub parse_link_message-encode :
    (t : ℕ) (es : List Entry) {msg : List ℕ}
    → encode_link_message t es ≡ some msg
    → (length msg < 512) × (parse_link_message msg ≡ some (t, payload_bytes es))
unfolding encode_link_message
parse_link_message-encode t es {msg} e =
    let (same, small) = bounded _ e in
    let whole : msg ≡ link_magic ++ (t ∷ payload_bytes es) = same ∙ encode_entries-append _ es in
    (rw same small, rw whole (parse_link_bytes t es))
