-- ===== src/Wire.antt =====
-- link/wire.go: the framing of discovery and measurement messages. A byte slice is a list of
-- numbers. Encoders answer `none` where the code panics on a message that is too large.
pub mod Bytes
pub mod Entries
pub mod Kept
pub mod Messages
use abletonlink_client_go.Base.{
  ℕ, zero, suc, ◌+◌, ◌*◌, ◌/◌, ◌%◌, ◌^◌, Bool, true, false, Option, none, some, List, [], ◌∷◌, ◌++◌,
  ltb, leb, ◌==◌, if◌then◌else◌, length, take, drop, get_or, ◌&&◌, not, ◌||◌,
}
use abletonlink_client_go.Base.Int.{ℤ}
use abletonlink_client_go.Base.Int64.{to_word, of_word}
use abletonlink_client_go.NodeId.{NodeId, eq_node_id}
use abletonlink_client_go.Clock.{Micros}

abbrev pub max_message_size : ℕ
max_message_size = 512

-- "_asdp_v\x01" and "_link_v\x01"
abbrev pub discovery_magic : List ℕ
discovery_magic = 0x5f ∷ 0x61 ∷ 0x73 ∷ 0x64 ∷ 0x70 ∷ 0x5f ∷ 0x76 ∷ 0x01 ∷ []

abbrev pub link_magic : List ℕ
link_magic = 0x5f ∷ 0x6c ∷ 0x69 ∷ 0x6e ∷ 0x6b ∷ 0x5f ∷ 0x76 ∷ 0x01 ∷ []

abbrev pub discovery_alive : ℕ
discovery_alive = 1

abbrev pub discovery_resp : ℕ
discovery_resp = 2

abbrev pub discovery_bye_bye : ℕ
discovery_bye_bye = 3

abbrev pub discovery_ttl : ℕ
discovery_ttl = 5

abbrev pub discovery_group_id : ℕ
discovery_group_id = 0

abbrev pub link_ping : ℕ
link_ping = 1

abbrev pub link_pong : ℕ
link_pong = 2

abbrev pub key_timeline : ℕ
key_timeline = 0x746d6c6e

abbrev pub key_session : ℕ
key_session = 0x73657373

abbrev pub key_start_stop : ℕ
key_start_stop = 0x73747374

abbrev pub key_meep_v4 : ℕ
key_meep_v4 = 0x6d657034

abbrev pub key_host_time : ℕ
key_host_time = 0x5f5f6874

abbrev pub key_ghost_time : ℕ
key_ghost_time = 0x5f5f6774

abbrev pub key_prev_ghost_time : ℕ
key_prev_ghost_time = 0x5f706774

pub data WireError : Type 0 where
  truncated_header entry_too_large bad_micros_size bad_entry : WireError
  bad_start_stop_size bad_timeline_size bad_micros_per_beat : WireError
  bad_session_size bad_endpoint_size : WireError

-- A Go (value, error) pair. `stuck` is no outcome of the code: the fuel of the loop ran out.
pub data Result {ℓ} (A : Type ℓ) : Type ℓ where
  ok : A → Result A
  err : WireError → Result A
  stuck : Result A

-- encoding/binary: the low `k` bytes of a word, most significant first, and the way back.
unfoldable pub be_bytes : ℕ → ℕ → List ℕ
be_bytes zero w = []
be_bytes (suc k) w = w / 256 ^ k % 256 ∷ be_bytes k w

unfoldable pub be_value_from : ℕ → List ℕ → ℕ
be_value_from acc [] = acc
be_value_from acc (b ∷ bs) = be_value_from (acc * 256 + b) bs

unfoldable pub be_value : List ℕ → ℕ
unfolding be_value_from
be_value bs = be_value_from 0 bs

pub record Entry : Type 0 where
  pub key : ℕ
  pub value : List ℕ

unfoldable pub encode_entries : List ℕ → List Entry → List ℕ
encode_entries buf [] = buf
encode_entries buf (e ∷ es) =
    encode_entries
      (if length e.value == 0
        then buf
        else buf ++ (be_bytes 4 e.key ++ (be_bytes 4 (length e.value % 2 ^ 32) ++ e.value)))
      es

abbrev pub and_then {ℓ κ} : {A : Type ℓ} {B : Type κ} → Result A → (A → Result B) → Result B
and_then (ok a) f = f a
and_then (err e) f = err e
and_then stuck f = stuck

module _ {ℓ} {S : Type ℓ} (handler : S → ℕ → List ℕ → Result S) where
  -- One round of the loop of parseEntries, with the rest of the loop as `next`. The state is what
  -- the handler's closure has assigned so far.
  unfoldable pub parse_entry : (List ℕ → S → Result S) → List ℕ → S → Result S
  parse_entry next payload s =
      let key = be_value (take 4 payload) in
      let size = be_value (take 4 (drop 4 payload)) in
      let body = drop 8 payload in
      if ltb (length payload) 8
      then err truncated_header
      else if ltb (length body) size
      then err entry_too_large
      else and_then (handler s key (take size body)) (next (drop size body))

  unfoldable pub parse_entries_loop : ℕ → List ℕ → S → Result S
  parse_entries_loop fuel [] s = ok s
  parse_entries_loop zero (b ∷ bs) s = stuck
  parse_entries_loop (suc fuel) (b ∷ bs) s = parse_entry (parse_entries_loop fuel) (b ∷ bs) s

  -- Every round consumes at least the eight bytes of a header.
  unfoldable pub parse_entries : List ℕ → S → Result S
  unfolding parse_entries_loop
  parse_entries payload s = parse_entries_loop (length payload) payload s

abbrev pub bounded_message : List ℕ → Option (List ℕ)
bounded_message buf = if leb max_message_size (length buf) then none else some buf

unfoldable pub encode_discovery_message : ℕ → ℕ → ℕ → NodeId → List Entry → Option (List ℕ)
encode_discovery_message msg_type ttl group_id id entries =
    bounded_message
      (encode_entries (discovery_magic ++ (msg_type ∷ ttl ∷ (be_bytes 2 group_id ++ id))) entries)

pub record DiscoveryHeader : Type 0 where
  pub msg_type : ℕ
  pub ttl : ℕ
  pub group_id : ℕ
  pub node_id : NodeId

unfoldable pub parse_discovery_message : List ℕ → Option (DiscoveryHeader × List ℕ)
parse_discovery_message bytes =
    let p = drop 8 bytes in
    if ltb (length bytes) 20 || not (eq_node_id (take 8 bytes) discovery_magic)
    then none
    else some (
      record {
        msg_type = get_or p 0 0;
        ttl = get_or p 1 0;
        group_id = be_value (take 2 (drop 2 p));
        node_id = take 8 (drop 4 p);
      },
      drop 12 p,
    )

unfoldable pub encode_link_message : ℕ → List Entry → Option (List ℕ)
encode_link_message msg_type entries =
    bounded_message (encode_entries (link_magic ++ (msg_type ∷ [])) entries)

unfoldable pub parse_link_message : List ℕ → Option (ℕ × List ℕ)
parse_link_message bytes =
    if ltb (length bytes) 9 || not (eq_node_id (take 8 bytes) link_magic)
    then none
    else some (get_or bytes 8 0, drop 9 bytes)

unfoldable pub encode_micros_entry : ℕ → Micros → Entry
encode_micros_entry key t = record { key = key; value = be_bytes 8 (to_word t) }

unfoldable pub decode_micros : List ℕ → Result Micros
decode_micros value =
    if length value == 8 then ok (of_word (be_value value)) else err bad_micros_size
