-- ===== src/NodeId.antt =====
-- link/nodeid.go: 8-byte identifiers of nodes and sessions, as lists of eight bytes. The random
-- source is an input of the operations that draw an identifier.
pub mod Order
pub mod Text
use abletonlink_client_go.Base.{
  ℕ, ◌<◌, ◌≡◌, Bool, true, false, ◌&&◌, List, [], ◌∷◌, ltb, ◌==◌, if◌then◌else◌, length, All,
}
use abletonlink_client_go.Base.Int.{ℤ, pos, negsuc}

abbrev pub NodeId : Type 0
NodeId = List ℕ

-- What the array type [8]byte says of its values.
abbrev pub IsNodeId : NodeId → Type 0
IsNodeId n = (length n ≡ 8) × All (λ b. b < 256) n

abbrev pub zero_node_id : NodeId
zero_node_id = 0 ∷ 0 ∷ 0 ∷ 0 ∷ 0 ∷ 0 ∷ 0 ∷ 0 ∷ []

-- Go's `==` on two arrays of one length.
unfoldable pub eq_node_id : NodeId → NodeId → Bool
eq_node_id [] [] = true
eq_node_id [] (y ∷ ys) = false
eq_node_id (x ∷ xs) [] = false
eq_node_id (x ∷ xs) (y ∷ ys) = x == y && eq_node_id xs ys

-- The loop of `compare` from one index on.
unfoldable pub compare_node_id : NodeId → NodeId → ℤ
compare_node_id [] o = pos 0
compare_node_id (x ∷ xs) [] = pos 0
compare_node_id (x ∷ xs) (y ∷ ys) =
    let rest = compare_node_id xs ys in
    if x == y then rest else (if ltb x y then negsuc 0 else pos 1)
