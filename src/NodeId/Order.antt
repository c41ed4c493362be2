-- ===== src/NodeId/Order.antt =====
-- The order of link/nodeid.go is a total order that agrees with equality.
use abletonlink_client_go.Base.{◌≡◌, ◌↔◌, ◌⊎◌, refl, arith, true, [], ◌∷◌, length, ==_refl}
use abletonlink_client_go.Base.Int.{pos, neg_ℤ, ltb_ℤ}
use abletonlink_client_go.NodeId.{NodeId, eq_node_id, compare_node_id}

pub eq_node_id_refl : (n : NodeId) → eq_node_id n n ≡ true
unfolding eq_node_id
eq_node_id_refl [] = refl
eq_node_id_refl (x ∷ xs) = rw (==_refl x) (eq_node_id_refl xs)

pub eq_node_id→eq : (n o : NodeId) → eq_node_id n o ≡ true → n ≡ o
unfolding eq_node_id
eq_node_id→eq [] [] h = refl
eq_node_id→eq [] (y ∷ ys) h = cc
eq_node_id→eq (x ∷ xs) [] h = cc
eq_node_id→eq (x ∷ xs) (y ∷ ys) h = ground (arith, eq_node_id→eq xs ys)

pub eq_node_id_comm : (n o : NodeId) → eq_node_id n o ≡ eq_node_id o n
unfolding eq_node_id
eq_node_id_comm [] [] = refl
eq_node_id_comm [] (y ∷ ys) = refl
eq_node_id_comm (x ∷ xs) [] = refl
eq_node_id_comm (x ∷ xs) (y ∷ ys) = ground (arith, eq_node_id_comm xs ys)

abbrev pub IsBelow : NodeId → NodeId → Type 0
IsBelow n o = ltb_ℤ (compare_node_id n o) (pos 0) ≡ true

swapped : (n o : NodeId) → compare_node_id n o ≡ neg_ℤ (compare_node_id o n)
unfolding compare_node_id neg_ℤ
swapped [] [] = refl
swapped [] (y ∷ ys) = refl
swapped (x ∷ xs) [] = refl
swapped (x ∷ xs) (y ∷ ys) = ground (arith, swapped xs ys)

zero_iff_eq : (n o : NodeId) → length n ≡ length o → compare_node_id n o ≡ pos 0 → n ≡ o
unfolding compare_node_id
zero_iff_eq [] [] e h = refl
zero_iff_eq [] (y ∷ ys) e h = absurd (omega arith)
zero_iff_eq (x ∷ xs) [] e h = absurd (omega arith)
zero_iff_eq (x ∷ xs) (y ∷ ys) e h = ground (arith, zero_iff_eq xs ys)

IsBelow-trans :
    (a b c : NodeId)
    → length a ≡ length b
    → length b ≡ length c
    → IsBelow a b
    → IsBelow b c
    → IsBelow a c
unfolding compare_node_id
IsBelow-trans [] b c e f h k = cc
IsBelow-trans (x ∷ xs) [] c e f h k = cc
IsBelow-trans (x ∷ xs) (y ∷ ys) [] e f h k = cc
IsBelow-trans (x ∷ xs) (y ∷ ys) (z ∷ zs) e f h k =
    ground (arith, IsBelow-trans xs ys zs (omega arith) (omega arith))

compare_self : (n : NodeId) → compare_node_id n n ≡ pos 0
unfolding compare_node_id
compare_self [] = refl
compare_self (x ∷ xs) = rw (==_refl x) (compare_self xs)

-- On identifiers of one length `compare` is a strict total order: exactly one of below, equal and
-- above holds, compare yields 0 only on equal ones, and below is transitive.
pub compare_node_id_total :
    (a b c : NodeId)
    → length a ≡ length b
    → length b ≡ length c
    → (IsBelow a b ⊎ (a ≡ b) ⊎ IsBelow b a)
      × (IsBelow a b → ¬ IsBelow b a)
      × ((compare_node_id a b ≡ pos 0) ↔ (a ≡ b))
      × (IsBelow a b → IsBelow b c → IsBelow a c)
unfolding neg_ℤ
compare_node_id_total a b c e f = (
  ground (arith, swapped b a, zero_iff_eq a b e),
  ground (arith, swapped b a),
  (zero_iff_eq a b e, λ same. rw same (compare_self b)),
  IsBelow-trans a b c e f,
)

pub eq_node_id_of_eq : (n o : NodeId) → n ≡ o → eq_node_id n o ≡ true
eq_node_id_of_eq n o e = rw e (eq_node_id_refl o)
