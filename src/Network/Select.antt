-- ===== src/Network/Select.antt =====
-- The choice of the discovery interface (selectInterface of link/network.go) against a description by
-- the list of usable interfaces.
use abletonlink_client_go.Base.{
  ℕ, ◌≡◌, refl, arith, Option, none, some, List, [], ◌∷◌, ◌&&◌, ◌==◌, length, if◌then◌else◌,
  Option-cases, inl, inr,
}
use abletonlink_client_go.Network.{
  Interface, Os, Outcome, done, failed, no_usable_interface, interface_not_found,
  cannot_list_interfaces, address_of, is_named, select_loop, select_interface,
}

-- The interface with its IPv4 address, if it can be used.
abbrev pub usable : List ℕ → Interface → Option (Interface × List ℕ)
usable name ifi = elim (address_of ifi) [
  | none ↦ none
  | some ip ↦ if is_named name ifi && ifi.is_up then some (ifi, ip) else none
]

-- Those of a list, in its order.
abbrev pub candidates : List ℕ → List Interface → List (Interface × List ℕ)
candidates name [] = []
candidates name (ifi ∷ ifaces) =
    let rest = candidates name ifaces in elim (usable name ifi) [ none ↦ rest | some c ↦ c ∷ rest ]

abbrev pub first_wired : List (Interface × List ℕ) → Option (Interface × List ℕ)
first_wired [] = none
first_wired (c ∷ cs) = let rest = first_wired cs in if c.0.is_loopback then rest else some c

abbrev pub head_or :
    Option (Interface × List ℕ) → List (Interface × List ℕ) → Option (Interface × List ℕ)
head_or (some c) cs = some c
head_or none [] = none
head_or none (c ∷ cs) = some c

-- The first usable interface that is no loopback, else the fallback, else the first usable one.
abbrev pub preferred :
    List ℕ → Option (Interface × List ℕ) → List (Interface × List ℕ) → Outcome (Interface × List ℕ)
preferred name fallback cs = elim (first_wired cs) [
  | some c ↦ done c
  | none ↦ elim (head_or fallback cs) [
    | some c ↦ done c
    | none ↦ failed (if length name == 0 then no_usable_interface else interface_not_found name)
  ]
]

select_loop-preferred :
    (name : List ℕ) (fallback : Option (Interface × List ℕ)) (ifaces : List Interface)
    → select_loop name fallback ifaces ≡ preferred name fallback (candidates name ifaces)
unfolding select_loop
select_loop-preferred name none [] = refl
select_loop-preferred name (some f) [] = refl
select_loop-preferred name none (ifi ∷ ifaces) = elim (Option-cases (address_of ifi)) [
  | inl missing ↦ ground (arith, select_loop-preferred name none ifaces)
  | inr (ip, known) ↦ ground (
    arith,
    select_loop-preferred name none ifaces,
    select_loop-preferred name (some (ifi, ip)) ifaces,
  )
]
select_loop-preferred name (some f) (ifi ∷ ifaces) =
    ground (arith, select_loop-preferred name (some f) ifaces)

-- selectInterface returns the first usable interface that is no loopback, with its first IPv4 address;
-- without one, the first usable interface; without any, an error that names the interface if one was
-- asked for. An interface is usable if it is up, has an IPv4 address and bears the name, if one is
-- given.
pub select_interface-preferred :
    (os : Os) (name : List ℕ)
    → select_interface os name ≡ elim os.interfaces [
      | none ↦ failed cannot_list_interfaces
      | some ifaces ↦ preferred name none (candidates name ifaces)
    ]
unfolding select_interface
select_interface-preferred os name = elim (Option-cases os.interfaces) [
  | inl missing ↦ ground arith
  | inr (ifaces, known) ↦ ground (arith, select_loop-preferred name none ifaces)
]
