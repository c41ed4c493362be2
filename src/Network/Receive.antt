-- ===== src/Network/Receive.antt =====
-- recvLoop of link/network.go: what the reads of a socket put into a bounded channel. A full channel
-- drops the packet.
use abletonlink_client_go.Base.{
  ℕ, ◌≤◌, ◌<◌, ◌≡◌, refl, arith, Bool, true, false, List, [], ◌∷◌, ◌++◌, ◌||◌, ◌==◌, ltb, length,
  take, if◌then◌else◌, All, All-append, length-append,
}
use mathlib.Core.List.{append_assoc, append-nil}
use abletonlink_client_go.Base.Results.{of_branches}
use abletonlink_client_go.PeerState.{UdpAddr}
use abletonlink_client_go.Wire.{max_message_size}

pub record UdpPacket : Type 0 where
  pub from : UdpAddr
  pub bytes : List ℕ

-- The buffer of recvLoop.
abbrev pub buffer_size : ℕ
buffer_size = max_message_size

-- What ReadFromUDP meets: a datagram of any size, or the error that ends the loop.
pub data Read : Type 0 where
  datagram : UdpAddr → List ℕ → Read
  read_error : Read

-- What happens at the channel: a read of the socket, or the consumer takes a packet.
pub data Turn : Type 0 where
  arrives : Read → Turn
  takes : Turn

pub record Channel : Type 0 where
  pub capacity : ℕ
  pub queue : List UdpPacket
  pub taken : List UdpPacket
  pub is_running : Bool

-- ReadFromUDP fills the buffer with the first bytes of the datagram; the rest is lost.
abbrev pub read_from_udp : List ℕ → List ℕ
read_from_udp bytes = take buffer_size bytes

-- What one pass of the loop does with the bytes that were read.
unfoldable pub forward : UdpAddr → List ℕ → Channel → Channel
forward from bs c =
    if (length bs == 0) || ltb max_message_size (length bs)
    then c
    else if ltb (length c.queue) c.capacity
    then record c { queue = c.queue ++ record { from = from; bytes = bs } ∷ [] }
    else c

-- One pass of the loop.
unfoldable pub receive : Read → Channel → Channel
unfolding forward
receive read_error c = record c { is_running = false }
receive (datagram from bytes) c = forward from (read_from_udp bytes) c

abbrev take_next : List UdpPacket → Channel → Channel
take_next [] c = c
take_next (p ∷ ps) c = record c { queue = ps; taken = c.taken ++ p ∷ [] }

unfoldable pub turn : Turn → Channel → Channel
unfolding receive
turn (arrives r) c = if c.is_running then receive r c else c
turn takes c = take_next c.queue c

unfoldable pub turns : List Turn → Channel → Channel
unfolding turn
turns [] c = c
turns (t ∷ ts) c = turns ts (turn t c)

abbrev pub IsMessage : UdpPacket → Type 0
IsMessage p = (0 < length p.bytes) × (length p.bytes ≤ max_message_size)

pub record IsBounded (c : Channel) : Type 0 where
  pub within : length c.queue ≤ c.capacity
  pub queued : All IsMessage c.queue
  pub received : All IsMessage c.taken

taken_next :
    (q : List UdpPacket) (c : Channel) → c.queue ≡ q → IsBounded c → IsBounded (take_next q c)
taken_next [] c e h = h
taken_next (p ∷ ps) c e h =
    let fits : length (p ∷ ps) ≤ c.capacity = rw e at (h.within) in
    let good : All IsMessage (p ∷ ps) = rw e at (h.queued) in
    record {
      within = omega arith;
      queued = good.1;
      received = All-append IsMessage c.taken (p ∷ []) h.received (good.0, tt);
    }

forward-IsBounded :
    (from : UdpAddr) (bs : List ℕ) (c : Channel) → IsBounded c → IsBounded (forward from bs c)
unfolding forward
forward-IsBounded from bs c h = ground (
  arith,
  length-append c.queue (record { from = from; bytes = bs } ∷ []),
  All-append IsMessage c.queue (record { from = from; bytes = bs } ∷ []) h.queued,
)

turn-IsBounded : (t : Turn) (c : Channel) → IsBounded c → IsBounded (turn t c)
unfolding turn receive
turn-IsBounded (arrives read_error) c h = ground arith
turn-IsBounded (arrives (datagram from bytes)) c h =
    of_branches IsBounded c.is_running _ _ (forward-IsBounded from (read_from_udp bytes) c h) h
turn-IsBounded takes c h = taken_next c.queue c refl h

-- xs is ys with elements left out.
pub data IsSubsequence {ℓ} {A : Type ℓ} : List A → List A → Type ℓ where
  nil : IsSubsequence [] []
  keep : {x : A} {xs ys : List A} → IsSubsequence xs ys → IsSubsequence (x ∷ xs) (x ∷ ys)
  skip : {y : A} {xs ys : List A} → IsSubsequence xs ys → IsSubsequence xs (y ∷ ys)

module _ {ℓ} {A : Type ℓ} where
  pub IsSubsequence-snoc :
      {xs ys : List A} (z : A) → IsSubsequence xs ys → IsSubsequence (xs ++ z ∷ []) (ys ++ z ∷ [])
  IsSubsequence-snoc z nil = keep nil
  IsSubsequence-snoc z (keep s) = keep (IsSubsequence-snoc z s)
  IsSubsequence-snoc z (skip s) = skip (IsSubsequence-snoc z s)

  pub IsSubsequence-more :
      {xs ys : List A} (z : A) → IsSubsequence xs ys → IsSubsequence xs (ys ++ z ∷ [])
  IsSubsequence-more z nil = skip nil
  IsSubsequence-more z (keep s) = keep (IsSubsequence-more z s)
  IsSubsequence-more z (skip s) = skip (IsSubsequence-more z s)

-- The datagrams that arrive in these turns, each cut after its 512th byte.
abbrev pub arrived : List Turn → List UdpPacket
arrived [] = []
arrived (arrives (datagram from bytes) ∷ ts) =
    record { from = from; bytes = take 512 bytes } ∷ arrived ts
arrived (arrives read_error ∷ ts) = arrived ts
arrived (takes ∷ ts) = arrived ts

arrived_cons : (t : Turn) (ts : List Turn) → arrived (t ∷ ts) ≡ arrived (t ∷ []) ++ arrived ts
arrived_cons (arrives (datagram from bytes)) ts = refl
arrived_cons (arrives read_error) ts = refl
arrived_cons takes ts = refl

-- What was taken and what waits.
abbrev pub passed : Channel → List UdpPacket
passed c = c.taken ++ c.queue

passed-take_next :
    (q : List UdpPacket) (c : Channel) → c.queue ≡ q → passed (take_next q c) ≡ passed c
passed-take_next [] c e = refl
passed-take_next (p ∷ ps) c e = rw e (append_assoc c.taken (p ∷ []) ps)

forward-IsSubsequence :
    (from : UdpAddr) (bs : List ℕ) (c : Channel) (ps : List UdpPacket)
    → IsSubsequence (passed c) ps
    → IsSubsequence (passed (forward from bs c)) (ps ++ record { from = from; bytes = bs } ∷ [])
unfolding forward
forward-IsSubsequence from bs c ps h =
    let p : UdpPacket = record { from = from; bytes = bs } in
    let dropped = IsSubsequence-more p h in
    let queued : IsSubsequence (c.taken ++ (c.queue ++ p ∷ [])) (ps ++ p ∷ []) =
      rw (← append_assoc c.taken c.queue (p ∷ [])) (IsSubsequence-snoc p h) in
    ground (arith, dropped, queued)

turn-IsSubsequence :
    (t : Turn) (c : Channel) (ps : List UdpPacket)
    → IsSubsequence (passed c) ps
    → IsSubsequence (passed (turn t c)) (ps ++ arrived (t ∷ []))
unfolding turn receive
turn-IsSubsequence (arrives read_error) c ps h = rw (append-nil ps) (ground arith)
turn-IsSubsequence (arrives (datagram from bytes)) c ps h =
    let bs = read_from_udp bytes in
    of_branches (λ d. IsSubsequence (passed d) (ps ++ record { from = from; bytes = bs } ∷ []))
      c.is_running _ _ (forward-IsSubsequence from bs c ps h)
      (IsSubsequence-more (record { from = from; bytes = bs }) h)
turn-IsSubsequence takes c ps h = rw (append-nil ps, passed-take_next c.queue c refl) h

turns-IsSubsequence :
    (ts : List Turn) (c : Channel) (ps : List UdpPacket)
    → IsSubsequence (passed c) ps
    → IsSubsequence (passed (turns ts c)) (ps ++ arrived ts)
unfolding turns
turns-IsSubsequence [] c ps h = rw append-nil h
turns-IsSubsequence (t ∷ ts) c ps h = rw (arrived_cons t ts) (
    rw (← append_assoc ps (arrived (t ∷ [])) (arrived ts))
      (turns-IsSubsequence ts (turn t c) _ (turn-IsSubsequence t c ps h)))

turns-IsBounded : (ts : List Turn) (c : Channel) → IsBounded c → IsBounded (turns ts c)
unfolding turns
turns-IsBounded [] c h = h
turns-IsBounded (t ∷ ts) c h = turns-IsBounded ts (turn t c) (turn-IsBounded t c h)

abbrev pub fresh_channel : ℕ → Channel
fresh_channel n = record { capacity = n; queue = []; taken = []; is_running = true }

-- However reads and the consumer take turns, the channel never holds more packets than its capacity,
-- every packet has between 1 and 512 bytes, and what the consumer has taken, followed by what waits,
-- is a subsequence of the datagrams that arrived, each cut after its 512th byte: packets are dropped,
-- and longer ones are cut, but none is reordered, duplicated or made up.
pub turns_deliver :
    (ts : List Turn) (n : ℕ)
    → let c = turns ts (fresh_channel n) in
      IsBounded c × IsSubsequence (c.taken ++ c.queue) (arrived ts)
turns_deliver ts n = (
  turns-IsBounded ts (fresh_channel n)
      (record { within = omega arith; queued = tt; received = tt }),
  turns-IsSubsequence ts (fresh_channel n) [] nil,
)
