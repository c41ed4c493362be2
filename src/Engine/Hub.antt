-- ===== src/Engine/Hub.antt =====
-- The timerHub of link/engine.go: single-shot timers. What reaches the engine's timer channel is an
-- event of the loop.
use abletonlink_client_go.Base.{
  ℕ, ◌+◌, ◌%◌, ◌^◌, ◌≤◌, ◌<◌, ◌≡◌, ◌≢◌, refl, Option, none, some, List, [], ◌∷◌, arith,
  if◌then◌else◌, ◌==◌, All,
}
use abletonlink_client_go.Base.Int.{ℤ}
use abletonlink_client_go.Base.Map.{nat_key, find, delete, insert, find-insert, find-delete}
use abletonlink_client_go.Engine.State.{TimerHub, Callback}

-- The id that the next `after` returns; seq is a uint64.
unfoldable pub next_id : TimerHub → ℕ
next_id h = (h.seq + 1) % 2 ^ 64

unfoldable pub after : ℤ → Callback → TimerHub → TimerHub
unfolding next_id
after d fn h = record {
  seq = next_id h;
  tim = insert (next_id h) d h.tim;
  cbs = insert (next_id h) fn h.cbs;
}

unfoldable pub cancel : ℕ → TimerHub → TimerHub
cancel id h = record h { tim = delete id h.tim; cbs = delete id h.cbs }

-- What `fire` finds: the hub without the timer, and the callback to run.
unfoldable pub fire : ℕ → TimerHub → TimerHub × Option Callback
unfolding cancel
fire id h = elim (find id h.cbs) [ none ↦ (h, none) | some cb ↦ (cancel id h, some cb) ]

unfoldable pub delete_each : List (ℕ × ℤ) → List (ℕ × Callback) → List (ℕ × Callback)
delete_each [] cbs = cbs
delete_each ((id, d) ∷ tim) cbs = delete_each tim (delete id cbs)

unfoldable pub stop_all : TimerHub → TimerHub
unfolding delete_each
stop_all h = record h { tim = []; cbs = delete_each h.tim h.cbs }

-- Every pending callback has an id that was handed out before.
abbrev pub HasOldIds : TimerHub → Type 0
HasOldIds h = All (λ c. c.0 ≤ h.seq) h.cbs

old_ids-none : (n k : ℕ) (m : List (ℕ × Callback)) → All (λ c. c.0 ≤ n) m → n < k → find k m ≡ none
unfolding find
old_ids-none n k [] a h = refl
old_ids-none n k ((j, v) ∷ m) a h = ground (arith, old_ids-none n k m a.1 h)

All-mono : (n k : ℕ) (m : List (ℕ × Callback)) → n ≤ k → All (λ c. c.0 ≤ n) m → All (λ c. c.0 ≤ k) m
All-mono n k [] h a = tt
All-mono n k (c ∷ m) h a = (omega arith, All-mono n k m h a.1)

insert-All :
    (n k : ℕ) (v : Callback) (m : List (ℕ × Callback))
    → n ≤ k
    → All (λ c. c.0 ≤ n) m
    → All (λ c. c.0 ≤ k) (insert k v m)
unfolding insert
insert-All n k v [] h a = (omega arith, tt)
insert-All n k v ((j, w) ∷ m) h a = ground (arith, insert-All n k v m h a.1, All-mono n k m)

-- Short of a wrap of seq, a new timer has an id of its own: its callback is found under that id, every
-- other id keeps its callback, and the pending ids stay handed out ones.
pub after_fresh :
    (h : TimerHub) (d : ℤ) (fn : Callback)
    → HasOldIds h
    → h.seq + 1 < 2 ^ 64
    → (find (next_id h) h.cbs ≡ none)
      × ((id : ℕ)
          → find id (after d fn h).cbs ≡ (if next_id h == id then some fn else find id h.cbs))
      × HasOldIds (after d fn h)
unfolding after next_id
after_fresh h d fn old room = (
  old_ids-none h.seq (next_id h) h.cbs old (omega arith),
  λ id. find-insert (next_id h) id fn h.cbs,
  insert-All h.seq (next_id h) fn h.cbs (omega arith) old,
)

-- Firing a timer yields its callback once: a second firing of the id, or a firing after a cancel, yields
-- none, and the other timers fire as before.
pub fire_once :
    (h : TimerHub) (id : ℕ)
    → ((fire id h).1 ≡ find id h.cbs)
      × ((fire id (fire id h).0).1 ≡ none)
      × ((fire id (cancel id h)).1 ≡ none)
      × ((j : ℕ) → j ≢ id → (fire j (fire id h).0).1 ≡ (fire j h).1)
unfolding fire cancel
fire_once h id = (
  ground arith,
  ground (arith, find-delete id id h.cbs),
  ground (arith, find-delete id id h.cbs),
  λ j ne. ground (arith, find-delete id j h.cbs),
)
