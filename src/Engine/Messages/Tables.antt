-- ===== src/Engine/Messages/Tables.antt =====
-- What holds of all entries of the tables of link/engine.go, after each operation on them.
use abletonlink_client_go.Base.{
  ℕ, ◌≡◌, Bool, true, false, some, List, [], ◌∷◌, All, arith, Bool-cases, inl, inr, if◌then◌else◌,
}
use abletonlink_client_go.Base.Map.{Key, find, delete, insert, modify}
use abletonlink_client_go.NodeId.{NodeId}
use abletonlink_client_go.Timeline.{Timeline}
use abletonlink_client_go.Engine.State.{Engine, PeerEntry, node_id_key}
use abletonlink_client_go.Engine.Discovery.{live_peers}
use abletonlink_client_go.Engine.Client.{cache_timeline}
use abletonlink_client_go.Engine.Messages.Frame.{HasSizedSession, IsSized, IsSized-others}

module _ {A : Type 0} (P : A → Type 0) where
  -- An entry that is dropped or kept.
  All-drop : (b : Bool) (x : A) (xs : List A) → P x → All P xs → All P (if b then xs else x ∷ xs)
  All-drop true x xs p h = h
  All-drop false x xs p h = (p, h)

  -- An entry that is replaced or kept, with the rest of its list.
  All-replace :
      (b : Bool) (x y : A) (xs ys : List A)
      → P x
      → P y
      → All P xs
      → All P ys
      → All P (if b then x ∷ xs else y ∷ ys)
  All-replace true x y xs ys px py hx hy = (px, hx)
  All-replace false x y xs ys px py hx hy = (py, hy)

module _ {K V : Type 0} ⦃key : Key K⦄ (P : K × V → Type 0) where
  pub All-delete : (k : K) (m : List (K × V)) → All P m → All P (delete k m)
  unfolding delete
  All-delete k [] h = h
  All-delete k ((j, v) ∷ m) (p, h) = All-drop P (key.same j k) (j, v) _ p (All-delete k m h)

  pub All-insert : (k : K) (v : V) (m : List (K × V)) → P (k, v) → All P m → All P (insert k v m)
  unfolding insert
  All-insert k v [] q h = (q, h)
  All-insert k v ((j, w) ∷ m) q (p, h) =
      All-replace P (key.same j k) (k, v) (j, w) _ _ q p h (All-insert k v m q h)

  pub All-modify :
      (k : K) (f : V → V) (m : List (K × V))
      → ((j : K) (v : V) → P (j, v) → P (j, f v))
      → All P m
      → All P (modify k f m)
  unfolding modify
  All-modify k f [] q h = h
  All-modify k f ((j, v) ∷ m) q (p, h) =
      All-replace P (key.same j k) (j, f v) (j, v) _ _ (q j v p) p h (All-modify k f m q h)

  pub All-find : (k : K) (m : List (K × V)) {v : V} → find k m ≡ some v → All P m → P (k, v)
  unfolding find
  All-find k [] f h = cc
  All-find k ((j, w) ∷ m) {v} f (p, h) = elim (Bool-cases (key.same j k)) [
    | inl here ↦
        let entry : ◌≡◌ {A = K × V} (k, v) (j, w) =
          grind (arith, here, f, (key.same_iff j k).0 here) in
        rw entry p
    | inr further ↦ All-find k m (grind (arith, further, f)) h
  ]

module _ {F : Type 0} where
  pub All-live_peers :
      (now : ℕ) (ps : List (NodeId × PeerEntry F))
      → All HasSizedSession ps
      → All HasSizedSession (live_peers now ps)
  unfolding live_peers
  All-live_peers now [] h = h
  All-live_peers now ((id, p) ∷ ps) (q, h) = All-drop _ _ _ _ q (All-live_peers now ps h)

  pub All-cache_timeline :
      (sid : NodeId) (tl : Timeline F) (ps : List (NodeId × PeerEntry F))
      → All HasSizedSession ps
      → All HasSizedSession (cache_timeline sid tl ps)
  unfolding cache_timeline
  All-cache_timeline sid tl [] h = h
  All-cache_timeline sid tl ((id, p) ∷ ps) (q, h) =
      let rest = All-cache_timeline sid tl ps h in All-replace _ _ _ _ _ _ q q rest rest

  pub IsSized-delete_session :
      (sid : NodeId) (e : Engine F)
      → IsSized e
      → IsSized (record e { other_sessions = delete sid e.other_sessions })
  unfolding IsSized
  IsSized-delete_session sid e h =
      IsSized-others e _ (All-delete _ sid e.other_sessions h.other_bytes) h
