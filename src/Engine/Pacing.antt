-- ===== src/Engine/Pacing.antt =====
-- The pacing of broadcasts in link/engine.go.
use abletonlink_client_go.Base.{
  ℕ, zero, suc, ◌+◌, ◌*◌, ◌≤◌, ◌≡◌, ◌∙◌, ◌⊎◌, inl, inr, arith, true, false, some, List, [], ◌∷◌,
}
use abletonlink_client_go.Base.Int.{pos, ltb_ℤ}
use abletonlink_client_go.Float.{Float64}
use abletonlink_client_go.Engine.State.{
  World, Engine, Effect, sent_multicast, sent_to, sent_measurement, peers_callback, tempo_callback,
  start_stop_callback, panicked, time_sub, min_broadcast_gap,
}
use abletonlink_client_go.Base.Map.{nat_key, find, find-insert}
use abletonlink_client_go.Engine.State.{deferred_broadcast}
use abletonlink_client_go.Engine.Hub.{next_id, after}
use abletonlink_client_go.Engine.Session.{broadcast_now, broadcast}

not_early :
    (t u : ℕ) → ltb_ℤ (time_sub t u) (pos min_broadcast_gap) ≡ false → u + min_broadcast_gap ≤ t
unfolding time_sub
not_early t u h = ground arith

module _ {F : Type 0} where
  -- The state announcements among the effects.
  abbrev pub announcements : List (Effect F) → ℕ
  announcements [] = 0
  announcements (sent_multicast msg ∷ xs) = suc (announcements xs)
  announcements (sent_to msg to ∷ xs) = announcements xs
  announcements (sent_measurement msg to ∷ xs) = announcements xs
  announcements (peers_callback n ∷ xs) = announcements xs
  announcements (tempo_callback bpm ∷ xs) = announcements xs
  announcements (start_stop_callback b ∷ xs) = announcements xs
  announcements (panicked ∷ xs) = announcements xs

module _ {F : Type 0} ⦃fl : Float64 F⦄ (w : World) where
  -- Calls of broadcast in a row.
  unfoldable pub broadcasts : ℕ → Engine F → Engine F
  unfolding broadcast
  broadcasts zero e = e
  broadcasts (suc n) e = broadcasts n (broadcast w e)

  abbrev pub spent : Engine F → ℕ
  spent e = announcements e.effects * min_broadcast_gap

  pub record IsPaced (e e' : Engine F) : Type 0 where
    pub slow :
        (spent e' + e.last_broadcast ≤ spent e + e'.last_broadcast)
        × (e.last_broadcast ≤ e'.last_broadcast)
    pub same_flag : e'.enabled_flag ≡ e.enabled_flag
    pub still_pending : e.broadcast_pending ≡ true → e'.broadcast_pending ≡ true
    pub served :
        e.enabled_flag ≡ true
        → (e.last_broadcast + min_broadcast_gap ≤ e'.last_broadcast) ⊎ (e'.broadcast_pending ≡ true)

  -- A deferred announcement has a timer that will run it.
  abbrev pub IsArmed : Engine F → Type 0
  IsArmed e =
      (e.broadcast_pending ≡ false)
      ⊎ (find e.broadcast_timer_id e.hub.cbs ≡ some deferred_broadcast)

  broadcast-IsArmed : (e : Engine F) → IsArmed e → IsArmed (broadcast w e)
  unfolding broadcast broadcast_now after
  broadcast-IsArmed e h =
      let armed = find-insert (next_id e.hub) (next_id e.hub) deferred_broadcast e.hub.cbs in
      ground (arith, armed)

  broadcast-IsPaced :
      ((k : ℕ) → w.wall k ≤ w.wall (suc k)) → (e : Engine F) → IsPaced e (broadcast w e)
  unfolding broadcast broadcast_now
  broadcast-IsPaced monotone e =
      let spaced = not_early (w.wall e.reads) e.last_broadcast in
      let advanced = monotone e.reads in
      record {
        slow = ground arith;
        same_flag = ground arith;
        still_pending = ground arith;
        served = ground arith;
      }

  IsPaced-then : (a b c : Engine F) → IsPaced a b → IsPaced b c → IsPaced a c
  IsPaced-then a b c first second = record {
    slow = omega (arith, first.slow, second.slow);
    same_flag = second.same_flag ∙ first.same_flag;
    still_pending = λ p. second.still_pending (first.still_pending p);
    served = λ on. elim (first.served on) [
      | inl sent ↦ inl (omega (arith, sent, second.slow))
      | inr pending ↦ inr (second.still_pending pending)
    ];
  }

  broadcasts-IsArmed : (n : ℕ) (e : Engine F) → IsArmed e → IsArmed (broadcasts n e)
  unfolding broadcasts
  broadcasts-IsArmed zero e h = h
  broadcasts-IsArmed (suc n) e h = broadcasts-IsArmed n (broadcast w e) (broadcast-IsArmed e h)

  IsPaced-broadcasts :
      ((k : ℕ) → w.wall k ≤ w.wall (suc k))
      → (n : ℕ) (e : Engine F) → IsPaced e (broadcasts (suc n) e)
  unfolding broadcasts
  IsPaced-broadcasts monotone zero e = broadcast-IsPaced monotone e
  IsPaced-broadcasts monotone (suc n) e =
      IsPaced-then e (broadcast w e) _ (broadcast-IsPaced monotone e)
        (IsPaced-broadcasts monotone n (broadcast w e))

  pub broadcasts-IsPaced :
      ((k : ℕ) → w.wall k ≤ w.wall (suc k))
      → (n : ℕ) (e : Engine F) → IsArmed e
      → IsPaced e (broadcasts (suc n) e) × IsArmed (broadcasts (suc n) e)
  broadcasts-IsPaced monotone n e armed =
      (IsPaced-broadcasts monotone n e, broadcasts-IsArmed (suc n) e armed)
