-- ===== src/Engine/Members/Client.antt =====
-- What pruning and the client's commands do to the members (link/engine.go).
use abletonlink_client_go.Base.{
  ℕ, ◌≡◌, ◌≤◌, inl, inr, refl, ap, ◌∙◌, arith, Bool, true, false, some, List, [], ◌∷◌,
  if◌then◌else◌, Bool-cases, length, ◌==◌, ==_iff, eqb, ltb,
}
use abletonlink_client_go.Base.Int.{pos}
use abletonlink_client_go.Base.Int64.{add64}
use abletonlink_client_go.Base.Results.{OnResult, returns, OnResult-bind, OnResult-if}
use abletonlink_client_go.Float.{Float64}
use abletonlink_client_go.Clock.{Micros}
use abletonlink_client_go.Beats.{Beats, beats_from_float, greater, next_phase_match}
use abletonlink_client_go.NodeId.{NodeId}
use abletonlink_client_go.Timeline.{
  Timeline, force_beat_at_time_impl, to_phase_encoded_beats, from_phase_encoded_beats,
}
use abletonlink_client_go.PeerState.{StartStopState}
use abletonlink_client_go.Engine.State.{World, Engine, PeerEntry, ClientStartStop, tick}
use abletonlink_client_go.Engine.Session.{
  count_session_peers, send_bye_bye, publish_snapshot, broadcast, reset_state,
}
use abletonlink_client_go.Engine.Discovery.{live_peers, prune_peers}
use abletonlink_client_go.Engine.Client.{
  cache_timeline, commit_client_timeline, apply_tempo_change, apply_playing_change, set_enabled,
  apply_force_beat_at_time, apply_request_beat_at_time,
}
use abletonlink_client_go.Engine.Members.Frame.{
  members, members-broadcast, members-update_session_timing, members-publish, members-report,
}
use abletonlink_client_go.Engine.Members.Count.{
  IsLive, IsSound, IsSound-of, IsSound-if, IsSound-session_membership_changed, members-reset_state,
}
use abletonlink_client_go.Engine.Members.Peers.{IsSound-peers}

module _ {F : Type 0} where
  live_peers-length :
      (now : ℕ) (peers : List (NodeId × PeerEntry F)) → length (live_peers now peers) ≤ length peers
  unfolding live_peers
  live_peers-length now [] = omega arith
  live_peers-length now ((id, p) ∷ peers) = ground (arith, live_peers-length now peers)

  -- Pruning that keeps the number of peers keeps all of them.
  live_peers-same :
      (now : ℕ) (peers : List (NodeId × PeerEntry F))
      → length (live_peers now peers) ≡ length peers
      → live_peers now peers ≡ peers
  unfolding live_peers
  live_peers-same now [] e = refl
  live_peers-same now ((id, p) ∷ peers) e =
      ground (arith, live_peers-length now peers, live_peers-same now peers)

  IsLive-live_peers :
      (now : ℕ) (e : Engine F)
      → IsLive (members e)
      → IsLive (members (tick (record e { peers = live_peers now e.peers })))
  unfolding members live_peers
  IsLive-live_peers now e h = elim h [
    | inl on ↦ inl on
    | inr off ↦ inr (ap (live_peers now) off.0, off.1)
  ]

  pruned_same :
      (now : ℕ) (e : Engine F)
      → live_peers now e.peers ≡ e.peers
      → members (tick (record e { peers = live_peers now e.peers })) ≡ members e
  unfolding members
  pruned_same now e h =
      ap {A = List (NodeId × PeerEntry F)} (λ ps. record (members e) { peers = ps }) h

  count-cache_timeline :
      (sid own : NodeId) (tl : Timeline F) (ps : List (NodeId × PeerEntry F))
      → count_session_peers sid (cache_timeline own tl ps) ≡ count_session_peers sid ps
  unfolding count_session_peers cache_timeline
  count-cache_timeline sid own tl [] = refl
  count-cache_timeline sid own tl ((id, p) ∷ ps) =
      ground (arith, count-cache_timeline sid own tl ps)

  sound_else :
      (b : Bool) (x y : Engine F)
      → IsSound true (members x)
      → (b ≡ false → IsSound true (members y))
      → IsSound true (members (if b then x else y))
  sound_else true x y hx hy = hx
  sound_else false x y hx hy = hy refl

  -- The client's timeline and the transport state are no members.
  members-client :
      (e : Engine F) (tl : Timeline F) (cs : ClientStartStop) (ss : StartStopState)
      → members (record e { client_timeline = tl; client_start_stop = cs; session_start_stop = ss })
        ≡ members e
  unfolding members
  members-client e tl cs ss = refl

  -- An engine that does not take part counts no peers.
  founded_idle :
      (e : Engine F) (sid : NodeId)
      → eqb true e.enabled_flag ≡ false
      → IsSound true (members e)
      → IsSound true (record (members (record e { enabled_flag = true })) {
        session = sid;
        peers = [];
        others = [];
      })
  unfolding members count_session_peers
  founded_idle e sid off h = record {
    counted = λ s. elim h.live [
      | inl on ↦ cc
      | inr none_left ↦ h.counted s ∙ ap (count_session_peers _) none_left.0
    ];
    live = inl refl;
  }

module _ {F : Type 0} ⦃fl : Float64 F⦄ (w : World) where
  pub IsSound-prune_peers :
      (e : Engine F) → IsSound true (members e) → IsSound true (members (prune_peers w e))
  unfolding prune_peers
  IsSound-prune_peers e h =
      let now = w.wall e.reads in
      elim (Bool-cases (length (live_peers now e.peers) == length e.peers)) [
        | inl same ↦
            rw (prune_peers, same)
              (IsSound-of (pruned_same now e (live_peers-same now e.peers ((==_iff _ _).0 same))) h)
        | inr fewer ↦
            rw (prune_peers, fewer)
              (IsSound-session_membership_changed w _ (IsLive-live_peers now e h.live))
      ]

  pub IsSound-commit_client_timeline :
      (at : Micros) (e : Engine F)
      → IsSound true (members e)
      → IsSound true (members (commit_client_timeline w at e))
  unfolding commit_client_timeline cache_timeline
  IsSound-commit_client_timeline at e h = IsSound-of (members-broadcast w _) (
      IsSound-peers _ _ (λ sid. count-cache_timeline sid _ _ _) (ap (cache_timeline _ _))
        (IsSound-of (members-update_session_timing w _ _ e) h))

  pub IsSound-apply_tempo_change :
      (bpm : F) (at : Micros) (e : Engine F)
      → IsSound true (members e)
      → IsSound true (members (apply_tempo_change w bpm at e))
  unfolding apply_tempo_change
  IsSound-apply_tempo_change bpm at e h =
      IsSound-commit_client_timeline at _ (IsSound-of (members-client e _ _ _) h)

  pub IsSound-apply_playing_change :
      (playing : Bool) (at : Micros) (e : Engine F)
      → IsSound true (members e)
      → IsSound true (members (apply_playing_change w playing at e))
  unfolding apply_playing_change
  IsSound-apply_playing_change playing at e h =
      let client = IsSound-if _ _ _ (IsSound-of (members-client e _ _ _) h) h in
      IsSound-of (members-publish _ ∙ members-report _) (
        IsSound-if _ _ _ (IsSound-of (members-broadcast w _ ∙ members-client _ _ _ _) client)
          client)

  started :
      (e : Engine F)
      → eqb true e.enabled_flag ≡ false
      → IsSound true (members e)
      → IsSound true (members (broadcast w (reset_state w (record e { enabled_flag = true }))))
  started e off h =
      IsSound-of (members-broadcast w _ ∙ members-reset_state w _) (founded_idle e _ off h)

  stopped :
      (e : Engine F)
      → IsSound true (
          members (
            publish_snapshot (record (send_bye_bye w (record e { enabled_flag = false })) {
              peers = [];
              other_sessions = [];
              session_peer_nbr = 0;
            })))
  unfolding members count_session_peers publish_snapshot
  stopped e = record { counted = λ s. refl; live = inr (refl, refl) }

  -- Enabling founds a session without peers, disabling forgets all peers and sessions.
  pub IsSound-set_enabled :
      (v : Bool) (e : Engine F)
      → IsSound true (members e)
      → IsSound true (members (set_enabled w v e))
  unfolding set_enabled
  IsSound-set_enabled true e h = sound_else _ _ _ h (λ off. started e off h)
  IsSound-set_enabled false e h = IsSound-if _ _ _ h (stopped e)

  -- Every state that a command may leave: none, if it panics.
  pub IsSound-apply_force_beat_at_time :
      (beat : F) (at : Micros) (quantum : Beats) (e : Engine F)
      → IsSound true (members e)
      → OnResult (λ x. IsSound true (members x)) (apply_force_beat_at_time w beat at quantum e)
  unfolding apply_force_beat_at_time
  IsSound-apply_force_beat_at_time beat at quantum e h =
      let beat_b = beats_from_float beat in
      OnResult-bind _ (force_beat_at_time_impl e.client_timeline beat_b at quantum) _ λ forced.
        OnResult-bind _ (to_phase_encoded_beats forced at quantum) _ λ reached.
          OnResult-bind _
            (if greater reached beat_b
              then force_beat_at_time_impl forced beat_b (add64 at (pos 1)) quantum
              else some forced)
            _
            λ tl. returns (
              IsSound-commit_client_timeline at _
                (IsSound-of (members-client e tl e.client_start_stop e.session_start_stop) h))

  pub IsSound-apply_request_beat_at_time :
      (beat : F) (at : Micros) (quantum : Beats) (e : Engine F)
      → IsSound true (members e)
      → OnResult (λ x. IsSound true (members x)) (apply_request_beat_at_time w beat at quantum e)
  unfolding apply_request_beat_at_time
  IsSound-apply_request_beat_at_time beat at quantum e h =
      OnResult-if _ (ltb 0 e.session_peer_nbr) _ _
        (OnResult-bind _ (to_phase_encoded_beats e.client_timeline at quantum) _ λ current.
          OnResult-bind _ (next_phase_match current (beats_from_float beat) quantum) _ λ next.
            OnResult-bind _ (from_phase_encoded_beats e.client_timeline next quantum) _
              λ quantized. IsSound-apply_force_beat_at_time beat quantized quantum e h)
        (IsSound-apply_force_beat_at_time beat at quantum e h)
