-- ===== src/Engine/Members/Reachable.antt =====
-- The members in every state that the loop of link/engine.go reaches.
use abletonlink_client_go.Base.{
  ℕ, ◌≡◌, inl, inr, refl, ap, ◌∙◌, Bool, true, false, some, List, [], ◌∷◌, Option-cases,
}
use abletonlink_client_go.Base.Map.{find, nat_key}
use abletonlink_client_go.Base.Results.{OnResult, returns, OnResult-then, OnResult-some}
use abletonlink_client_go.Float.{Float64}
use abletonlink_client_go.Engine.State.{
  World, Engine, Callback, TimerHub, deferred_broadcast, remeasure, measurer_timer_fired,
}
use abletonlink_client_go.Engine.Hub.{fire}
use abletonlink_client_go.Engine.Session.{publish_snapshot, count_session_peers}
use abletonlink_client_go.Engine.Loop.{
  Command, change_tempo, request_beat, force_beat, change_playing, enable, enable_start_stop_sync,
  Event, discovery_packet, measurement_packet, broadcast_tick, prune_tick, command, timer,
  run_callback, fire_timer, run_command, step, run, init,
}
use abletonlink_client_go.Engine.Members.Frame.{
  members, members-broadcast, members-broadcast_now, members-schedule_remeasure,
}
use abletonlink_client_go.Engine.Members.Count.{IsSound, IsSound-of}
use abletonlink_client_go.Engine.Members.Sessions.{
  IsSound-handle_measurement_packet, IsSound-measurer_timer_fired,
  IsSound-launch_session_measurement,
}
use abletonlink_client_go.Engine.Members.Table.{IsSound-handle_discovery_packet}
use abletonlink_client_go.Engine.Members.Client.{
  IsSound-prune_peers, IsSound-apply_tempo_change, IsSound-apply_playing_change,
  IsSound-set_enabled, IsSound-apply_force_beat_at_time, IsSound-apply_request_beat_at_time,
}

module _ {F : Type 0} where
  -- The state that timers and settings keep is no member.
  members-pending :
      (e : Engine F) (b : Bool) (n : ℕ) (hub : TimerHub) (sync : Bool)
      → members
          (record e { broadcast_pending = b; remeasure_id = n; hub = hub; start_stop_sync = sync })
        ≡ members e
  unfolding members
  members-pending e b n hub sync = refl

  -- The own session's count is right, and an engine that does not take part knows no peers and no
  -- other sessions.
  abbrev pub IsSettled : Engine F → Type 0
  IsSettled e = IsSound true (members e)

  reading :
      (e : Engine F)
      → IsSettled e
      → (e.session_peer_nbr ≡ count_session_peers e.session_id e.peers)
        × (e.enabled_flag ≡ false
            → (e.peers ≡ []) × (e.other_sessions ≡ []) × (e.session_peer_nbr ≡ 0))
  unfolding members count_session_peers
  reading e h = (
    h.counted refl,
    λ off. elim h.live [
      | inl on ↦ cc
      | inr idle ↦ (idle.0, idle.1, h.counted refl ∙ ap (count_session_peers _) idle.0)
    ],
  )

module _ {F : Type 0} ⦃fl : Float64 F⦄ (w : World) where
  IsSettled-run_callback :
      (cb : Callback) (e : Engine F) → IsSettled e → IsSettled (run_callback w cb e)
  unfolding run_callback
  IsSettled-run_callback deferred_broadcast e h =
      IsSound-of (members-broadcast_now w _ ∙ members-pending e _ _ _ _) h
  IsSettled-run_callback remeasure e h = IsSound-of (members-schedule_remeasure _) (
      IsSound-launch_session_measurement w e.session_id _
        (IsSound-of (members-pending e _ _ _ _) h))
  IsSettled-run_callback (measurer_timer_fired key) e h = IsSound-measurer_timer_fired w key e h

  IsSettled-fire_timer : (id : ℕ) (e : Engine F) → IsSettled e → IsSettled (fire_timer w id e)
  unfolding fire_timer fire
  IsSettled-fire_timer id e h = elim (Option-cases (find id e.hub.cbs)) [
    | inl missing ↦ rw (fire_timer, missing) h
    | inr (cb, known) ↦
        rw (fire_timer, known)
          (IsSettled-run_callback cb _ (IsSound-of (members-pending e _ _ _ _) h))
  ]

  run_command-IsSettled :
      (c : Command F) (e : Engine F) → IsSettled e → OnResult IsSettled (run_command w c e)
  unfolding run_command
  run_command-IsSettled (change_tempo bpm at) e h =
      returns (IsSound-apply_tempo_change w bpm at e h)
  run_command-IsSettled (request_beat beat at quantum) e h =
      IsSound-apply_request_beat_at_time w beat at quantum e h
  run_command-IsSettled (force_beat beat at quantum) e h =
      IsSound-apply_force_beat_at_time w beat at quantum e h
  run_command-IsSettled (change_playing playing at) e h =
      returns (IsSound-apply_playing_change w playing at e h)
  run_command-IsSettled (enable v) e h = returns (IsSound-set_enabled w v e h)
  run_command-IsSettled (enable_start_stop_sync v) e h =
      returns (IsSound-of (members-pending e _ _ _ _) h)

  pub step-IsSettled : (x : Event F) (e : Engine F) → IsSettled e → OnResult IsSettled (step w x e)
  unfolding step
  step-IsSettled (discovery_packet from bytes) e h =
      returns (IsSound-handle_discovery_packet w from bytes e h)
  step-IsSettled (measurement_packet from bytes) e h =
      returns (IsSound-handle_measurement_packet w from bytes e h)
  step-IsSettled broadcast_tick e h = returns (IsSound-of (members-broadcast w e) h)
  step-IsSettled prune_tick e h = returns (IsSound-prune_peers w e h)
  step-IsSettled (command c) e h = run_command-IsSettled c e h
  step-IsSettled (timer id) e h = returns (IsSettled-fire_timer id e h)

  run-IsSettled :
      (xs : List (Event F)) (e : Engine F) → IsSettled e → OnResult IsSettled (run w xs e)
  unfolding run
  run-IsSettled [] e h = returns h
  run-IsSettled (x ∷ xs) e h =
      OnResult-then _ _ (step w x e) _ (step-IsSettled x e h) (λ e'. run-IsSettled xs e')

  pub init-IsSettled : (tempo : F) (sync : Bool) → IsSettled (init w tempo sync)
  unfolding init publish_snapshot members count_session_peers
  init-IsSettled tempo sync = record { counted = λ s. refl; live = inr (refl, refl) }

  -- In every state that the loop reaches from a new engine, by any events in any order and with any
  -- clock, the count of peers is the number of known peers in the own session; and if the engine does
  -- not take part, it knows no peers and no other sessions, and counts none.
  pub run-init-counts :
      (tempo : F) (sync : Bool) (xs : List (Event F)) {e : Engine F}
      → run w xs (init w tempo sync) ≡ some e
      → (e.session_peer_nbr ≡ count_session_peers e.session_id e.peers)
        × (e.enabled_flag ≡ false
            → (e.peers ≡ []) × (e.other_sessions ≡ []) × (e.session_peer_nbr ≡ 0))
  run-init-counts tempo sync xs {e} r =
      reading e (OnResult-some (run-IsSettled xs _ (init-IsSettled tempo sync)) r)
