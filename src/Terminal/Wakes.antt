-- ===== src/Terminal/Wakes.antt =====
-- That every change of what a Link publishes wakes the terminal client (cmd/linkclient/main.go).
use abletonlink_client_go.Base.{ℕ, ◌≡◌, refl, sym, ◌∙◌, arith, Bool, true, some, List, [], ◌∷◌}
use abletonlink_client_go.Float.{Float64}
use abletonlink_client_go.Engine.State.{
  World, Engine, Effect, sent_multicast, sent_to, sent_measurement, peers_callback, tempo_callback,
  start_stop_callback, panicked,
}
use abletonlink_client_go.Engine.Loop.{Event, step, run, init}
use abletonlink_client_go.Base.Results.{OnResult-some}
use abletonlink_client_go.Engine.Callbacks.Heard.{
  last_tempo, last_playing, Agrees, alike, heard, IsTold,
}
use abletonlink_client_go.Engine.Callbacks.Reachable.{
  told_lem, step-IsTold, run-IsTold, init-IsTold,
}
use abletonlink_client_go.Link.Callbacks.{
  set_num_peers_callback, set_tempo_callback, set_start_stop_callback, fire_peers_callback,
  fire_tempo_callback, fire_start_stop_callback,
}
use abletonlink_client_go.Terminal.Updates.{notify, client_callbacks, deliver_all, unlogged}

notify_ne_zero : (n : ℕ) → notify n ≡ 0 → ⊥
unfolding notify
notify_ne_zero n e = ground arith

module _ {F : Type 0} where
  -- An empty channel after a round: it was empty before, and the round told nothing.
  nothing_told :
      (t : F) (b : Bool) (es : List (Effect F)) (n : ℕ)
      → deliver_all client_callbacks es n ≡ 0
      → (n ≡ 0) × (last_tempo t es ≡ t) × (last_playing b es ≡ b)
  unfolding client_callbacks fire_peers_callback fire_tempo_callback fire_start_stop_callback
      set_num_peers_callback set_tempo_callback set_start_stop_callback
  nothing_told t b [] n e = (e, refl, refl)
  nothing_told t b (sent_multicast msg ∷ es) n e = nothing_told t b es n e
  nothing_told t b (sent_to msg to ∷ es) n e = nothing_told t b es n e
  nothing_told t b (sent_measurement msg to ∷ es) n e = nothing_told t b es n e
  nothing_told t b (panicked ∷ es) n e = nothing_told t b es n e
  nothing_told t b (peers_callback k ∷ es) n e = elim (notify_ne_zero _ e) [ ]
  nothing_told t b (tempo_callback bpm ∷ es) n e = elim (notify_ne_zero _ e) [ ]
  nothing_told t b (start_stop_callback p ∷ es) n e = elim (notify_ne_zero _ e) [ ]

module _ {F : Type 0} ⦃fl : Float64 F⦄ where
  -- What is published is so, and was reported.
  pub record IsCurrent (e : Engine F) : Type 0 where
    pub last : e.last_playing_cb ≡ e.client_start_stop.is_playing
    pub tempo : e.snap.tempo ≡ e.session_timeline.tempo.bpm
    pub playing : e.snap.playing ≡ e.client_start_stop.is_playing

  pub told_now :
      (e : Engine F)
      → IsCurrent e
      → IsTold true true (heard (e.snap.tempo, e.snap.playing) (unlogged e))
  unfolding heard
  told_now e h = record {
    tempo_told = rw h.tempo alike;
    playing_told = h.playing ∙ sym h.last;
    last = λ _. h.last;
    tempo_shown = λ _. h.tempo;
    playing_shown = λ _. h.playing;
  }

  pub IsCurrent-of :
      (first : F × Bool) (e : Engine F) → IsTold true true (heard first e) → IsCurrent e
  unfolding heard
  IsCurrent-of first e h = record {
    last = h.last refl;
    tempo = h.tempo_shown refl;
    playing = h.playing_shown refl;
  }

  -- A round of the engine that leaves the client's channel of updates empty, in any state that the loop
  -- reaches from a new engine: it has put no update into the channel, the tempo that the Link publishes
  -- is as before the round, or compares as equal to it through a chain of equal tempi, and the
  -- transport state that it publishes is as before. So every change of what is published wakes the
  -- client. Whether the client, once awake, reads before or after the publication is left open.
  pub run-init-wakes :
      (w : World) (tempo : F) (sync : Bool) (xs : List (Event F)) (x : Event F) (n : ℕ)
      {e e' : Engine F}
      → run w xs (init w tempo sync) ≡ some e
      → step w x (unlogged e) ≡ some e'
      → deliver_all client_callbacks e'.effects n ≡ 0
      → (n ≡ 0) × Agrees e.snap.tempo e'.snap.tempo × (e'.snap.playing ≡ e.snap.playing)
  run-init-wakes w tempo sync xs x n {e} {e'} r s empty =
      let first : F × Bool = (e.snap.tempo, e.snap.playing) in
      let current =
        IsCurrent-of _ e (OnResult-some (run-IsTold _ w xs _ (init-IsTold w tempo sync)) r) in
      let told = OnResult-some (step-IsTold first w x (unlogged e) (told_now e current)) s in
      let (agrees, sounds) = told_lem first e' told in
      let (was_empty, same_tempo, same_playing) =
        nothing_told e.snap.tempo e.snap.playing e'.effects n empty in
      (was_empty, rw same_tempo at agrees, sym sounds ∙ same_playing)
