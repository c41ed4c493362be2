-- ===== src/Terminal/Updates.antt =====
-- How the engine's callbacks reach the terminal client, cmd/linkclient/main.go: the channel of
-- updates that newModel makes, and the callbacks that fill it.
use abletonlink_client_go.Base.{ℕ, ◌+◌, List, [], ◌∷◌, ltb, if◌then◌else◌}
use abletonlink_client_go.Engine.State.{
  Engine, Effect, sent_multicast, sent_to, sent_measurement, peers_callback, tempo_callback,
  start_stop_callback, panicked,
}
use abletonlink_client_go.Link.Callbacks.{
  Callbacks, no_callbacks, set_num_peers_callback, set_tempo_callback, set_start_stop_callback,
  fire_peers_callback, fire_tempo_callback, fire_start_stop_callback,
}

-- The capacity of the channel of updates.
abbrev pub update_capacity : ℕ
update_capacity = 1

-- notify, on the number of updates in the channel: a full channel takes no more.
unfoldable pub notify : ℕ → ℕ
notify n = if ltb n update_capacity then n + 1 else n

module _ {F : Type 0} where
  -- The callbacks that newModel registers.
  unfoldable pub client_callbacks : Callbacks F ℕ
  unfolding set_num_peers_callback set_tempo_callback set_start_stop_callback
  client_callbacks =
      set_start_stop_callback (λ playing. notify)
        (set_tempo_callback (λ bpm. notify) (set_num_peers_callback (λ n. notify) no_callbacks))

  module _ {S : Type 0} (l : Callbacks F S) where
    -- The call that an effect of the engine is.
    abbrev pub deliver : Effect F → S → S
    deliver (peers_callback n) s = fire_peers_callback l n s
    deliver (tempo_callback bpm) s = fire_tempo_callback l bpm s
    deliver (start_stop_callback playing) s = fire_start_stop_callback l playing s
    deliver (sent_multicast msg) s = s
    deliver (sent_to msg to) s = s
    deliver (sent_measurement msg to) s = s
    deliver panicked s = s

    -- All effects of a round; the newest stands first.
    abbrev pub deliver_all : List (Effect F) → S → S
    deliver_all [] s = s
    deliver_all (x ∷ es) s = deliver x (deliver_all es s)

  -- The log of effects starts afresh.
  abbrev pub unlogged : Engine F → Engine F
  unlogged e = record e { effects = [] }
