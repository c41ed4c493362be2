-- ===== src/Link/Callbacks.antt =====
-- The callbacks of a Link, link/link.go. What a callback does is a change of the application's
-- state; an unset one is nil.
use abletonlink_client_go.Base.{ℕ, Bool, Option, none, some}

pub record Callbacks (F S : Type 0) : Type 0 where
  pub peers_cb : Option (ℕ → S → S)
  pub tempo_cb : Option (F → S → S)
  pub start_stop_cb : Option (Bool → S → S)

module _ {F S : Type 0} where
  -- A new Link has none.
  abbrev pub no_callbacks : Callbacks F S
  no_callbacks = record { peers_cb = none; tempo_cb = none; start_stop_cb = none }

  unfoldable pub set_num_peers_callback : (ℕ → S → S) → Callbacks F S → Callbacks F S
  set_num_peers_callback cb l = record l { peers_cb = some cb }

  unfoldable pub set_tempo_callback : (F → S → S) → Callbacks F S → Callbacks F S
  set_tempo_callback cb l = record l { tempo_cb = some cb }

  unfoldable pub set_start_stop_callback : (Bool → S → S) → Callbacks F S → Callbacks F S
  set_start_stop_callback cb l = record l { start_stop_cb = some cb }

  unfoldable pub fire_peers_callback : Callbacks F S → ℕ → S → S
  fire_peers_callback l n s = elim l.peers_cb [ none ↦ s | some cb ↦ cb n s ]

  unfoldable pub fire_tempo_callback : Callbacks F S → F → S → S
  fire_tempo_callback l bpm s = elim l.tempo_cb [ none ↦ s | some cb ↦ cb bpm s ]

  unfoldable pub fire_start_stop_callback : Callbacks F S → Bool → S → S
  fire_start_stop_callback l playing s = elim l.start_stop_cb [ none ↦ s | some cb ↦ cb playing s ]
