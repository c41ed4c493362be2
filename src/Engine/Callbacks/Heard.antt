-- ===== src/Engine/Callbacks/Heard.antt =====
-- What the application was told of the tempo and of the transport (link/engine.go, link/link.go), what it
-- can read of them, and what is so.
use abletonlink_client_go.Base.{
  ℕ, ◌≡◌, refl, Bool, true, false, Option, none, some, List, [], ◌∷◌, if◌then◌else◌,
}
use abletonlink_client_go.Float.{Float64}
use abletonlink_client_go.NodeId.{NodeId}
use abletonlink_client_go.Engine.State.{
  Engine, Effect, sent_multicast, sent_to, sent_measurement, peers_callback, tempo_callback,
  start_stop_callback, panicked, send, emit, PeerEntry, SessionEntry, Measurer, TimerHub,
}

module _ {F : Type 0} where
  -- The tempo that was told last; `first` before the first callback. The newest effect stands first.
  abbrev pub last_tempo : F → List (Effect F) → F
  last_tempo first [] = first
  last_tempo first (tempo_callback bpm ∷ es) = bpm
  last_tempo first (sent_multicast msg ∷ es) = last_tempo first es
  last_tempo first (sent_to msg to ∷ es) = last_tempo first es
  last_tempo first (sent_measurement msg to ∷ es) = last_tempo first es
  last_tempo first (peers_callback n ∷ es) = last_tempo first es
  last_tempo first (start_stop_callback b ∷ es) = last_tempo first es
  last_tempo first (panicked ∷ es) = last_tempo first es

  -- The transport state that was told last; `first` before the first callback.
  abbrev pub last_playing : Bool → List (Effect F) → Bool
  last_playing first [] = first
  last_playing first (start_stop_callback b ∷ es) = b
  last_playing first (sent_multicast msg ∷ es) = last_playing first es
  last_playing first (sent_to msg to ∷ es) = last_playing first es
  last_playing first (sent_measurement msg to ∷ es) = last_playing first es
  last_playing first (peers_callback n ∷ es) = last_playing first es
  last_playing first (tempo_callback bpm ∷ es) = last_playing first es
  last_playing first (panicked ∷ es) = last_playing first es

  -- The effect calls neither the tempo callback nor the one for the transport.
  abbrev pub IsSilent : Effect F → Type 0
  IsSilent (tempo_callback bpm) = ⊥
  IsSilent (start_stop_callback b) = ⊥
  IsSilent _ = Unit {0}

-- One tempo, or tempi that compare as equal one after the other.
pub data Agrees {F : Type 0} ⦃fl : Float64 F⦄ (x : F) : F → Type 0 where
  alike : Agrees x x
  equal_to : {y z : F} → Agrees x y → fl.eq y z ≡ true → Agrees x z

-- What the application was told, what it can read, and what is so.
pub record Heard (F : Type 0) : Type 0 where
  pub told_tempo : F
  pub told_playing : Bool
  pub last_told : Bool
  pub shown_tempo : F
  pub shown_playing : Bool
  pub tempo : F
  pub playing : Bool

module _ {F : Type 0} (first : F × Bool) where
  unfoldable pub heard : Engine F → Heard F
  heard e = record {
    told_tempo = last_tempo first.0 e.effects;
    told_playing = last_playing first.1 e.effects;
    last_told = e.last_playing_cb;
    shown_tempo = e.snap.tempo;
    shown_playing = e.snap.playing;
    tempo = e.session_timeline.tempo.bpm;
    playing = e.client_start_stop.is_playing;
  }

  -- Changes of what is not heard of.
  pub heard-same :
      (e : Engine F) (peers : List (NodeId × PeerEntry F)) (others : List (NodeId × SessionEntry F))
      (ms : List (NodeId × Measurer F)) (hub : TimerHub)
      → heard (record e { peers = peers; other_sessions = others; measurements = ms; hub = hub })
        ≡ heard e
  unfolding heard
  heard-same e peers others ms hub = refl

  pub heard-if :
      (b : Bool) (x y : Engine F) {r : Heard F}
      → heard x ≡ r
      → heard y ≡ r
      → heard (if b then x else y) ≡ r
  heard-if true x y hx hy = hx
  heard-if false x y hx hy = hy

  pub heard-emit : (x : Effect F) (e : Engine F) → IsSilent x → heard (emit x e) ≡ heard e
  unfolding heard
  heard-emit (sent_multicast msg) e s = refl
  heard-emit (sent_to msg to) e s = refl
  heard-emit (sent_measurement msg to) e s = refl
  heard-emit (peers_callback n) e s = refl
  heard-emit panicked e s = refl
  heard-emit (tempo_callback bpm) e s = elim s [ ]
  heard-emit (start_stop_callback b) e s = elim s [ ]

  pub heard-send :
      (f : List ℕ → Effect F) (msg : Option (List ℕ)) (e : Engine F)
      → ((m : List ℕ) → IsSilent (f m))
      → heard (send f msg e) ≡ heard e
  heard-send f none e s = heard-emit panicked e tt
  heard-send f (some msg) e s = heard-emit (f msg) e (s msg)

-- The application was told the tempo; if `told`, also the transport state; if `shown`, what it was
-- told is published.
pub record IsTold {F : Type 0} ⦃fl : Float64 F⦄ (told shown : Bool) (r : Heard F) : Type 0 where
  pub tempo_told : Agrees r.told_tempo r.tempo
  pub playing_told : r.told_playing ≡ r.last_told
  pub last : told ≡ true → r.last_told ≡ r.playing
  pub tempo_shown : shown ≡ true → r.shown_tempo ≡ r.tempo
  pub playing_shown : shown ≡ true → r.shown_playing ≡ r.playing

module _ {F : Type 0} ⦃fl : Float64 F⦄ {told shown : Bool} where
  pub IsTold-of : {m n : Heard F} → n ≡ m → IsTold told shown m → IsTold told shown n
  IsTold-of e h = rw e h

  pub IsTold-if :
      (first : F × Bool) (b : Bool) (x y : Engine F)
      → IsTold told shown (heard first x)
      → IsTold told shown (heard first y)
      → IsTold told shown (heard first (if b then x else y))
  IsTold-if first true x y hx hy = hx
  IsTold-if first false x y hx hy = hy
