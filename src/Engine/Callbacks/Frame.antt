-- ===== src/Engine/Callbacks/Frame.antt =====
-- The operations of link/engine.go that report to the application or publish, and the session timing.
use abletonlink_client_go.Base.{
  ◌≡◌, refl, ap, ◌∙◌, arith, Bool, true, false, if◌then◌else◌, ◌&&◌, not, eqb,
}
use abletonlink_client_go.Float.{Float64}
use abletonlink_client_go.Timeline.{
  Timeline, GhostXForm, eq_timeline, eq_xform, eq_tempo, clamp_tempo,
}
use abletonlink_client_go.PeerState.{is_empty}
use abletonlink_client_go.Engine.State.{World, Engine, tempo_callback, emit, tick, ClientStartStop}
use abletonlink_client_go.Engine.Session.{
  update_session_timing, report_playing_if_changed, publish_snapshot,
}
use abletonlink_client_go.Engine.Callbacks.Heard.{
  Agrees, alike, equal_to, Heard, heard, IsTold, IsTold-of, IsTold-if,
}

-- A changed transport state is told.
abbrev tell_playing : {F : Type 0} → Heard F → Heard F
tell_playing r = record r {
  told_playing = if eqb r.playing r.last_told then r.told_playing else r.playing;
  last_told = if eqb r.playing r.last_told then r.last_told else r.playing;
}

-- A tempo that does not compare as equal to the old one is told.
abbrev tell_tempo : {F : Type 0} ⦃fl : Float64 F⦄ → F → Heard F → Heard F
tell_tempo ⦃fl⦄ t r = record r {
  told_tempo = if fl.eq r.tempo t then r.told_tempo else t;
  tempo = t;
}

module _ {F : Type 0} ⦃fl : Float64 F⦄ where
  IsTold-retime :
      {told shown : Bool} (t : F) (r : Heard F)
      → IsTold told shown r
      → IsTold told false (tell_tempo t r)
  IsTold-retime t r h = record {
    tempo_told = agreed _ refl;
    playing_told = h.playing_told;
    last = h.last;
    tempo_shown = λ n. cc;
    playing_shown = λ n. cc;
  }
    where
      agreed : (b : Bool) → fl.eq r.tempo t ≡ b → Agrees (if b then r.told_tempo else t) t
      agreed true same = equal_to h.tempo_told same
      agreed false changed = alike

  reported :
      {told shown : Bool} (r : Heard F) → IsTold told shown r → IsTold true false (tell_playing r)
  reported r h = record {
    tempo_told = h.tempo_told;
    playing_told = ground (arith, h.playing_told);
    last = λ _. ground arith;
    tempo_shown = λ n. cc;
    playing_shown = λ n. cc;
  }

  -- A new transport state, of which the application was not told yet.
  pub IsTold-client :
      {told shown : Bool} (p : Bool) (r : Heard F)
      → IsTold told shown r
      → IsTold false false (record r { playing = p })
  IsTold-client p r h = record {
    tempo_told = h.tempo_told;
    playing_told = h.playing_told;
    last = λ n. cc;
    tempo_shown = λ n. cc;
    playing_shown = λ n. cc;
  }

  IsTold-less : {shown : Bool} (r : Heard F) → IsTold true shown r → IsTold true false r
  IsTold-less r h = record {
    tempo_told = h.tempo_told;
    playing_told = h.playing_told;
    last = h.last;
    tempo_shown = λ n. cc;
    playing_shown = λ n. cc;
  }

  pub IsTold-weaker : (r : Heard F) → IsTold true true r → IsTold false false r
  IsTold-weaker r h = record {
    tempo_told = h.tempo_told;
    playing_told = h.playing_told;
    last = λ n. cc;
    tempo_shown = λ n. cc;
    playing_shown = λ n. cc;
  }

  IsTold-branch :
      (b : Bool) (x y : Heard F)
      → IsTold true false x
      → IsTold true false y
      → IsTold true false (if b then x else y)
  IsTold-branch true x y hx hy = hx
  IsTold-branch false x y hx hy = hy

  -- What publishing shows.
  abbrev show : Heard F → Heard F
  show r = record r { shown_tempo = r.tempo; shown_playing = r.playing }

  shown_lem : {s : Bool} (r : Heard F) → IsTold true s r → IsTold true true (show r)
  shown_lem r h = record {
    tempo_told = h.tempo_told;
    playing_told = h.playing_told;
    last = h.last;
    tempo_shown = λ n. refl;
    playing_shown = λ n. refl;
  }

  module _ (first : F × Bool) where
    heard-report :
        (e : Engine F) → heard first (report_playing_if_changed e) ≡ tell_playing (heard first e)
    unfolding report_playing_if_changed heard
    heard-report e = ground arith

    heard-publish : (e : Engine F) → heard first (publish_snapshot e) ≡ show (heard first e)
    unfolding publish_snapshot heard
    heard-publish e = refl

    pub IsTold-publish :
        {s : Bool} (e : Engine F)
        → IsTold true s (heard first e)
        → IsTold true true (heard first (publish_snapshot e))
    IsTold-publish e h = IsTold-of (heard-publish e) (shown_lem _ h)

    pub IsTold-report :
        {told shown : Bool} (e : Engine F)
        → IsTold told shown (heard first e)
        → IsTold true false (heard first (report_playing_if_changed e))
    IsTold-report e h = IsTold-of (heard-report e) (reported _ h)

    -- The tempo callback, after `mapped` has the new tempo already.
    retimed :
        (same : Bool) (t : F) (mapped : Engine F) (r : Heard F)
        → fl.eq r.tempo t ≡ same
        → heard first mapped ≡ record r { tempo = t }
        → heard first (if same then mapped else emit (tempo_callback t) mapped) ≡ tell_tempo t r
    unfolding heard
    retimed true t mapped r same eq = rw same eq
    retimed false t mapped r changed eq =
        rw changed (ap {A = Heard F} (λ h. record h { told_tempo = t }) eq)

    -- The transport state of the session, if the client follows it.
    abbrev followed : Bool → Bool → Engine F → Heard F
    followed b p e =
        if b then tell_playing (record (heard first e) { playing = p }) else heard first e

    followed-tempo :
        (b p : Bool) (e : Engine F) (t : F)
        → fl.eq (followed b p e).tempo t ≡ fl.eq e.session_timeline.tempo.bpm t
    unfolding heard
    followed-tempo true p e t = refl
    followed-tempo false p e t = refl

    heard-timed :
        (e : Engine F) (tl client : Timeline F) (x : GhostXForm F)
        → heard first
            (tick (record e { session_timeline = tl; session_xform = x; client_timeline = client }))
          ≡ record (heard first e) { tempo = tl.tempo.bpm }
    unfolding heard
    heard-timed e tl client x = refl

    heard-mapped :
        (b : Bool) (cs : ClientStartStop) (t : F) (e timed : Engine F)
        → heard first timed ≡ record (heard first e) { tempo = t }
        → heard first (
            if b
            then report_playing_if_changed (record timed { client_start_stop = cs })
            else timed)
          ≡ record (followed b cs.is_playing e) { tempo = t }
    unfolding heard
    heard-mapped true cs t e timed eq =
        heard-report (record timed { client_start_stop = cs })
        ∙ ap {A = Heard F} (λ h. tell_playing (record h { playing = cs.is_playing })) eq
    heard-mapped false cs t e timed eq = eq

    IsTold-followed :
        (b p : Bool) (e : Engine F)
        → IsTold true true (heard first e)
        → IsTold true false (followed b p e)
    IsTold-followed b p e h =
        IsTold-branch b _ _ (reported _ (IsTold-client p _ h)) (IsTold-less _ h)

    module _ (w : World) where
      pub IsTold-update_session_timing :
          (tl : Timeline F) (x : GhostXForm F) (e : Engine F)
          → IsTold true true (heard first e)
          → IsTold true true (heard first (update_session_timing w tl x e))
      unfolding update_session_timing eq_tempo
      IsTold-update_session_timing tl x e h =
          let follows = e.start_stop_sync && not (is_empty e.session_start_stop) in
          IsTold-if first
            (eq_timeline e.session_timeline (clamp_tempo tl) && eq_xform e.session_xform x) _ _ h
            (IsTold-publish _ (
              IsTold-of
                (retimed _ (clamp_tempo tl).tempo.bpm _ _ (followed-tempo follows _ e _)
                  (heard-mapped follows _ _ e _ (heard-timed e (clamp_tempo tl) _ x)))
                (IsTold-retime _ _ (IsTold-followed follows _ e h))))
