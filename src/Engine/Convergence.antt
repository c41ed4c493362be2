-- ===== src/Engine/Convergence.antt =====
-- What peers of one session agree on (link/engine.go): the session's timeline and the transport
-- state.
use mathlib.Core.Path.{subst}
use abletonlink_client_go.Base.{
  ℕ, ◌≡◌, refl, sym, ap, ◌∙◌, inl, arith, Bool, true, false, Option, none, some, List, [], ◌∷◌, not,
  if◌then◌else◌, ◌&&◌,
}
use abletonlink_client_go.Base.Int.{ℤ, ltb_ℤ, leb_ℤ}
use abletonlink_client_go.Base.Greatest.{IsGreatest, later, IsGreatest-later}
use abletonlink_client_go.Float.{Float64}
use abletonlink_client_go.Beats.{greater, eq_beats}
use abletonlink_client_go.NodeId.{NodeId}
use abletonlink_client_go.NodeId.Order.{eq_node_id_of_eq}
use abletonlink_client_go.Timeline.{Timeline, GhostXForm, eq_timeline, clamp_tempo}
use abletonlink_client_go.PeerState.{StartStopState, is_empty}
use abletonlink_client_go.Engine.State.{World, Engine, ClientStartStop, Effect, send}
use abletonlink_client_go.Engine.Session.{
  broadcast_now, broadcast, update_session_timing, report_playing_if_changed, publish_snapshot,
  start_stop_session_to_client,
}
use abletonlink_client_go.Engine.Discovery.{saw_session_timeline, handle_start_stop_from_session}

-- What the session has settled.
pub record Agreed (F : Type 0) : Type 0 where
  pub session : NodeId
  pub timeline : Timeline F
  pub transport : StartStopState

-- What a peer of the session announces.
pub data Notice (F : Type 0) : Type 0 where
  timeline_of : Timeline F → Notice F
  transport_of : StartStopState → Notice F

abbrev stamp : StartStopState → ℤ
stamp ss = ss.timestamp

abbrev origin_of : {F : Type 0} → Timeline F → ℤ
origin_of tl = tl.beat_origin.micro

module _ {F : Type 0} ⦃fl : Float64 F⦄ where
  unfoldable pub agreed : Engine F → Agreed F
  agreed e = record {
    session = e.session_id;
    timeline = e.session_timeline;
    transport = e.session_start_stop;
  }

  -- The timelines among the notices, with their tempi clamped.
  abbrev pub timelines : List (Notice F) → List (Timeline F)
  timelines [] = []
  timelines (timeline_of tl ∷ xs) = clamp_tempo tl ∷ timelines xs
  timelines (transport_of ss ∷ xs) = timelines xs

  abbrev pub transports : List (Notice F) → List StartStopState
  transports [] = []
  transports (timeline_of tl ∷ xs) = transports xs
  transports (transport_of ss ∷ xs) = ss ∷ transports xs

  agreed-send :
      (f : List ℕ → Effect F) (msg : Option (List ℕ)) (e : Engine F)
      → agreed (send f msg e) ≡ agreed e
  unfolding agreed
  agreed-send f none e = refl
  agreed-send f (some msg) e = refl

  abbrev pub IsLatest : Agreed F → List (Notice F) → Agreed F → Type 0
  IsLatest before xs after =
      (after.session ≡ before.session)
      × IsGreatest origin_of after.timeline (before.timeline ∷ timelines xs)
      × IsGreatest stamp after.transport (before.transport ∷ transports xs)

  IsLatest-timeline :
      (tl : Timeline F) (xs : List (Notice F)) (before after : Agreed F) {heard : Agreed F}
      → heard ≡ record before { timeline = later origin_of before.timeline (clamp_tempo tl) }
      → IsLatest heard xs after
      → IsLatest before (timeline_of tl ∷ xs) after
  IsLatest-timeline tl xs before after step h =
      let (same, places, stamps) : IsLatest
          (record before { timeline = later origin_of before.timeline (clamp_tempo tl) }) xs after =
        rw step at h in
      (same, IsGreatest-later origin_of before.timeline _ after.timeline _ places, stamps)

  IsLatest-transport :
      (ss : StartStopState) (xs : List (Notice F)) (before after : Agreed F) {heard : Agreed F}
      → heard ≡ record before { transport = later stamp before.transport ss }
      → IsLatest heard xs after
      → IsLatest before (transport_of ss ∷ xs) after
  IsLatest-transport ss xs before after step h =
      let (same, places, stamps) : IsLatest
          (record before { transport = later stamp before.transport ss }) xs after =
        rw step at h in
      (same, places, IsGreatest-later stamp before.transport _ after.transport _ stamps)

  IsLatest-of :
      {before a b : Agreed F} (xs : List (Notice F))
      → a ≡ b
      → IsLatest before xs a
      → IsLatest before xs b
  IsLatest-of {before} xs e h = subst (IsLatest before xs) e h

module _ {F : Type 0} ⦃fl : Float64 F⦄ (w : World) where
  agreed-broadcast : (e : Engine F) → agreed (broadcast w e) ≡ agreed e
  unfolding agreed broadcast broadcast_now
  agreed-broadcast e = ground arith

  -- A timeline with a greater beat origin is another one, so it is taken over, clamped.
  agreed-update_session_timing :
      (tl : Timeline F) (x : GhostXForm F) (e : Engine F)
      → ltb_ℤ e.session_timeline.beat_origin.micro tl.beat_origin.micro ≡ true
      → agreed (update_session_timing w tl x e) ≡ record (agreed e) { timeline = clamp_tempo tl }
  unfolding agreed update_session_timing report_playing_if_changed publish_snapshot eq_timeline
      eq_beats clamp_tempo
  agreed-update_session_timing tl x e later = ground arith

  agreed-saw_session_timeline :
      (tl : Timeline F) (e : Engine F)
      → agreed (saw_session_timeline w e.session_id tl e)
        ≡ record (agreed e) { timeline = later origin_of e.session_timeline (clamp_tempo tl) }
  unfolding agreed saw_session_timeline greater clamp_tempo
  agreed-saw_session_timeline tl e = rw (eq_node_id_of_eq e.session_id e.session_id refl) (
      agreed-broadcast _
      ∙ chosen (ltb_ℤ e.session_timeline.beat_origin.micro tl.beat_origin.micro) refl)
    where
      chosen :
          (b : Bool)
          → ltb_ℤ e.session_timeline.beat_origin.micro tl.beat_origin.micro ≡ b
          → agreed (if b then update_session_timing w tl e.session_xform e else e)
            ≡ record (agreed e) { timeline = if b then clamp_tempo tl else e.session_timeline }
      chosen true h = agreed-update_session_timing tl e.session_xform e h
      chosen false h = refl

  agreed-report :
      (c : ClientStartStop) (e : Engine F)
      → agreed (publish_snapshot (report_playing_if_changed (record e { client_start_stop = c })))
        ≡ agreed e
  unfolding agreed publish_snapshot report_playing_if_changed
  agreed-report c e = ground arith

  agreed-relay :
      (b : Bool) (c : ClientStartStop) (relayed : Engine F)
      → agreed (
          if b
          then publish_snapshot
              (report_playing_if_changed (record relayed { client_start_stop = c }))
          else relayed)
        ≡ agreed relayed
  agreed-relay true c relayed = agreed-report c relayed
  agreed-relay false c relayed = refl

  agreed-handle_start_stop :
      (ss : StartStopState) (e : Engine F)
      → agreed (handle_start_stop_from_session w e.session_id ss e)
        ≡ record (agreed e) { transport = later stamp (agreed e).transport ss }
  unfolding handle_start_stop_from_session agreed
  agreed-handle_start_stop ss e =
      rw (eq_node_id_of_eq e.session_id e.session_id refl)
        (judged (leb_ℤ ss.timestamp e.session_start_stop.timestamp) refl)
    where
      relayed : Engine F
      relayed = broadcast w (record e { session_start_stop = ss })

      newest : Engine F
      newest =
          if relayed.start_stop_sync && not (is_empty ss)
          then publish_snapshot (
              report_playing_if_changed (record relayed {
                client_start_stop =
                    start_stop_session_to_client ss relayed.session_timeline relayed.session_xform;
              }))
          else relayed

      judged :
          (old : Bool)
          → leb_ℤ ss.timestamp e.session_start_stop.timestamp ≡ old
          → agreed (if old then e else newest)
            ≡ record (agreed e) { transport = later stamp e.session_start_stop ss }
      judged true old =
          let kept : later stamp e.session_start_stop ss ≡ e.session_start_stop = ground arith in
          ap (λ t. record (agreed e) { transport = t }) (sym kept)
      judged false new =
          let taken : later stamp e.session_start_stop ss ≡ ss = ground arith in
          agreed-relay _ _ relayed
          ∙ agreed-broadcast (record e { session_start_stop = ss })
          ∙ ap (λ t. record (agreed e) { transport = t }) (sym taken)

  -- The engine hears a notice of its session.
  unfoldable pub hear : NodeId → Notice F → Engine F → Engine F
  unfolding saw_session_timeline handle_start_stop_from_session
  hear sid (timeline_of tl) e = saw_session_timeline w sid tl e
  hear sid (transport_of ss) e = handle_start_stop_from_session w sid ss e

  unfoldable pub hear_all : NodeId → List (Notice F) → Engine F → Engine F
  unfolding hear
  hear_all sid [] e = e
  hear_all sid (x ∷ xs) e = hear_all sid xs (hear sid x e)

  in_session :
      (heard : Engine F) (xs : List (Notice F)) {sid : NodeId}
      → heard.session_id ≡ sid
      → IsLatest (agreed heard) xs (agreed (hear_all heard.session_id xs heard))
      → IsLatest (agreed heard) xs (agreed (hear_all sid xs heard))
  in_session heard xs same h = IsLatest-of xs (ap (λ s. agreed (hear_all s xs heard)) same) h

  -- An engine that hears timelines and transport states of its session, in any number and order, ends
  -- up with one of these timelines, whole but for the clamp of its tempo, or its own, and none of them
  -- has a greater beat origin; and with one of these transport states, or its own, and none of them has
  -- a greater timestamp. It stays in the session. Which one of several with the greatest origin or
  -- timestamp it takes is left open.
  pub hear_all-IsLatest :
      (xs : List (Notice F)) (e : Engine F)
      → IsLatest (agreed e) xs (agreed (hear_all e.session_id xs e))
  unfolding hear_all hear agreed
  hear_all-IsLatest [] e = (refl, (inl refl, (omega arith, tt)), (inl refl, (omega arith, tt)))
  hear_all-IsLatest (timeline_of tl ∷ xs) e =
      let heard = saw_session_timeline w e.session_id tl e in
      let step = agreed-saw_session_timeline tl e in
      let same : heard.session_id ≡ e.session_id = ap (λ a. a.session) step in
      IsLatest-timeline tl xs (agreed e) _ step
        (in_session heard xs same (hear_all-IsLatest xs heard))
  hear_all-IsLatest (transport_of ss ∷ xs) e =
      let heard = handle_start_stop_from_session w e.session_id ss e in
      let step = agreed-handle_start_stop ss e in
      let same : heard.session_id ≡ e.session_id = ap (λ a. a.session) step in
      IsLatest-transport ss xs (agreed e) _ step
        (in_session heard xs same (hear_all-IsLatest xs heard))
