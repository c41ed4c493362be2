-- ===== src/PeerState/Sizes.antt =====
-- The size of the session's identifier in a decoded peer state (link/peer_state.go).
use abletonlink_client_go.Base.{
  ℕ, ◌≡◌, inl, inr, refl, List, length, ◌==◌, if◌then◌else◌, ==_iff, Bool-cases,
}
use abletonlink_client_go.Float.{Float64}
use abletonlink_client_go.NodeId.{NodeId}
use abletonlink_client_go.Wire.{ok, err, bad_session_size, key_timeline, key_session}
use abletonlink_client_go.Wire.Kept.{
  OnOk, parsed, failed, OnOk-if, OnOk-decoded, OnOk-parse_entries,
}
use abletonlink_client_go.PeerState.{
  PeerState, peer_state_entry, decode_peer_state, decode_timeline_entry, decode_start_stop_entry,
  key_start_stop, key_meep_v4,
}

module _ {F : Type 0} ⦃fl : Float64 F⦄ where
  abbrev pub HasSession : PeerState F → Type 0
  HasSession s = length s.session_id ≡ 8

  -- Only eight bytes are taken for a session.
  session_entry :
      (s : PeerState F) (value : List ℕ)
      → OnOk HasSession (
          if length value == 8
          then ok (record s { node = record s.node { session_id = value } })
          else err bad_session_size)
  session_entry s value = elim (Bool-cases (length value == 8)) [
    | inl sized ↦ rw sized (parsed ((==_iff _ _).0 sized))
    | inr odd ↦ rw odd failed
  ]

  HasSession-entry :
      (s : PeerState F) (key : ℕ) (value : List ℕ)
      → HasSession s
      → OnOk HasSession (peer_state_entry s key value)
  unfolding peer_state_entry
  HasSession-entry s key value h =
      OnOk-if HasSession (key == key_timeline) _ _
        (OnOk-decoded HasSession (decode_timeline_entry value) _ (λ tl. parsed h))
        (OnOk-if HasSession (key == key_session) _ _ (session_entry s value) (
          OnOk-if HasSession (key == key_start_stop) _ _
            (OnOk-decoded HasSession (decode_start_stop_entry value) _ (λ ss. parsed h))
            (OnOk-if HasSession (key == key_meep_v4) _ _
              (OnOk-if HasSession (length value == 6) _ _ (parsed h) failed) (parsed h))))

  pub decode_peer_state-HasSession :
      (id : NodeId) (payload : List ℕ) → OnOk HasSession (decode_peer_state {F = F} id payload)
  unfolding decode_peer_state
  decode_peer_state-HasSession id payload =
      OnOk-parse_entries HasSession peer_state_entry HasSession-entry payload _ refl
