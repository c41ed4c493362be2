-- ===== src/Network/Send.antt =====
-- Sending datagrams, link/network.go: which socket a message leaves by, and what the reporter of
-- link/engine.go is told. Whether the k-th write succeeds, and the clock at the k-th report, are
-- parameters.
use abletonlink_client_go.Base.{
  ℕ, suc, ◌+◌, ◌≡◌, arith, Bool, List, [], ◌∷◌, ◌++◌, if◌then◌else◌, length, Bool-cases, inl, inr,
}
use abletonlink_client_go.PeerState.{UdpAddr}
use abletonlink_client_go.Engine.State.{
  Effect, sent_multicast, sent_to, sent_measurement, peers_callback, tempo_callback,
  start_stop_callback, panicked,
}
use abletonlink_client_go.Base.Results.{of_branches}
use abletonlink_client_go.Network.Receive.{IsSubsequence, nil, keep, skip}
use abletonlink_client_go.Network.{
  Socket, broadcast_socket, unicast_socket, measurement_socket, multicast_group,
}
use abletonlink_client_go.Reporter.{
  Reporter, new_reporter, LogLine, Sent, succeeded, failed, report,
}
use abletonlink_client_go.Reporter.Accounting.{told_all, told_all-append, report-told}

pub record Datagram : Type 0 where
  pub socket : Socket
  pub to : UdpAddr
  pub bytes : List ℕ

-- The datagrams that have left the host, the newest first; onError with the lines that it has logged;
-- and the number of writes.
pub record Sender : Type 0 where
  pub left : List Datagram
  pub on_error : Reporter
  pub lines : List LogLine
  pub writes : ℕ

abbrev pub new_sender : Sender
new_sender = record { left = []; on_error = new_reporter; lines = []; writes = 0 }

module _ {F : Type 0} where
  -- The datagrams that the messages among the effects call for, each with the socket that it has to
  -- leave by. The group of the Link protocol is 224.76.78.75, with port 20808.
  abbrev pub datagrams : List (Effect F) → List Datagram
  datagrams [] = []
  datagrams (sent_multicast msg ∷ es) =
      record {
        socket = broadcast_socket;
        to = record { ip = 224 ∷ 76 ∷ 78 ∷ 75 ∷ []; port = 20808 };
        bytes = msg;
      }
      ∷ datagrams es
  datagrams (sent_to msg to ∷ es) =
      record { socket = unicast_socket; to = to; bytes = msg } ∷ datagrams es
  datagrams (sent_measurement msg to ∷ es) =
      record { socket = measurement_socket; to = to; bytes = msg } ∷ datagrams es
  datagrams (peers_callback n ∷ es) = datagrams es
  datagrams (tempo_callback bpm ∷ es) = datagrams es
  datagrams (start_stop_callback playing ∷ es) = datagrams es
  datagrams (panicked ∷ es) = datagrams es

module _ (succeeds : ℕ → Datagram → Bool) (now : ℕ → ℕ) where
  unfoldable pub report_send : Sent → Sender → Sender
  unfolding report
  report_send x s =
      let (next, more) = report x s.on_error in
      record s { on_error = next; lines = s.lines ++ more; writes = suc s.writes }

  -- WriteToUDP and reportSend.
  unfoldable pub write_to_udp : Datagram → Sender → Sender
  unfolding report_send
  write_to_udp d s =
      if succeeds s.writes d
      then report_send (succeeded (now s.writes)) (record s { left = d ∷ s.left })
      else report_send (failed (now s.writes)) s

  unfoldable pub send_multicast : List ℕ → Sender → Sender
  unfolding write_to_udp
  send_multicast b s =
      write_to_udp (record { socket = broadcast_socket; to = multicast_group; bytes = b }) s

  unfoldable pub send_to : List ℕ → UdpAddr → Sender → Sender
  unfolding write_to_udp
  send_to b addr s = write_to_udp (record { socket = unicast_socket; to = addr; bytes = b }) s

  unfoldable pub send_measurement : List ℕ → UdpAddr → Sender → Sender
  unfolding write_to_udp
  send_measurement b addr s =
      write_to_udp (record { socket = measurement_socket; to = addr; bytes = b }) s

  module _ {F : Type 0} where
    -- The call that an effect of the engine is.
    unfoldable pub perform : Effect F → Sender → Sender
    unfolding send_multicast send_to send_measurement
    perform (sent_multicast msg) s = send_multicast msg s
    perform (sent_to msg to) s = send_to msg to s
    perform (sent_measurement msg to) s = send_measurement msg to s
    perform (peers_callback n) s = s
    perform (tempo_callback bpm) s = s
    perform (start_stop_callback playing) s = s
    perform panicked s = s

    -- The newest effect stands first.
    unfoldable pub perform_all : List (Effect F) → Sender → Sender
    unfolding perform
    perform_all [] s = s
    perform_all (x ∷ es) s = perform x (perform_all es s)

  -- The datagrams that have left are those that the messages call for, some of them left out.
  IsSubsequence-write :
      (d : Datagram) (s : Sender) (ds : List Datagram)
      → IsSubsequence s.left ds
      → IsSubsequence (write_to_udp d s).left (d ∷ ds)
  unfolding write_to_udp report_send
  IsSubsequence-write d s ds h =
      of_branches (λ (r : Sender). IsSubsequence r.left (d ∷ ds)) (succeeds s.writes d) _ _ (keep h)
        (skip h)

  IsSubsequence-perform_all :
      {F : Type 0} (es : List (Effect F))
      → IsSubsequence (perform_all es new_sender).left (datagrams es)
  unfolding perform_all perform send_multicast send_to send_measurement
  IsSubsequence-perform_all [] = nil
  IsSubsequence-perform_all (sent_multicast msg ∷ es) =
      IsSubsequence-write _ (perform_all es new_sender) _ (IsSubsequence-perform_all es)
  IsSubsequence-perform_all (sent_to msg to ∷ es) =
      IsSubsequence-write _ (perform_all es new_sender) _ (IsSubsequence-perform_all es)
  IsSubsequence-perform_all (sent_measurement msg to ∷ es) =
      IsSubsequence-write _ (perform_all es new_sender) _ (IsSubsequence-perform_all es)
  IsSubsequence-perform_all (peers_callback n ∷ es) = IsSubsequence-perform_all es
  IsSubsequence-perform_all (tempo_callback bpm ∷ es) = IsSubsequence-perform_all es
  IsSubsequence-perform_all (start_stop_callback playing ∷ es) = IsSubsequence-perform_all es
  IsSubsequence-perform_all (panicked ∷ es) = IsSubsequence-perform_all es

  -- The datagrams that have left, and the failures that the log accounts for.
  abbrev accounted : Sender → ℕ
  accounted s = told_all s.lines + s.on_error.suppressed + length s.left

  accounted-write : (d : Datagram) (s : Sender) → accounted (write_to_udp d s) ≡ suc (accounted s)
  unfolding write_to_udp report_send
  accounted-write d s = elim (Bool-cases (succeeds s.writes d)) [
    | inl well ↦
        let (next, more) = report (succeeded (now s.writes)) s.on_error in
        rw well (
          omega (
            arith,
            told_all-append s.lines more,
            report-told (succeeded (now s.writes)) s.on_error,
          ))
    | inr badly ↦
        let (next, more) = report (failed (now s.writes)) s.on_error in
        rw badly (
          omega
            (arith, told_all-append s.lines more, report-told (failed (now s.writes)) s.on_error))
  ]

  accounted-perform_all :
      {F : Type 0} (es : List (Effect F)) (s : Sender)
      → accounted (perform_all es s) ≡ length (datagrams es) + accounted s
  unfolding perform_all perform send_multicast send_to send_measurement
  accounted-perform_all [] s = omega arith
  accounted-perform_all (sent_multicast msg ∷ es) s =
      omega (arith, accounted-write _ (perform_all es s), accounted-perform_all es s)
  accounted-perform_all (sent_to msg to ∷ es) s =
      omega (arith, accounted-write _ (perform_all es s), accounted-perform_all es s)
  accounted-perform_all (sent_measurement msg to ∷ es) s =
      omega (arith, accounted-write _ (perform_all es s), accounted-perform_all es s)
  accounted-perform_all (peers_callback n ∷ es) s = accounted-perform_all es s
  accounted-perform_all (tempo_callback bpm ∷ es) s = accounted-perform_all es s
  accounted-perform_all (start_stop_callback playing ∷ es) s = accounted-perform_all es s
  accounted-perform_all (panicked ∷ es) s = accounted-perform_all es s

  -- However writes fail, and whatever the clock shows: the datagrams that leave the host are those that
  -- the messages among the engine's effects call for, with their bytes, addresses and sockets and in
  -- their order, less some; and as many as are missing are failures that the lines of the log stand for,
  -- or that are still suppressed.
  pub perform_all-accounts :
      {F : Type 0} (es : List (Effect F))
      → let s = perform_all es new_sender in
        IsSubsequence s.left (datagrams es)
        × (told_all s.lines + s.on_error.suppressed + length s.left ≡ length (datagrams es))
  perform_all-accounts es =
      (IsSubsequence-perform_all es, omega (arith, accounted-perform_all es new_sender))
