-- ===== src/Reporter.antt =====
-- newSendErrorReporter of link/engine.go: the rate-limited log of failures to send. Times are in
-- nanoseconds from Go's zero time, as in the engine.
pub mod Accounting
use abletonlink_client_go.Base.{
  ℕ, zero, suc, ◌+◌, Bool, true, false, List, [], ◌∷◌, ◌&&◌, ◌++◌, if◌then◌else◌,
}
use abletonlink_client_go.Base.Int.{pos, ltb_ℤ}
use abletonlink_client_go.Engine.State.{time_sub}

-- 30 seconds.
abbrev pub report_interval : ℕ
report_interval = 30_000_000_000

-- The variables that the closure keeps. Of lastErr only whether it is nil is read.
pub record Reporter : Type 0 where
  pub last_report : ℕ
  pub has_failed : Bool
  pub suppressed : ℕ
  pub hint_shown : Bool

abbrev pub new_reporter : Reporter
new_reporter = record { last_report = 0; has_failed = false; suppressed = 0; hint_shown = false }

pub data LogLine : Type 0 where
  recovered_after send_failed : ℕ → LogLine
  hint : LogLine

-- A call with nil, or with an error, at a time.
pub data Sent : Type 0 where
  succeeded failed : ℕ → Sent

-- The variables after the call, and the lines that it logs, in order.
unfoldable pub report : Sent → Reporter → Reporter × List LogLine
report (succeeded now) r =
    if r.has_failed
    then (
      record r { has_failed = false; suppressed = 0; hint_shown = true },
      recovered_after (r.suppressed + 1) ∷ [],
    )
    else (r, [])
report (failed now) r =
    if r.has_failed && ltb_ℤ (time_sub now r.last_report) (pos report_interval)
    then (record r { suppressed = r.suppressed + 1 }, [])
    else (
      record { last_report = now; has_failed = true; suppressed = 0; hint_shown = true },
      send_failed r.suppressed ∷ (if r.hint_shown then [] else hint ∷ []),
    )

-- The calls of a run in turn, with all lines.
unfoldable pub report_all : List Sent → Reporter → Reporter × List LogLine
unfolding report
report_all [] r = (r, [])
report_all (x ∷ xs) r =
    let (next, lines) = report x r in let (last, more) = report_all xs next in (last, lines ++ more)
