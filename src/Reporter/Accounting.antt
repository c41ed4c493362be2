-- ===== src/Reporter/Accounting.antt =====
-- What the log of failures to send says about the failures.
use abletonlink_client_go.Base.{
  ℕ, suc, ◌+◌, ◌-◌, ◌≤◌, ◌≡◌, arith, List, [], ◌∷◌, ◌++◌, if◌then◌else◌,
}
use abletonlink_client_go.Reporter.{
  Reporter, new_reporter, LogLine, recovered_after, send_failed, hint, Sent, succeeded, failed,
  report, report_all,
}

abbrev pub failures : List Sent → ℕ
failures [] = 0
failures (succeeded now ∷ xs) = failures xs
failures (failed now ∷ xs) = suc (failures xs)

-- The failures that a line stands for: a failure line for its own and for those that were suppressed
-- before it; a recovery line for those that were suppressed since the last failure line, which it
-- counts as well.
abbrev pub told : LogLine → ℕ
told (send_failed n) = suc n
told (recovered_after n) = n - 1
told hint = 0

abbrev pub told_all : List LogLine → ℕ
told_all [] = 0
told_all (l ∷ ls) = told l + told_all ls

abbrev pub hints : List LogLine → ℕ
hints [] = 0
hints (hint ∷ ls) = suc (hints ls)
hints (send_failed n ∷ ls) = hints ls
hints (recovered_after n ∷ ls) = hints ls

pub told_all-append : (xs ys : List LogLine) → told_all (xs ++ ys) ≡ told_all xs + told_all ys
told_all-append [] ys = omega arith
told_all-append (x ∷ xs) ys = omega (arith, told_all-append xs ys)

hints-append : (xs ys : List LogLine) → hints (xs ++ ys) ≡ hints xs + hints ys
hints-append [] ys = omega arith
hints-append (hint ∷ xs) ys = omega (arith, hints-append xs ys)
hints-append (send_failed n ∷ xs) ys = hints-append xs ys
hints-append (recovered_after n ∷ xs) ys = hints-append xs ys

pub report-told :
    (x : Sent) (r : Reporter)
    → told_all (report x r).1 + (report x r).0.suppressed ≡ r.suppressed + failures (x ∷ [])
unfolding report
report-told (succeeded now) r = ground arith
report-told (failed now) r = ground arith

abbrev slack : Reporter → ℕ
slack r = if r.hint_shown then 0 else 1

report-hints : (x : Sent) (r : Reporter) → hints (report x r).1 + slack (report x r).0 ≤ slack r
unfolding report
report-hints (succeeded now) r = ground arith
report-hints (failed now) r = ground arith

told_all-report_all :
    (xs : List Sent) (r : Reporter)
    → told_all (report_all xs r).1 + (report_all xs r).0.suppressed ≡ r.suppressed + failures xs
unfolding report_all
told_all-report_all [] r = omega arith
told_all-report_all (succeeded now ∷ xs) r =
    let (next, lines) = report (succeeded now) r in
    omega (
      arith,
      told_all-append lines (report_all xs next).1,
      report-told (succeeded now) r,
      told_all-report_all xs next,
    )
told_all-report_all (failed now ∷ xs) r =
    let (next, lines) = report (failed now) r in
    omega (
      arith,
      told_all-append lines (report_all xs next).1,
      report-told (failed now) r,
      told_all-report_all xs next,
    )

hints-report_all :
    (xs : List Sent) (r : Reporter)
    → hints (report_all xs r).1 + slack (report_all xs r).0 ≤ slack r
unfolding report_all
hints-report_all [] r = omega arith
hints-report_all (x ∷ xs) r =
    let (next, lines) = report x r in
    omega
      (arith, hints-append lines (report_all xs next).1, report-hints x r, hints-report_all xs next)

-- Over any run of the reporter, the failure lines, with the numbers of suppressed failures that they
-- name, and the recovery lines, less the failure that a failure line has named, stand for all
-- failures but those that are still suppressed: each exactly once. The hint is logged at most once.
pub report_all_accounts :
    (xs : List Sent)
    → let (r, lines) = report_all xs new_reporter in
      (told_all lines + r.suppressed ≡ failures xs) × (hints lines ≤ 1)
report_all_accounts xs = (
  omega (arith, told_all-report_all xs new_reporter),
  omega (arith, hints-report_all xs new_reporter),
)
