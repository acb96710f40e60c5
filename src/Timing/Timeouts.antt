-- ===== src/Timing/Timeouts.antt =====
-- `cTimeOut::Check`
use verlihub.Base.{ℕ, ◌+◌, ◌≡◌, arith, Bool, true, false, ◌&&◌, ltb, ◌==◌, if◌then◌else◌}
use verlihub.Timing.{TimeOut, Verdict, check, reset_timer}
use verlihub.Timing.Moments.{micros, is_set-micros}
use verlihub.Timing.Normal.{minus-before_micros, micros-before_minus}

-- A timer, by its delays and its last event in microseconds.
abbrev pub timer : ℕ → ℕ → ℕ → TimeOut
timer shortest longest last = record {
  min_delay = micros shortest;
  max_delay = micros longest;
  last = micros last;
}

-- `Check` in microseconds: a timer that never saw an event accepts all and records nothing. Else an
-- event less than the minimal delay after the last one, or before it, is too early; what comes
-- more than the maximal delay after it is too late; a delay of 0 is no limit. Only an accepted
-- event becomes the last one.
pub check-micros :
    (shortest longest last now : ℕ) (event : Bool)
    → check (timer shortest longest last) (micros now) event ≡ (
        if last == 0
        then (Verdict.in_time, timer shortest longest last)
        else if event && ltb 0 shortest && ltb now (last + shortest)
        then (Verdict.too_early, timer shortest longest last)
        else if ltb 0 longest && ltb (last + longest) now
        then (Verdict.too_late, timer shortest longest last)
        else (Verdict.in_time, timer shortest longest (if event then now else last)))
unfolding check reset_timer
check-micros shortest longest last now true =
    rw
      (
        is_set-micros last,
        is_set-micros shortest,
        is_set-micros longest,
        minus-before_micros,
        micros-before_minus,
      )
      (ground arith)
check-micros shortest longest last now false =
    rw (is_set-micros last, is_set-micros longest, micros-before_minus) (ground arith)
