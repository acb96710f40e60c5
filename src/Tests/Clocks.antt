-- ===== src/Tests/Clocks.antt =====
-- Timers and counters of events.
use verlihub.Base.{
  ◌≡◌, ◌%◌, ◌^◌, ◌+◌, refl, arith, true, List, [], ◌∷◌, pos, negsuc, ◌==◌, if◌then◌else◌, get_or,
  set, replicate,
}
use verlihub.Run.{ok, ◌>>=◌, at, or_out_of_range, Returns}
use verlihub.Base.{get_elem?}
use verlihub.Timing.{
  Time, Verdict, Frequency, normalize, carry_seconds, borrow_negative, borrow_positive, plus, minus,
  divided, before, is_set, check, reset_timer, new_frequency, reset, set_period, shift, shift_until,
  fill_until, adjust, insert, sum_parts, count_all,
}
use verlihub.Timing.Moments.{micros}
use verlihub.Timing.Normal.{value, IsNormal, normalize-IsNormal}
use verlihub.Timing.Timeouts.{timer, check-micros}
use verlihub.Timing.Window.{IsWindow}
use verlihub.Timing.Loops.{Covers, adjust-Covers}
use verlihub.Timing.Sums.{window_sum, insert-sum, count_all-sum}
use verlihub.Timing.Setup.{
  adds_amount, reads_count, sets_period, handle, handle_all, new-IsWindow, handle_all-new, Event,
}

clock : Unit {0}
unfolding normalize carry_seconds borrow_negative borrow_positive plus minus divided before is_set
    check reset_timer new_frequency reset set_period shift shift_until fill_until adjust insert
    sum_parts count_all micros get_or set replicate at or_out_of_range get_elem? handle handle_all
clock = tt

normal_negative :
    normalize (record { sec = pos 3; usec = negsuc 1500000 })
    ≡ record { sec = pos 1; usec = pos 499999 }
unfolding clock
normal_negative = refl

too_early : (check (timer 2000000 0 5000000) (micros 6000000) true).0 ≡ Verdict.too_early
unfolding clock
too_early = refl

abbrev counter : Frequency
counter = new_frequency 32 20 (micros 1000000000) (micros 90000000) 20

abbrev events : List Event
events =
    adds_amount 1000000000 7
    ∷ adds_amount 1005000000 3
    ∷ reads_count 1010000000
    ∷ sets_period 60000000
    ∷ []

counts_in_part : handle_all counter events >>= (λ f. ok (window_sum f)) ≡ ok 10
unfolding clock
counts_in_part = refl

normalize-IsNormal_example :
    let t : Time = record { sec = pos 3; usec = negsuc 1500000 } in
    (value (normalize t) ≡ value t) × IsNormal (normalize t)
normalize-IsNormal_example = normalize-IsNormal (record { sec = pos 3; usec = negsuc 1500000 })

check-micros_example :
    check (timer 2000000 9000000 5000000) (micros 6000000) true
    ≡ (Verdict.too_early, timer 2000000 9000000 5000000)
check-micros_example = check-micros 2000000 9000000 5000000 6000000 true

counter-IsWindow : IsWindow counter
counter-IsWindow =
    new-IsWindow 32 20 1000000000 90000000 20 (omega arith) (omega arith) (omega arith)

adjust-Covers_example :
    Returns (adjust counter (micros 1100000000)) (λ g. Covers counter g 1100000000)
adjust-Covers_example = adjust-Covers counter 1100000000 counter-IsWindow

count_all-sum_example : Returns (count_all counter (micros 1010000000)) λ r.
    Covers counter r.1 1010000000
    × (adjust counter (micros 1010000000) ≡ ok r.1)
    × (r.0 ≡ window_sum r.1 % 2 ^ r.1.bits)
count_all-sum_example = count_all-sum counter 1010000000 counter-IsWindow

insert-sum_example : Returns (insert counter (micros 1010000000) 5) λ g.
    Covers counter g 1010000000
    × ((a : Frequency)
        → adjust counter (micros 1010000000) ≡ ok a
        → window_sum g % 2 ^ g.bits
          ≡ (window_sum a + (if a.num_fill == a.resolution then 5 else 0)) % 2 ^ g.bits)
insert-sum_example = insert-sum counter 1010000000 5 counter-IsWindow

handle_all-new_example : Returns (handle_all counter events) IsWindow
handle_all-new_example =
    handle_all-new 32 20 1000000000 90000000 20 events (omega arith) (omega arith) (omega arith)
      (omega arith, tt)
