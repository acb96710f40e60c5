-- ===== src/Timing.antt =====
-- src/ctime.h, src/ctimeout.h and src/cmeanfrequency.h: moments and periods in seconds and
-- microseconds, the timer of an event, and the count of events over the last period. A `long`
-- holds the numbers of a moment as they are; periods come as moments, not as `double`s.
pub mod Moments
pub mod Normal
pub mod Timeouts
pub mod Window
pub mod Loops
pub mod Sums
pub mod Setup
use verlihub.Base.{
  ℕ, zero, suc, ◌+◌, ◌-◌, ◌*◌, ◌%◌, ◌^◌, Bool, true, false, ◌&&◌, ◌||◌, not, List, [], ℤ, pos,
  negsuc, ◌+ℤ◌, ◌-ℤ◌, lt_int, div_int, mod_int, mul_int, ◌==◌, ltb, leb, if◌then◌else◌, length,
  get_or, set, replicate,
}
use verlihub.Run.{Run, ok, fault, out_of_fuel, ◌>>=◌, at}

pub record Time : Type 0 where
  pub sec : ℤ
  pub usec : ℤ

-- The three steps of `Normalize`.
unfoldable pub carry_seconds : Time → Time
carry_seconds t =
    if not (lt_int t.usec (pos 1000000)) || not (lt_int (pos 0 -ℤ pos 1000000) t.usec)
    then record { sec = t.sec +ℤ div_int t.usec 1000000; usec = mod_int t.usec 1000000 }
    else t

unfoldable pub borrow_negative : Time → Time
borrow_negative t =
    if lt_int t.sec (pos 0) && lt_int (pos 0) t.usec
    then record { sec = t.sec +ℤ pos 1; usec = t.usec -ℤ pos 1000000 }
    else t

unfoldable pub borrow_positive : Time → Time
borrow_positive t =
    if lt_int (pos 0) t.sec && lt_int t.usec (pos 0)
    then record { sec = t.sec -ℤ pos 1; usec = t.usec +ℤ pos 1000000 }
    else t

unfoldable pub normalize : Time → Time
normalize t = borrow_positive (borrow_negative (carry_seconds t))

unfoldable pub plus : Time → Time → Time
plus a b = normalize (record { sec = a.sec +ℤ b.sec; usec = a.usec +ℤ b.usec })

unfoldable pub minus : Time → Time → Time
minus a b = normalize (record { sec = a.sec -ℤ b.sec; usec = a.usec -ℤ b.usec })

-- `operator/` by a positive number
unfoldable pub divided : Time → ℕ → Time
divided t n = normalize (record {
  sec = div_int t.sec n;
  usec = div_int (t.usec +ℤ mul_int (mod_int t.sec n) 1000000) n;
})

unfoldable pub before : Time → Time → Bool
before a b =
    if lt_int a.sec b.sec then true else if lt_int b.sec a.sec then false else lt_int a.usec b.usec

abbrev is_zero : ℤ → Bool
is_zero (pos n) = n == 0
is_zero (negsuc n) = false

-- `operator bool`
unfoldable pub is_set : Time → Bool
is_set t = not (is_zero t.sec && is_zero t.usec)

pub record TimeOut : Type 0 where
  pub min_delay : Time
  pub max_delay : Time
  pub last : Time

-- The results 0, -1 and -2 of `Check`.
pub data Verdict : Type 0 where
  in_time too_early too_late : Verdict

unfoldable pub reset_timer : TimeOut → Time → TimeOut
reset_timer o now = record o { last = now }

unfoldable pub disable : TimeOut → TimeOut
disable o = record o { last = record { sec = pos 0; usec = pos 0 } }

unfoldable pub check : TimeOut → Time → Bool → Verdict × TimeOut
check o now event =
    if not (is_set o.last)
    then (Verdict.in_time, o)
    else if event && is_set o.min_delay && before (minus now o.last) o.min_delay
    then (Verdict.too_early, o)
    else if is_set o.max_delay && before o.max_delay (minus now o.last)
    then (Verdict.too_late, o)
    else (Verdict.in_time, if event then reset_timer o now else o)

-- `bits` is the width of the counters, the template's `T`.
pub record Frequency : Type 0 where
  pub bits : ℕ
  pub over_period : Time
  pub period_part : Time
  pub start : Time
  pub end : Time
  pub part : Time
  pub resolution : ℕ
  pub counts : List ℕ
  pub start_idx : ℕ
  pub num_fill : ℕ

unfoldable pub reset : Frequency → Time → Frequency
reset f now = record f {
  counts = replicate (length f.counts) 0;
  start = now;
  end = plus now f.over_period;
  num_fill = 0;
  start_idx = 0;
  part = plus now f.period_part;
}

-- The constructor with a resolution, whose array has `width` cells.
unfoldable pub new_frequency : ℕ → ℕ → Time → Time → ℕ → Frequency
new_frequency bits width now per res =
    reset
      (record {
        bits = bits;
        over_period = per;
        period_part = (if ltb 0 res then divided per res else per);
        start = now;
        end = now;
        part = now;
        resolution = res;
        counts = replicate width 0;
        start_idx = 0;
        num_fill = 0;
      })
      now

unfoldable pub set_period : Frequency → Time → Frequency
set_period f per = record f {
  over_period = per;
  period_part = (if ltb 0 f.resolution then divided per f.resolution else per);
}

-- `Shift` where the index is inside.
abbrev pub shifted : Frequency → Frequency
shifted f = record f {
  end = plus f.end f.period_part;
  start = plus f.start f.period_part;
  counts = set f.counts f.start_idx 0;
  num_fill = f.num_fill - 1;
  start_idx =
      (if leb f.resolution (f.start_idx + 1)
        then f.start_idx + 1 - f.resolution
        else f.start_idx + 1);
}

unfoldable pub shift : Frequency → Run Frequency
shift f = at f.counts f.start_idx >>= (λ c. ok (shifted f))

-- `while (mEnd < now) Shift();` with the number of turns that it may take.
unfoldable pub shift_until : ℕ → Frequency → Time → Run Frequency
shift_until zero f now = if before f.end now then fault out_of_fuel else ok f
shift_until (suc n) f now =
    if before f.end now then shift f >>= (λ g. shift_until n g now) else ok f

-- `while ((mPart < now) && (mNumFill < mResolution))` with the number of turns that it may take.
unfoldable pub fill_until : ℕ → Frequency → Time → Run Frequency
fill_until zero f now =
    if before f.part now && ltb f.num_fill f.resolution then fault out_of_fuel else ok f
fill_until (suc n) f now =
    let next = record f { part = plus f.part f.period_part; num_fill = f.num_fill + 1 } in
    let rest = fill_until n next now in
    if before f.part now && ltb f.num_fill f.resolution then rest else ok f

unfoldable pub adjust : Frequency → Time → Run Frequency
adjust f now =
    if before f.end now
    then if before (plus f.end f.over_period) now
      then ok (reset f now)
      else shift_until (2 * f.resolution) f now
    else if ltb f.num_fill f.resolution
    then fill_until (f.resolution - f.num_fill) f now
    else ok f

unfoldable pub insert : Frequency → Time → ℕ → Run Frequency
insert f now amount = do
  g ← adjust f now
  let i =
      if ltb 0 g.resolution
      then (g.start_idx + g.num_fill) % g.resolution
      else g.start_idx + g.num_fill
  c ← at g.counts i
  ok (record g { counts = set g.counts i ((c + amount) % 2 ^ g.bits) })

-- The loop of `CountAll` over `n` parts, from index `j`.
unfoldable pub sum_parts : ℕ → Frequency → ℕ → ℕ → Run ℕ
sum_parts zero f j sum = ok sum
sum_parts (suc n) f j sum = do
  c ← at f.counts j
  sum_parts n f (if leb f.resolution (j + 1) then 0 else j + 1) ((sum + c) % 2 ^ f.bits)

unfoldable pub count_all : Frequency → Time → Run (ℕ × Frequency)
count_all f now = do g ← adjust f now; sum ← sum_parts g.num_fill g g.start_idx 0; ok (sum, g)
