-- ===== src/Timestamp/Calendar.antt =====
-- The date and time that src/get_timestamp.c makes of a number of seconds, against the Gregorian
-- calendar.
use native.Mathlib.Decide.{dec_lt}
use uhf_gs_csp_software.Common.{
  ℕ, ◌+◌, ◌-◌, ◌*◌, ◌/◌, ◌%◌, ◌^◌, ◌<◌, ◌≤◌, ◌≡◌, refl, ap, Bool, true, false, List, some,
  get_elem?, length, arith, ◌≢◌, pos, ◌+ℤ◌,
}
use uhf_gs_csp_software.World.{Env, Station, Call, called, Result, ok, exit, undefined, no_fuel}
use uhf_gs_csp_software.Timestamp.Loops.{
  sum, days_before_month, days_before_year, MonthOf, count_months-MonthOf, YearOf,
  count_years-YearOf,
}
use uhf_gs_csp_software.Timestamp.{
  Civil, is_leap_year, day_seconds, year_seconds, month_days, split_day, in_month, in_year, civil,
  get_time, get_format_timestamp, text_of, date_text, seconds_of,
}

-- The number of days of month `mon` of `year`.
abbrev pub IsMonthLength : ℕ → ℕ → ℕ → Type 0
IsMonthLength year mon d = get_elem? (month_days (is_leap_year year)) (mon - 1) ≡ some d

-- `c` is a reading of the moment `n` seconds after 1970-01-01 00:00:00: its parts add up to that
-- moment and are in their ranges, but that midnight behind a month's last day may be
-- read as one more day of that month.
pub record Reads (n : ℕ) (c : Civil) : Type 0 where
  pub month_length : ℕ
  pub day : ℕ
  pub hour : ℕ
  pub min : ℕ
  pub sec : ℕ
  pub is_day : c.day ≡ pos day
  pub is_hour : c.hour ≡ pos hour
  pub is_min : c.min ≡ pos min
  pub is_sec : c.sec ≡ pos sec
  pub year_in : 1970 ≤ c.year
  pub month_in : (1 ≤ c.mon) × (c.mon ≤ 12)
  pub has_days : IsMonthLength c.year c.mon month_length
  pub day_in : (1 ≤ day) × (day ≤ month_length + 1)
  pub past_end : month_length < day → (hour ≡ 0) × (min ≡ 0) × (sec ≡ 0)
  pub time_in : (hour < 24) × (min < 60) × (sec < 60)
  pub exact :
      (days_before_year c.year
            + days_before_month (month_days (is_leap_year c.year)) c.mon
            + (day - 1))
          * day_seconds
        + hour * 3600
        + min * 60
        + sec
      ≡ n + 719162 * day_seconds

-- No moment but the first of 1970 is read as midnight of a month's first day.
abbrev NeverFirst : ℕ → Civil → Type 0
NeverFirst n c = c.day ≡ pos 1 → c.hour ≡ pos 0 → c.min ≡ pos 0 → c.sec ≡ pos 0 → n ≡ 0

split_day-Reads :
    (n year mon d left : ℕ)
    → 1970 ≤ year
    → 1 ≤ mon
    → mon ≤ 12
    → IsMonthLength year mon d
    → left ≤ d * day_seconds
    → (days_before_year year + days_before_month (month_days (is_leap_year year)) mon) * day_seconds
        + left
      ≡ n + 719162 * day_seconds
    → Reads n (split_day year mon (pos left))
unfolding split_day ◌+ℤ◌
split_day-Reads n year mon d left y m1 m2 at fits e = record {
  month_length = d;
  day = left / day_seconds + 1;
  hour = left % day_seconds / 3600;
  min = left % day_seconds % 3600 / 60;
  sec = left % day_seconds % 3600 % 60;
  is_day = ground arith;
  is_hour = refl;
  is_min = refl;
  is_sec = refl;
  year_in = y;
  month_in = (m1, m2);
  has_days = at;
  day_in = omega arith;
  past_end = λ h. omega arith;
  time_in = omega arith;
  exact = omega arith;
}

split_day-NeverFirst :
    (n year mon left : ℕ) → (0 < n → 0 < left) → NeverFirst n (split_day year mon (pos left))
unfolding split_day ◌+ℤ◌
split_day-NeverFirst n year mon left p d h m s = ground arith

sum-months : (year : ℕ) → sum (month_days (is_leap_year year)) * day_seconds ≡ year_seconds year
unfolding year_seconds
sum-months year = ground arith

length-months : (b : Bool) → length (month_days b) ≡ 12
length-months true = refl
length-months false = refl

-- A reading of moment `n` by a loop that ended.
abbrev Read : ℕ → Result Civil → Type 0
Read n (ok c) = Reads n c × NeverFirst n c
Read n (exit k) = ⊥
Read n undefined = ⊥
Read n no_fuel = ⊥

start_of_year :
    (xs : List ℕ) (mon s left : ℕ)
    → days_before_month xs mon * day_seconds + left ≡ s
    → 1 ≤ mon
    → (1 < mon → 0 < left)
    → ¬ (0 < left)
    → s ≡ 0
start_of_year xs mon s left e m q z = elim (dec_lt 1 mon) [
  | yes later ↦ absurd (z (q later))
  | no first ↦
      let january : mon ≡ 1 = omega arith in omega (arith, ap (days_before_month xs) january)
]

start_of_calendar :
    (year s n : ℕ)
    → 1970 ≤ year
    → (1970 < year → 0 < s)
    → days_before_year year * day_seconds + s ≡ n + 719162 * day_seconds
    → s ≡ 0
    → n ≡ 0
unfolding days_before_year
start_of_calendar year s n y p e z = elim (dec_lt 1970 year) [
  | yes later ↦ absurd (omega (arith, p later))
  | no first ↦ omega arith
]

in_month-Read :
    (n year s : ℕ) (r : Result (ℕ × ℕ))
    → YearOf (n + 719162 * day_seconds) (ok (year, s))
    → MonthOf (month_days (is_leap_year year)) s r
    → Read n (in_month year r)
unfolding in_month
in_month-Read n year s (ok (mon, left)) (y, e, fits, p) (m1, m2, e', q, (d, at, le)) = (
  split_day-Reads n year mon d left y m1 (omega (arith, length-months (is_leap_year year))) at le
      (omega arith),
  split_day-NeverFirst n year mon left (λ later. elim (dec_lt 0 left) [
    | yes l ↦ l
    | no none_left ↦ absurd (
        omega (
          arith,
          none_left,
          start_of_year (month_days (is_leap_year year)) mon s left e' m1 q,
          start_of_calendar year s n y p e,
        ))
  ]),
)
in_month-Read n year s (exit k) h a = absurd a
in_month-Read n year s undefined h a = absurd a
in_month-Read n year s no_fuel h a = absurd a

in_year-Read :
    (n : ℕ) (r : Result (ℕ × ℕ)) → YearOf (n + 719162 * day_seconds) r → Read n (in_year r)
unfolding in_year
in_year-Read n (ok (year, s)) h = in_month-Read n year s _ h (
    count_months-MonthOf (month_days (is_leap_year year)) s 13 0 1 s refl
      (omega (arith, length-months (is_leap_year year)))
      (omega (arith, length-months (is_leap_year year))) (omega arith)
      (omega (arith, h, sum-months year)) (λ later. absurd (omega arith)))
in_year-Read n (exit k) a = absurd a
in_year-Read n undefined a = absurd a
in_year-Read n no_fuel a = absurd a

civil-Read : (n : ℕ) → n < 2 ^ 31 → Read n (civil 1970 (pos n))
unfolding civil days_before_year
civil-Read n h = in_year-Read n _ (
    count_years-YearOf (n + 719162 * day_seconds) 100 1970 n (omega arith) (omega arith)
      (omega arith) (λ later. absurd (omega arith)))

Read-ok :
    (n : ℕ) (r : Result Civil) → Read n r → (c : Civil) × (r ≡ ok c) × Reads n c × NeverFirst n c
Read-ok n (ok c) (h, k) = (c, refl, h, k)
Read-ok n (exit k) a = absurd a
Read-ok n undefined a = absurd a
Read-ok n no_fuel a = absurd a

low_word :
    (secs nanos : ℕ)
    → secs + 28800 < 2 ^ 31
    → seconds_of (pos (secs + nanos * 2 ^ 32) +ℤ pos 28800) ≡ pos (secs + 28800)
unfolding ◌+ℤ◌
low_word secs nanos h = ground arith

-- For every second before 2^31 both loops end, and give a reading of that moment: parts in their
-- ranges that add up to it, but that midnight behind a month's last day may be one more day of that
-- month.
pub civil-Reads : (n : ℕ) → n < 2 ^ 31 → (c : Civil) × (civil 1970 (pos n) ≡ ok c) × Reads n c
civil-Reads n h = let (c, e, r, _) = Read-ok n _ (civil-Read n h) in (c, e, r)

-- The loops compare by `>`: the first second of a month, but for the epoch itself, is never given
-- as midnight of day 1.
pub civil-not_first :
    (n : ℕ) (c : Civil)
    → n < 2 ^ 31
    → 0 < n
    → civil 1970 (pos n) ≡ ok c
    → c.hour ≡ pos 0
    → c.min ≡ pos 0
    → c.sec ≡ pos 0
    → c.day ≢ pos 1
civil-not_first n c h later e hour min sec day =
    absurd (omega (arith, (rw e at (civil-Read n h)).1 day hour min sec))

-- `get_time` names the moment eight hours behind the clock's seconds, whatever its nanoseconds.
pub get_time-Reads :
    (secs nanos : ℕ) (e : Env) (s : Station)
    → secs + 28800 < 2 ^ 31
    → e.answer s.trace Call.clock_get_time ≡ pos (secs + nanos * 2 ^ 32)
    → (c : Civil) × (get_time e s ≡ (ok (date_text c), called Call.clock_get_time s))
      × Reads (secs + 28800) c
unfolding get_time get_format_timestamp text_of
get_time-Reads secs nanos e s h clock =
    let (c, shown, r) = civil-Reads (secs + 28800) h in
    (c, rw (clock, low_word secs nanos h, shown), r)
