-- ===== src/Timestamp.antt =====
-- src/get_timestamp.c: the time as text, by which the saved packets are named.
pub mod Loops
pub mod Calendar
pub mod Ends
use uhf_gs_csp_software.Common.{
  ℕ, zero, suc, ◌+◌, ◌-◌, ◌*◌, ◌%◌, ◌^◌, Bool, true, false, ◌&&◌, ◌||◌, not, List, [], ◌∷◌, ◌++◌,
  Bytes, codes, ltb, ◌==◌, if◌then◌else◌, Option, none, some, get_elem?, ℤ, pos, negsuc, ◌+ℤ◌, ◌-ℤ◌,
  ltb_ℤ, is_neg, neg_ℕ, quot_ℤ, rem_ℤ, to_u32, signed32,
}
use uhf_gs_csp_software.Common.Decimal.{print, print_zeros, print_blanks}
use uhf_gs_csp_software.World.{
  Call, Prog, Result, ok, undefined, no_fuel, exit, pure, stop, ◌>>=◌, call,
}

-- the macro `isLeapYear`
unfoldable pub is_leap_year : ℕ → Bool
is_leap_year x = (x % 4 == 0) && (not (x % 100 == 0) || (x % 400 == 0))

abbrev pub day_seconds : ℕ
day_seconds = 24 * 60 * 60

unfoldable pub year_seconds : ℕ → ℕ
year_seconds year = (if is_leap_year year then 366 else 365) * day_seconds

-- `daysl` and `days`
abbrev pub month_days : Bool → List ℕ
month_days true = 31 ∷ 29 ∷ 31 ∷ 30 ∷ 31 ∷ 30 ∷ 31 ∷ 31 ∷ 30 ∷ 31 ∷ 30 ∷ 31 ∷ []
month_days false = 31 ∷ 28 ∷ 31 ∷ 30 ∷ 31 ∷ 30 ∷ 31 ∷ 31 ∷ 30 ∷ 31 ∷ 30 ∷ 31 ∷ []

-- The first loop: the year and the seconds left in it.
unfoldable pub count_years : ℕ → ℕ → ℕ → Result (ℕ × ℕ)
count_years zero year s = no_fuel
count_years (suc f) year s =
    let rest = count_years f (year + 1) (s - year_seconds year) in
    if ltb (year_seconds year) s then rest else ok (year, s)

-- The second loop, from month `mon`; a read past the end of the table is undefined. The seconds of
-- January before the loop are those of the table's first entry.
unfoldable pub count_months : ℕ → List ℕ → ℕ → ℕ → Result (ℕ × ℕ)
count_months zero daysp mon s = no_fuel
count_months (suc f) daysp mon s = elim (get_elem? daysp (mon - 1)) [
  | none ↦ undefined
  | some d ↦
      let rest = count_months f daysp (mon + 1) (s - d * day_seconds) in
      if ltb (d * day_seconds) s then rest else ok (mon, s)
]

pub record Civil : Type 0 where
  pub year : ℕ
  pub mon : ℕ
  pub day : ℤ
  pub hour : ℤ
  pub min : ℤ
  pub sec : ℤ

-- The divisions behind the loops.
unfoldable pub split_day : ℕ → ℕ → ℤ → Civil
split_day year mon s =
    let s1 = rem_ℤ s day_seconds in
    let s2 = rem_ℤ s1 (60 * 60) in
    record {
      year = year;
      mon = mon;
      day = quot_ℤ s day_seconds +ℤ pos 1;
      hour = quot_ℤ s1 (60 * 60);
      min = quot_ℤ s2 60;
      sec = rem_ℤ s2 60;
    }

-- The divisions run behind a loop that ended.
unfoldable pub in_month : ℕ → Result (ℕ × ℕ) → Result Civil
in_month year (ok (mon, left)) = ok (split_day year mon (pos left))
in_month year (exit n) = exit n
in_month year undefined = undefined
in_month year no_fuel = no_fuel

unfoldable pub in_year : Result (ℕ × ℕ) → Result Civil
in_year (ok (year, s)) = in_month year (count_months 13 (month_days (is_leap_year year)) 1 s)
in_year (exit n) = exit n
in_year undefined = undefined
in_year no_fuel = no_fuel

-- The loops do not run on a negative `s`. A hundred years cover an `int` of seconds.
unfoldable pub civil : ℕ → ℤ → Result Civil
civil year_base (negsuc n) = ok (split_day year_base 1 (negsuc n))
civil year_base (pos n) = in_year (count_years 100 year_base n)

-- `%02d-%02d-%4d %02d:%02d:%02d`
unfoldable pub date_text : Civil → Bytes
unfolding print_zeros print_blanks
date_text c =
    print_zeros 2 c.day
    ++ (b'-'
        ∷ (print_zeros 2 (pos c.mon)
            ++ (b'-'
                ∷ (print_blanks 4 (pos c.year)
                    ++ (b' '
                        ∷ (print_zeros 2 c.hour
                            ++ (b':' ∷ (print_zeros 2 c.min ++ (b':' ∷ print_zeros 2 c.sec)))))))))

unfoldable pub counted : ℤ → Bytes → Bytes → Bytes
unfolding print
counted n unit rest = print n ++ (unit ++ rest)

-- The texts for a base other than 1970, from the largest unit that is positive.
unfoldable pub span_text : ℕ → Civil → Bytes
unfolding counted
span_text sign c =
    let day = c.day -ℤ pos 1 in
    let seconds = counted c.sec (codes " seconds") [] in
    let minutes = counted c.min (codes " minutes ") seconds in
    let hours = counted c.hour (codes " hours ") minutes in
    let days = counted day (codes " days ") hours in
    let months = counted (pos (c.mon - 1)) (codes " months ") days in
    let years = counted (pos c.year) (codes " years ") months in
    sign
    ∷ (if ltb 0 c.year
        then years
        else if ltb 0 (c.mon - 1)
        then months
        else if ltb_ℤ (pos 0) day
        then days
        else if ltb_ℤ (pos 0) c.hour
        then hours
        else if ltb_ℤ (pos 0) c.min
        then minutes
        else seconds)

-- `(int)utime`, behind the change of sign
abbrev pub seconds_of : ℤ → ℤ
seconds_of (pos n) = signed32 (n % 2 ^ 32)
seconds_of (negsuc n) = signed32 (suc n % 2 ^ 32)

unfoldable pub text_of : ℤ → ℕ → Result Civil → Result Bytes
text_of utime year_base (ok c) =
    ok
      (if year_base == 1970 then date_text c else span_text (if is_neg utime then b'-' else b' ') c)
text_of utime year_base (exit n) = exit n
text_of utime year_base undefined = undefined
text_of utime year_base no_fuel = no_fuel

unfoldable pub get_format_timestamp : ℤ → ℕ → Result Bytes
get_format_timestamp utime year_base = text_of utime year_base (civil year_base (seconds_of utime))

-- `clock_get_time` fills two 32-bit words, the seconds and the nanoseconds; its answer is the
-- 64-bit number that the code reads at their place, with the seconds in the low word.
unfoldable pub get_time : Prog Bytes
get_time = do
  converted_time ← call Call.clock_get_time
  stop (get_format_timestamp (converted_time +ℤ pos 28800) 1970)
