-- ===== src/Examples/Passes.antt =====
-- The time, and the pass of a satellite.
use uhf_gs_csp_software.Common.{◌+◌, ◌+ℤ◌, ◌≡◌, ◌≢◌, refl, arith, ℤ, pos, negsuc, List}
use uhf_gs_csp_software.World.{Call, Env, ok, no_fuel, initial}
use uhf_gs_csp_software.Timestamp.{
  Civil, civil, in_year, count_years, count_months, in_month, split_day, is_leap_year, year_seconds,
}
use uhf_gs_csp_software.Timestamp.Calendar.{Reads, civil-Reads}
use uhf_gs_csp_software.Tracker.{follow}
use uhf_gs_csp_software.Tracker.Following.{slept, IsClock, follow_ends}
use uhf_gs_csp_software.Examples.Scene.{scene, answers}

civil-Reads_example : (c : Civil) × (civil 1970 (pos 1700000000) ≡ ok c) × Reads 1700000000 c
civil-Reads_example = civil-Reads 1700000000 (omega arith)

-- What is shown of the first second of February 1970.
abbrev last_of_january : Civil
last_of_january = record {
  year = 1970;
  mon = 1;
  day = pos 32;
  hour = pos 0;
  min = pos 0;
  sec = pos 0;
}

shown : civil 1970 (pos 2678400) ≡ ok last_of_january
unfolding civil in_year count_years count_months in_month split_day is_leap_year year_seconds ◌+ℤ◌
shown = refl

-- The satellite stands below the horizon, or past the zenith of the antenna.
abbrev low_answers : List Call → Call → ℤ
low_answers t Call.get_ele = negsuc 9
low_answers t c = answers t c

abbrev high_answers : List Call → Call → ℤ
high_answers t Call.get_ele = pos 91
high_answers t c = answers t c

abbrev low_scene : Env
low_scene = record scene { answer = low_answers }

abbrev high_scene : Env
high_scene = record scene { answer = high_answers }

-- A clock that stands at 1000 and runs with the sleeps.
abbrev clock_answers : List Call → Call → ℤ
clock_answers t Call.clock_get_time = pos (1000 + slept t)
clock_answers t c = answers t c

abbrev clocked : Env
clocked = record scene { answer = clock_answers }

clocked-IsClock : IsClock clocked 1000
clocked-IsClock = record { runs = λ t h. omega arith }

follow_ends_example : (follow 100 (pos 1100) 1000 clocked initial).0 ≢ no_fuel
follow_ends_example =
    follow_ends 100 1000 1100 1000 clocked initial clocked-IsClock (omega arith) (omega arith)
      (omega arith)
