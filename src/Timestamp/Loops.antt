-- ===== src/Timestamp/Loops.antt =====
-- What the two loops of `get_format_timestamp` in src/get_timestamp.c count.
use native.Mathlib.Decide.{dec_lt}
use uhf_gs_csp_software.Common.{
  ℕ, zero, suc, ◌+◌, ◌-◌, ◌*◌, ◌/◌, ◌<◌, ◌≤◌, ◌≡◌, refl, List, [], ◌∷◌, some, get_elem?, take,
  length, arith, ltb, Bool-cases, ltb→lt, inl, inr,
}
use uhf_gs_csp_software.World.{Result, ok, exit, undefined, no_fuel}
use uhf_gs_csp_software.Timestamp.{
  is_leap_year, day_seconds, year_seconds, count_years, count_months,
}

abbrev pub sum : List ℕ → ℕ
sum [] = 0
sum (x ∷ xs) = x + sum xs

-- The days before month `mon` of a year with these months.
abbrev pub days_before_month : List ℕ → ℕ → ℕ
days_before_month daysp mon = sum (take (mon - 1) daysp)

-- The days of the Gregorian calendar from 0001-01-01 to the first day of a year.
unfoldable pub days_before_year : ℕ → ℕ
days_before_year year = let p = year - 1 in p * 365 + p / 4 - p / 100 + p / 400

get_elem?-total : (xs : List ℕ) (i : ℕ) → i < length xs → (d : ℕ) × (get_elem? xs i ≡ some d)
get_elem?-total [] i h = absurd (omega arith)
get_elem?-total (x ∷ xs) zero h = (x, refl)
get_elem?-total (x ∷ xs) (suc i) h = get_elem?-total xs i (omega arith)

sum-take-suc :
    (xs : List ℕ) (i d : ℕ) → get_elem? xs i ≡ some d → sum (take (suc i) xs) ≡ sum (take i xs) + d
sum-take-suc [] i d h = cc
sum-take-suc (x ∷ xs) zero d h = ground arith
sum-take-suc (x ∷ xs) (suc i) d h = omega (arith, sum-take-suc xs i d h)

sum-take_all : (xs : List ℕ) (i : ℕ) → length xs ≤ i → sum (take i xs) ≡ sum xs
sum-take_all [] zero h = refl
sum-take_all [] (suc i) h = refl
sum-take_all (x ∷ xs) zero h = absurd (omega arith)
sum-take_all (x ∷ xs) (suc i) h = omega (arith, sum-take_all xs i (omega arith))

-- What the second loop gives: a month of the table, and no more seconds than it has.
abbrev pub MonthOf : List ℕ → ℕ → Result (ℕ × ℕ) → Type 0
MonthOf xs n (ok (mon, left)) =
    (1 ≤ mon)
    × (mon ≤ length xs)
    × (days_before_month xs mon * day_seconds + left ≡ n)
    × (1 < mon → 0 < left)
    × ((d : ℕ) × (get_elem? xs (mon - 1) ≡ some d) × (left ≤ d * day_seconds))
MonthOf xs n (exit k) = ⊥
MonthOf xs n undefined = ⊥
MonthOf xs n no_fuel = ⊥

-- In the last month of the table the seconds left fit.
last_month_fits :
    (xs : List ℕ) (n i s d : ℕ)
    → get_elem? xs i ≡ some d
    → sum (take i xs) * day_seconds + s ≡ n
    → n ≤ sum xs * day_seconds
    → d * day_seconds < s
    → suc i < length xs
last_month_fits xs n i s d at e fits more = elim (dec_lt (suc i) (length xs)) [
  | yes p ↦ p
  | no q ↦ absurd (omega (arith, sum-take-suc xs i d at, sum-take_all xs (suc i) (omega arith)))
]

pub count_months-MonthOf :
    (xs : List ℕ) (n f i mon s : ℕ)
    → mon ≡ suc i
    → i < length xs
    → length xs ≤ i + f
    → sum (take i xs) * day_seconds + s ≡ n
    → n ≤ sum xs * day_seconds
    → (1 < mon → 0 < s)
    → MonthOf xs n (count_months f xs mon s)
unfolding count_months
count_months-MonthOf xs n zero i mon s m h fuel e fits p = absurd (omega arith)
count_months-MonthOf xs n (suc f) i mon s m h fuel e fits p =
    let (d, at) = get_elem?-total xs i h in
    let here : mon - 1 ≡ i = omega arith in
    rw (here, at, count_months)
      (elim (Bool-cases (ltb (d * day_seconds) s)) [
        | inl more ↦
            let left : d * day_seconds < s = ltb→lt _ _ more in
            rw more (
              count_months-MonthOf xs n f (suc i) (mon + 1) (s - d * day_seconds) (omega arith)
                (last_month_fits xs n i s d at e fits left) (omega arith)
                (omega (arith, sum-take-suc xs i d at)) fits (λ _. omega arith))
        | inr done ↦ rw (done, here) (omega arith, omega arith, e, p, (d, at, ground arith))
      ])

-- What the first loop gives: a year, and no more seconds than it has.
abbrev pub YearOf : ℕ → Result (ℕ × ℕ) → Type 0
YearOf n (ok (year, left)) =
    (1970 ≤ year)
    × (days_before_year year * day_seconds + left ≡ n)
    × (left ≤ year_seconds year)
    × (1970 < year → 0 < left)
YearOf n (exit k) = ⊥
YearOf n undefined = ⊥
YearOf n no_fuel = ⊥

days_before_year-suc :
    (year : ℕ)
    → 1 ≤ year
    → days_before_year (year + 1) * day_seconds
      ≡ days_before_year year * day_seconds + year_seconds year
unfolding year_seconds is_leap_year days_before_year
days_before_year-suc year h = ground arith

year_seconds_ge : (year : ℕ) → 365 * day_seconds ≤ year_seconds year
unfolding year_seconds
year_seconds_ge year = ground arith

pub count_years-YearOf :
    (n f year s : ℕ)
    → 1970 ≤ year
    → s < f * (365 * day_seconds)
    → days_before_year year * day_seconds + s ≡ n
    → (1970 < year → 0 < s)
    → YearOf n (count_years f year s)
unfolding count_years
count_years-YearOf n zero year s h fuel e p = absurd (omega arith)
count_years-YearOf n (suc f) year s h fuel e p = elim (Bool-cases (ltb (year_seconds year) s)) [
  | inl more ↦
      let left : year_seconds year < s = ltb→lt _ _ more in
      rw more (
        count_years-YearOf n f (year + 1) (s - year_seconds year) (omega arith)
          (omega (arith, year_seconds_ge year)) (omega (arith, days_before_year-suc year))
          (λ _. omega arith))
  | inr done ↦ rw done (h, e, ground arith, p)
]
