-- ===== src/Timestamp/Ends.antt =====
-- `get_time` of src/get_timestamp.c has an end at any time.
use uhf_gs_csp_software.Common.{
  ℕ, suc, ◌%◌, ◌^◌, ◌<◌, ◌≡◌, ◌≢◌, refl, arith, Bool-cases, inl, inr, ltb, ltb→lt, ℤ, pos, negsuc,
  ◌+ℤ◌, signed32,
}
use uhf_gs_csp_software.World.{Call, ok, no_fuel}
use uhf_gs_csp_software.World.Ends.{Ends, ends}
use uhf_gs_csp_software.Timestamp.{
  Civil, civil, seconds_of, text_of, get_format_timestamp, get_time,
}
use uhf_gs_csp_software.Timestamp.Calendar.{civil-Reads}

-- A number of seconds that a positive `int` can hold.
abbrev IsInt : ℤ → Type 0
IsInt (pos n) = n < 2 ^ 31
IsInt (negsuc n) = Unit

signed32-IsInt : (n : ℕ) → n < 2 ^ 32 → IsInt (signed32 n)
signed32-IsInt n h = elim (Bool-cases (ltb n (2 ^ 31))) [
  | inl small ↦ rw small (ltb→lt _ _ small)
  | inr large ↦ rw large tt
]

seconds_of-IsInt : (t : ℤ) → IsInt (seconds_of t)
seconds_of-IsInt (pos n) = signed32-IsInt (n % 2 ^ 32) (omega arith)
seconds_of-IsInt (negsuc n) = signed32-IsInt (suc n % 2 ^ 32) (omega arith)

civil-ends : (s : ℤ) → IsInt s → (c : Civil) × (civil 1970 s ≡ ok c)
unfolding civil
civil-ends (pos n) h = let (c, e, _) = civil-Reads n h in (c, e)
civil-ends (negsuc n) h = (_, refl)

get_format_timestamp-ends : (t : ℤ) → get_format_timestamp t 1970 ≢ no_fuel
unfolding get_format_timestamp text_of
get_format_timestamp-ends t h =
    let (c, e) = civil-ends (seconds_of t) (seconds_of-IsInt t) in absurd (cc (e, h))

pub get_time-Ends : Ends get_time
unfolding get_time
get_time-Ends =
    ends λ e s. get_format_timestamp-ends (e.answer s.trace Call.clock_get_time +ℤ pos 28800)
