-- ===== src/Itoa.antt =====
-- src/itoa.c: a number as text in a base.
pub mod Reverse
pub mod Digits
pub mod Decimal
use uhf_gs_csp_software.Common.{
  ℕ, zero, suc, ◌+◌, ◌-◌, ◌/◌, Bool, true, false, ◌&&◌, [], ◌∷◌, ◌++◌, Bytes, length, get_or, set,
  ◌==◌, if◌then◌else◌, ℤ, pos, ◌+ℤ◌, ◌-ℤ◌, ltb_ℤ, is_neg, eqb_ℤ, neg_ℕ, abs, quot_ℤ, rem_ℤ, to_u8,
}
use uhf_gs_csp_software.World.{Result, ok, exit, undefined, no_fuel}

-- The character of a remainder, as a byte; a remainder of a negative number is not positive.
unfoldable pub digit_char : ℤ → ℕ
digit_char rem =
    if ltb_ℤ (pos 9) rem then to_u8 (rem -ℤ pos 10 +ℤ pos b'a') else to_u8 (rem +ℤ pos b'0')

unfoldable pub behind_digit : ℕ → Result Bytes → Result Bytes
behind_digit c (ok str) = ok (c ∷ str)
behind_digit c (exit n) = exit n
behind_digit c undefined = undefined
behind_digit c no_fuel = no_fuel

-- The loop over the digits, the least first, with the rounds that are left.
unfoldable pub write_digits : ℕ → ℤ → ℕ → Result Bytes
write_digits zero num base = if eqb_ℤ num (pos 0) then ok [] else no_fuel
write_digits (suc f) num base =
    let rest = write_digits f (quot_ℤ num base) base in
    if eqb_ℤ num (pos 0) then ok [] else behind_digit (digit_char (rem_ℤ num base)) rest

unfoldable pub swap : Bytes → ℕ → ℕ → Bytes
swap str i j = let temp = get_or str i 0 in set (set str i (get_or str j 0)) j temp

-- `reverse_String`, which calls itself until `i` is half of `len`, with the calls that are left.
unfoldable pub reverse_string : ℕ → Bytes → ℕ → ℕ → Result Bytes
reverse_string zero str i len = no_fuel
reverse_string (suc f) str i len =
    let swapped = swap str i (len - i) in
    let rest = reverse_string f swapped (i + 1) len in if i == len / 2 then ok swapped else rest

unfoldable pub reversed : Result Bytes → Bytes → Result Bytes
reversed (ok str) sign =
    let whole = str ++ sign in reverse_string (length whole) whole 0 (length whole - 1)
reversed (exit n) sign = exit n
reversed undefined sign = undefined
reversed no_fuel sign = no_fuel

-- The text that `itoa` writes: 32 rounds are enough for an `int` in a base of at least 2.
unfoldable pub itoa : ℤ → ℕ → Result Bytes
itoa num base =
    if eqb_ℤ num (pos 0)
    then ok (b'0' ∷ [])
    else if is_neg num && (base == 10)
    then reversed (write_digits 32 (pos (abs num)) base) (b'-' ∷ [])
    else reversed (write_digits 32 num base) []
