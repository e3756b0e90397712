-- ===== src/Common/Decimal.antt =====
-- What the code uses of the C library's decimal numbers: `sprintf` with `%d`, `%02d`, `%03d` and
-- `%4d`, and `atoi`.
pub mod RoundTrip
use Prim.Native.Nat.{ℕ, zero, suc, ◌+◌, ◌-◌, ◌*◌, ◌/◌, ◌%◌}
use mathlib.Core.Bool.{Bool, true, false, ◌&&◌, ◌||◌}
use mathlib.Core.List.{List, [], ◌∷◌, ◌++◌}
use uhf_gs_csp_software.Common.Tests.{ltb, leb, ◌==◌, if◌then◌else◌, Bytes}
use uhf_gs_csp_software.Common.Lists.{length, replicate}
use uhf_gs_csp_software.Common.Int.{ℤ, pos, negsuc, neg_ℕ}

-- The digits of `n` in front of `out`; `f` rounds are enough if `n < f`.
unfoldable pub digits_from : ℕ → ℕ → Bytes → Bytes
digits_from zero n out = out
digits_from (suc f) n out =
    let rest = digits_from f (n / 10) ((b'0' + n % 10) ∷ out) in if n == 0 then out else rest

unfoldable pub digits : ℕ → Bytes
unfolding digits_from
digits zero = b'0' ∷ []
digits (suc n) = digits_from (suc (suc n)) (suc n) []

-- `%d`
unfoldable pub print : ℤ → Bytes
unfolding digits
print (pos n) = digits n
print (negsuc n) = b'-' ∷ digits (suc n)

-- `%0wd`: zeros behind the sign, which counts for the width.
unfoldable pub print_zeros : ℕ → ℤ → Bytes
unfolding digits
print_zeros w (pos n) = let d = digits n in replicate (w - length d) b'0' ++ d
print_zeros w (negsuc n) = let d = digits (suc n) in b'-' ∷ replicate (w - 1 - length d) b'0' ++ d

-- `%wd`: blanks in front.
unfoldable pub print_blanks : ℕ → ℤ → Bytes
unfolding print
print_blanks w z = let d = print z in replicate (w - length d) b' ' ++ d

abbrev pub is_digit : ℕ → Bool
is_digit c = leb b'0' c && leb c b'9'

-- The digits in front of a text, read behind the number `n`.
pub scan : ℕ → Bytes → ℕ
scan n [] = n
scan n (c ∷ s) = let rest = scan (n * 10 + (c - b'0')) s in if is_digit c then rest else n

is_space : ℕ → Bool
is_space c = (c == b' ') || (leb 9 c && leb c 13)

pub after_spaces : Bytes → ℤ
unfolding is_space scan
after_spaces [] = pos 0
after_spaces (c ∷ s) =
    let rest = after_spaces s in
    if is_space c
    then rest
    else if c == b'-'
    then neg_ℕ (scan 0 s)
    else if c == b'+'
    then pos (scan 0 s)
    else pos (scan 0 (c ∷ s))

-- `atoi`, whose result the C library defines where it fits an `int`.
unfoldable pub atoi : Bytes → ℤ
unfolding after_spaces
atoi s = after_spaces s
