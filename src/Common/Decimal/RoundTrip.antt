-- ===== src/Common/Decimal/RoundTrip.antt =====
-- `atoi` reads a printed number back, and the widths of printed numbers.
use native.Mathlib.Nat.{le_refl, pow-suc, one-le-pow}
use uhf_gs_csp_software.Common.Tests.{Bytes}
use uhf_gs_csp_software.Common.Lists.{length, replicate, length-replicate, length-append}
use uhf_gs_csp_software.Common.Int.{ℤ, pos, negsuc}
use uhf_gs_csp_software.Common.Decimal.{
  digits_from, digits, print, print_zeros, print_blanks, scan, is_space, after_spaces, atoi,
}
use Prim.Native.Nat.{ℕ, zero, suc, ◌+◌, ◌-◌, ◌/◌, ◌%◌, ◌^◌, ◌<◌, ◌≤◌}
use mathlib.Core.List.{[], ◌∷◌, ◌++◌}
use mathlib.Core.Path.{◌≡◌, refl, ◌∙◌}
use native.Mathlib.Omega.{arith}

-- Reading the last digit of `n` behind the digits before it gives `n`.
scan_last : (n : ℕ) (out : Bytes) → scan (n / 10) ((b'0' + n % 10) ∷ out) ≡ scan n out
unfolding scan
scan_last n out = ground arith

scan-digits_from : (f n : ℕ) (out : Bytes) → n < f → scan 0 (digits_from f n out) ≡ scan n out
unfolding digits_from
scan-digits_from zero n out h = absurd (omega arith)
scan-digits_from (suc f) n out h =
    ground (arith, scan_last n out, scan-digits_from f (n / 10) ((b'0' + n % 10) ∷ out))

pub scan-digits : (n : ℕ) → scan 0 (digits n) ≡ n
unfolding digits scan
scan-digits zero = refl
scan-digits (suc n) = scan-digits_from (suc (suc n)) (suc n) [] (le_refl _)

spaces_last :
    (n : ℕ) (out : Bytes)
    → after_spaces ((b'0' + n % 10) ∷ out) ≡ pos (scan 0 ((b'0' + n % 10) ∷ out))
unfolding after_spaces is_space
spaces_last n out = ground arith

spaces-digits_from :
    (f n : ℕ) (out : Bytes)
    → n < f
    → 0 < n
    → after_spaces (digits_from f n out) ≡ pos (scan 0 (digits_from f n out))
unfolding digits_from
spaces-digits_from zero n out h p = absurd (omega arith)
spaces-digits_from (suc zero) n out h p = absurd (omega arith)
spaces-digits_from (suc (suc f)) n out h p =
    ground (arith, spaces_last n out, spaces-digits_from (suc f) (n / 10) ((b'0' + n % 10) ∷ out))

atoi-digits : (n : ℕ) → atoi (digits n) ≡ pos n
unfolding digits atoi
atoi-digits zero = refl
atoi-digits (suc n) =
    ground (
      arith,
      spaces-digits_from (suc (suc n)) (suc n) [],
      scan-digits_from (suc (suc n)) (suc n) [],
    )

-- `atoi` reads every printed integer back.
pub atoi-print : (z : ℤ) → atoi (print z) ≡ z
unfolding print
atoi-print (pos n) = atoi-digits n
atoi-print (negsuc n) = unfold atoi after_spaces is_space in rw (scan-digits (suc n))

length-digits_from-le :
    (k f n : ℕ) (out : Bytes) → n < 10 ^ k → length (digits_from f n out) ≤ k + length out
unfolding digits_from
length-digits_from-le k zero n out h = omega arith
length-digits_from-le zero (suc f) n out h = ground arith
length-digits_from-le (suc k) (suc f) n out h =
    ground (arith, pow-suc 10 k, length-digits_from-le k f (n / 10) ((b'0' + n % 10) ∷ out))

-- A number below `10 ^ k` has at most `k` digits.
pub length-digits-le : (k n : ℕ) → 0 < k → n < 10 ^ k → length (digits n) ≤ k
unfolding digits
length-digits-le k zero p h = omega arith
length-digits-le k (suc n) p h = omega (arith, length-digits_from-le k (suc (suc n)) (suc n) [] h)

-- Within `w` places `%0wd` writes exactly `w` characters.
pub length-print_zeros : (w n : ℕ) → 0 < w → n < 10 ^ w → length (print_zeros w (pos n)) ≡ w
unfolding print_zeros
length-print_zeros w n p h = omega (
  arith,
  length-digits-le w n p h,
  length-replicate {A = ℕ} (w - length (digits n)) b'0',
  length-append {A = ℕ} (replicate (w - length (digits n)) b'0') (digits n),
)

-- So does `%wd`.
pub length-print_blanks : (w n : ℕ) → 0 < w → n < 10 ^ w → length (print_blanks w (pos n)) ≡ w
unfolding print_blanks print
length-print_blanks w n p h = omega (
  arith,
  length-digits-le w n p h,
  length-replicate {A = ℕ} (w - length (digits n)) b' ',
  length-append {A = ℕ} (replicate (w - length (digits n)) b' ') (digits n),
)

le-length-digits_from : (f n : ℕ) (out : Bytes) → length out ≤ length (digits_from f n out)
unfolding digits_from
le-length-digits_from zero n out = omega arith
le-length-digits_from (suc f) n out =
    ground (arith, le-length-digits_from f (n / 10) ((b'0' + n % 10) ∷ out))

length-digits_from-ge :
    (k f n : ℕ) (out : Bytes)
    → n < f
    → 10 ^ k ≤ n
    → suc k + length out ≤ length (digits_from f n out)
unfolding digits_from
length-digits_from-ge k zero n out h p = absurd (omega arith)
length-digits_from-ge zero (suc zero) n out h p = absurd (omega arith)
length-digits_from-ge zero (suc (suc f)) n out h p =
    ground (arith, le-length-digits_from (suc f) (n / 10) ((b'0' + n % 10) ∷ out))
length-digits_from-ge (suc k) (suc f) n out h p = ground (
  arith,
  pow-suc 10 k,
  one-le-pow k 10,
  length-digits_from-ge k f (n / 10) ((b'0' + n % 10) ∷ out),
)

scan-zeros : (k : ℕ) (s : Bytes) → scan 0 (replicate k b'0' ++ s) ≡ scan 0 s
unfolding scan
scan-zeros zero s = refl
scan-zeros (suc k) s = scan-zeros k s

-- Zeros in front do not change the number that is read.
pub scan-print_zeros : (w n : ℕ) → scan 0 (print_zeros w (pos n)) ≡ n
unfolding print_zeros
scan-print_zeros w n = scan-zeros (w - length (digits n)) (digits n) ∙ scan-digits n

-- A number of a thousand or more takes at least four characters.
pub length-print_zeros-ge : (n : ℕ) → 1000 ≤ n → 4 ≤ length (print_zeros 3 (pos n))
unfolding print_zeros digits
length-print_zeros-ge zero h = absurd (omega arith)
length-print_zeros-ge (suc n) h = omega (
  arith,
  length-digits_from-ge 3 (suc (suc n)) (suc n) [],
  length-append {A = ℕ} (replicate (3 - length (digits (suc n))) b'0') (digits (suc n)),
)
