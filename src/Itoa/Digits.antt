-- ===== src/Itoa/Digits.antt =====
-- The text that `itoa` of src/itoa.c writes in base 2, as src/generate_csp_header.c calls it.
use native.Mathlib.Nat.{pow-suc, pow-succ', div-div-eq-div-mul}
use uhf_gs_csp_software.Common.{
  ℕ, zero, suc, ◌+◌, ◌-◌, ◌/◌, ◌%◌, ◌^◌, ◌<◌, ◌≤◌, ◌≡◌, ◌∙◌, refl, ap, sym, false, arith, [], ◌∷◌,
  Bytes, length, get_or, append-nil, ◌==◌, pos, ◌+ℤ◌, ◌-ℤ◌, rem_ℤ,
}
use uhf_gs_csp_software.World.{ok}
use uhf_gs_csp_software.Itoa.Reverse.{reverse_string-IsReverse}
use uhf_gs_csp_software.Itoa.{digit_char, write_digits, behind_digit, reversed, itoa}

-- `t` spells `n` in base 2, the least digit first.
record IsBits (n : ℕ) (t : Bytes) : Type 0 where
  digit : (k : ℕ) → k < length t → get_or t k 0 ≡ b'0' + n / 2 ^ k % 2
  small : n < 2 ^ length t
  short : (w : ℕ) → n < 2 ^ w → length t ≤ w
  some_digit : 0 < n → 0 < length t

digit_char-bit : (n : ℕ) → digit_char (rem_ℤ (pos n) 2) ≡ b'0' + n % 2
unfolding digit_char ◌+ℤ◌ ◌-ℤ◌
digit_char-bit n = ground arith

IsBits-cons :
    (n : ℕ) (t : Bytes) → 0 < n → IsBits (n / 2) t → IsBits n (digit_char (rem_ℤ (pos n) 2) ∷ t)
IsBits-cons n t h x = record {
  digit = bit;
  small = omega (arith, x.small, pow-suc 2 (length t));
  short = narrow;
  some_digit = λ _. omega arith;
}
  where
    narrow : (w : ℕ) → n < 2 ^ w → suc (length t) ≤ w
    narrow zero l = absurd (omega arith)
    narrow (suc w) l = omega (arith, x.short w (omega (arith, pow-suc 2 w)))

    bit :
        (k : ℕ)
        → k < suc (length t)
        → get_or (digit_char (rem_ℤ (pos n) 2) ∷ t) k 0 ≡ b'0' + n / 2 ^ k % 2
    bit zero h = omega (arith, digit_char-bit n)
    bit (suc k) h =
        x.digit k (omega arith)
        ∙ ap (λ (q : ℕ). b'0' + q % 2)
            (div-div-eq-div-mul n 2 (2 ^ k) ∙ ap (λ (m : ℕ). n / m) (sym (pow-succ' 2 k)))

write_digits_lem :
    (f n : ℕ) → n < 2 ^ f → (t : Bytes) × (write_digits f (pos n) 2 ≡ ok t) × IsBits n t
unfolding write_digits behind_digit
write_digits_lem zero n h = (
  [],
  ground arith,
  record {
    digit = λ k hk. absurd (omega arith);
    small = h;
    short = λ w l. omega arith;
    some_digit = λ hn. absurd (omega arith);
  },
)
write_digits_lem (suc f) zero h = (
  [],
  refl,
  record {
    digit = λ k hk. absurd (omega arith);
    small = omega arith;
    short = λ w l. omega arith;
    some_digit = λ hn. absurd (omega arith);
  },
)
write_digits_lem (suc f) (suc n) h =
    let (t, e, x) = write_digits_lem f (suc n / 2) (omega (arith, pow-suc 2 f)) in
    let more : (suc n == 0) ≡ false = ground arith in
    (
      digit_char (rem_ℤ (pos (suc n)) 2) ∷ t,
      rw (more, e) refl,
      IsBits-cons (suc n) t (omega arith) x,
    )

-- What `itoa` writes of `n` in base 2: its digits, the greatest first, no fewer
-- than it has and no more than a width that holds it.
pub record IsBinary (n : ℕ) (t : Bytes) : Type 0 where
  pub digit : (k : ℕ) → k < length t → get_or t k 0 ≡ b'0' + n / 2 ^ (length t - 1 - k) % 2
  pub small : n < 2 ^ length t
  pub fits : (w : ℕ) → 0 < w → n < 2 ^ w → length t ≤ w
  pub some_digit : 0 < length t

zero_digit : (k : ℕ) → k < 1 → get_or (b'0' ∷ []) k 0 ≡ b'0' + 0 / 2 ^ (1 - 1 - k) % 2
zero_digit zero h = refl
zero_digit (suc k) h = absurd (omega arith)

-- For every `int` that is not negative, `itoa` in base 2 ends, its reversal in place included, and
-- writes the number's digits, the greatest first.
pub itoa-IsBinary : (n : ℕ) → n < 2 ^ 31 → (t : Bytes) × (itoa (pos n) 2 ≡ ok t) × IsBinary n t
unfolding itoa reversed
itoa-IsBinary zero h = (
  b'0' ∷ [],
  refl,
  record {
    digit = zero_digit;
    small = omega arith;
    fits = λ w p l. omega arith;
    some_digit = omega arith;
  },
)
itoa-IsBinary (suc n) h =
    let (t, e, x) = write_digits_lem 32 (suc n) (omega arith) in
    let size = x.some_digit (omega arith) in
    let nonzero : (suc n == 0) ≡ false = ground arith in
    let (r, er, y) = reverse_string-IsReverse t size in
    (
      r,
      rw (nonzero, e, append-nil t) er,
      record {
        digit = λ k hk.
            y.reads k (omega (arith, y.size))
            ∙ x.digit (length t - 1 - k) (omega arith)
            ∙ ap (λ (l : ℕ). b'0' + suc n / 2 ^ (l - 1 - k) % 2) (sym y.size);
        small = rw y.size x.small;
        fits = λ w p l. omega (arith, y.size, x.short w l);
        some_digit = omega (arith, y.size);
      },
    )
