-- ===== src/Itoa/Decimal.antt =====
-- The text that `itoa` of src/itoa.c writes in base 10, against the C library's `%d`.
use native.Mathlib.Nat.{pow-suc}
use uhf_gs_csp_software.Common.{
  ℕ, zero, suc, ◌+◌, ◌-◌, ◌/◌, ◌%◌, ◌^◌, ◌<◌, ◌≡◌, ◌∙◌, refl, ap, false, arith, [], ◌∷◌, ◌++◌,
  Bytes, length, get_or, length-append, ltb, ◌==◌, if◌then◌else◌, ℤ, abs, pos, negsuc, ◌+ℤ◌, ◌-ℤ◌,
  rem_ℤ,
}
use uhf_gs_csp_software.Common.Decimal.{digits_from, digits, print}
use uhf_gs_csp_software.World.{ok}
use uhf_gs_csp_software.Itoa.{digit_char, write_digits, behind_digit, reversed, itoa}
use uhf_gs_csp_software.Itoa.Reverse.{IsReverse, reverse_string-IsReverse}

-- The characters of `t` from its end to its start, in front of `out`.
onto : Bytes → Bytes → Bytes
onto [] out = out
onto (c ∷ t) out = onto t (c ∷ out)

get_or-onto :
    (t out : Bytes) (j : ℕ)
    → get_or (onto t out) j 0
      ≡ (if ltb j (length t) then get_or t (length t - 1 - j) 0 else get_or out (j - length t) 0)
unfolding onto
get_or-onto [] out j = ground arith
get_or-onto (c ∷ t) out j = ground (arith, get_or-onto t (c ∷ out) j)

length-onto : (t out : Bytes) → length (onto t out) ≡ length t + length out
unfolding onto
length-onto [] out = omega arith
length-onto (c ∷ t) out = omega (arith, length-onto t (c ∷ out))

onto-append : (t u out : Bytes) → onto (t ++ u) out ≡ onto u (onto t out)
unfolding onto
onto-append [] u out = refl
onto-append (c ∷ t) u out = onto-append t u (c ∷ out)

-- Texts of one length with the same characters are equal.
get_or-ext :
    (s t : Bytes)
    → length s ≡ length t
    → ((j : ℕ) → j < length s → get_or s j 0 ≡ get_or t j 0)
    → s ≡ t
get_or-ext [] [] n h = refl
get_or-ext [] (d ∷ t) n h = absurd (omega arith)
get_or-ext (c ∷ s) [] n h = absurd (omega arith)
get_or-ext (c ∷ s) (d ∷ t) n h =
    let same : c ≡ d = h 0 (omega arith) in
    let rest : s ≡ t = get_or-ext s t (omega arith) (λ j l. h (suc j) (omega arith)) in
    λ i. same i ∷ rest i

IsReverse-onto : (old r : Bytes) → IsReverse old r → r ≡ onto old []
IsReverse-onto old r x =
    get_or-ext r (onto old []) (omega (arith, x.size, length-onto old []))
      (λ j l. ground (arith, x.size, x.reads j, get_or-onto old [] j))

digit_char-digit : (n : ℕ) → digit_char (rem_ℤ (pos n) 10) ≡ b'0' + n % 10
unfolding digit_char ◌+ℤ◌ ◌-ℤ◌
digit_char-digit n = ground arith

-- The loop writes the digits of `%d`, the last first.
write_digits-onto :
    (f g n : ℕ)
    → n < 10 ^ f
    → n < g
    → (t : Bytes) × (write_digits f (pos n) 10 ≡ ok t)
      × (0 < n → 0 < length t)
      × ((out : Bytes) → onto t out ≡ digits_from g n out)
unfolding write_digits behind_digit digits_from onto
write_digits-onto f zero n h l = absurd (omega arith)
write_digits-onto zero (suc g) n h l =
    ([], ground arith, λ p. absurd (omega arith), λ out. ground arith)
write_digits-onto (suc f) (suc g) zero h l = ([], refl, λ p. absurd (omega arith), λ out. refl)
write_digits-onto (suc f) (suc g) (suc n) h l =
    let (t, e, _, x) =
      write_digits-onto f g (suc n / 10) (omega (arith, pow-suc 10 f)) (omega arith) in
    let more : (suc n == 0) ≡ false = ground arith in
    (
      digit_char (rem_ℤ (pos (suc n)) 10) ∷ t,
      rw (more, e) refl,
      λ p. omega arith,
      λ out. rw (more, digit_char-digit (suc n)) (x ((b'0' + suc n % 10) ∷ out)),
    )

reversed-onto :
    (t sign : Bytes) → 0 < length (t ++ sign) → reversed (ok t) sign ≡ ok (onto sign (onto t []))
unfolding reversed
reversed-onto t sign h =
    let (r, e, x) = reverse_string-IsReverse (t ++ sign) h in
    e ∙ ap ok (IsReverse-onto (t ++ sign) r x ∙ onto-append t sign [])

-- The digits of a positive number, and behind them the sign.
signed_digits :
    (n : ℕ) (sign : Bytes)
    → 0 < n
    → n < 2 ^ 31
    → reversed (write_digits 32 (pos n) 10) sign ≡ ok (onto sign (digits_from (suc n) n []))
signed_digits zero sign p h = absurd (omega arith)
signed_digits (suc n) sign p h =
    let (t, e, some_digit, x) =
      write_digits-onto 32 (suc (suc n)) (suc n) (omega arith) (omega arith) in
    let size : 0 < length (t ++ sign) = omega (arith, length-append {A = ℕ} t sign, some_digit p) in
    rw e (reversed-onto t sign size) ∙ ap (λ (d : Bytes). ok (onto sign d)) (x [])

digits-suc : (n : ℕ) → digits_from (suc (suc n)) (suc n) [] ≡ digits (suc n)
unfolding digits digits_from
digits-suc n = refl

itoa-suc : (n : ℕ) → itoa (pos (suc n)) 10 ≡ reversed (write_digits 32 (pos (suc n)) 10) []
unfolding itoa
itoa-suc n = let nonzero : (suc n == 0) ≡ false = ground arith in rw nonzero refl

itoa-negsuc : (n : ℕ) → itoa (negsuc n) 10 ≡ reversed (write_digits 32 (pos (suc n)) 10) (b'-' ∷ [])
unfolding itoa
itoa-negsuc n =
    let size : abs (negsuc n) ≡ suc n = omega arith in
    ap (λ (m : ℕ). reversed (write_digits 32 (pos m) 10) (b'-' ∷ [])) size

-- For every `int` but the least, `itoa` in base 10 writes what `%d` prints, the sign of a negative
-- number in front.
pub itoa-print : (z : ℤ) → abs z < 2 ^ 31 → itoa z 10 ≡ ok (print z)
unfolding itoa print onto
itoa-print (pos zero) h = unfold digits in refl
itoa-print (pos (suc n)) h =
    itoa-suc n ∙ signed_digits (suc n) [] (omega arith) (omega arith) ∙ ap ok (digits-suc n)
itoa-print (negsuc n) h =
    itoa-negsuc n
    ∙ signed_digits (suc n) (b'-' ∷ []) (omega arith) (omega arith)
    ∙ ap (λ (d : Bytes). ok (b'-' ∷ d)) (digits-suc n)
