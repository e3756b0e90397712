-- ===== src/PowerIf/Channels.antt =====
-- Numbers of channels in clients/libp60/power_if.c.
use uhf_gs_csp_software.Common.{
  ℕ, zero, suc, ◌+◌, ◌/◌, ◌%◌, ◌^◌, ◌<◌, ◌≡◌, refl, arith, true, false, [], ◌∷◌, ◌++◌, Bytes,
  length, length-append, take, take-append, append-nil, ap, sym, ◌∙◌, ltb, if◌then◌else◌, pos,
}
use uhf_gs_csp_software.Common.Decimal.{digits_from, digits, print, is_digit}
use uhf_gs_csp_software.Common.Decimal.RoundTrip.{atoi-print, length-digits-le}
use uhf_gs_csp_software.PowerIf.{is_number, power_if_get_ch_idx}

is_number-digits_from :
    (f n : ℕ) (out : Bytes) → is_number out ≡ true → is_number (digits_from f n out) ≡ true
unfolding digits_from is_number
is_number-digits_from zero n out h = h
is_number-digits_from (suc f) n out h =
    ground (arith, is_number-digits_from f (n / 10) ((b'0' + n % 10) ∷ out) (ground arith))

is_number-digits : (n : ℕ) → is_number (digits n) ≡ true
unfolding digits is_number
is_number-digits zero = refl
is_number-digits (suc n) = is_number-digits_from (suc (suc n)) (suc n) [] refl

take-length : (s : Bytes) → take (length s) s ≡ s
take-length s = ap (take (length s)) (sym (append-nil s)) ∙ take-append s []

-- For every number of an `int` as text: its lowest eight bits are taken for the channel, and are
-- accepted if they are below the count of channels; so 256 is taken for channel 0.
pub power_if_get_ch_idx-print :
    (n ch_no ch_no_max : ℕ)
    → n < 2 ^ 31
    → power_if_get_ch_idx (print (pos n)) ch_no ch_no_max
      ≡ (if ltb (n % 256) ch_no_max then 1 else 0, n % 256)
unfolding power_if_get_ch_idx print
power_if_get_ch_idx-print n ch_no ch_no_max h =
    let short : length (digits n) % 2 ^ 8 ≡ length (digits n) =
      omega (arith, length-digits-le 10 n (omega arith) (omega arith)) in
    rw (short, take-length (digits n), is_number-digits n, atoi-print (pos n)) (ground arith)

is_number-append :
    (before after : Bytes) (c : ℕ) → is_digit c ≡ false → is_number (before ++ c ∷ after) ≡ false
unfolding is_number
is_number-append [] after c h = rw h refl
is_number-append (b ∷ before) after c h = ground (arith, is_number-append before after c h)

-- A name with a character that is no digit among its first 255 names no channel, and `*ch_no` is
-- kept.
pub power_if_get_ch_idx-named :
    (before after : Bytes) (c ch_no ch_no_max : ℕ)
    → is_digit c ≡ false
    → length before + 1 + length after < 256
    → power_if_get_ch_idx (before ++ c ∷ after) ch_no ch_no_max ≡ (0, ch_no)
unfolding power_if_get_ch_idx
power_if_get_ch_idx-named before after c ch_no ch_no_max h short =
    let name : Bytes = before ++ c ∷ after in
    let all : length name % 2 ^ 8 ≡ length name =
      omega (arith, length-append {A = ℕ} before (c ∷ after)) in
    rw (all, take-length name, is_number-append before after c h) refl
