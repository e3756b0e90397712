-- ===== src/Examples/Orders.antt =====
-- The order of bytes of a machine that swaps them, as most stations do.
use uhf_gs_csp_software.Common.{ℕ, ◌+◌, ◌*◌, ◌/◌, ◌%◌, ◌^◌, ◌<◌, ◌≡◌, ap, ◌∙◌, arith}
use uhf_gs_csp_software.Csp.{ByteOrder, IsInverse}

-- What stands above a word is kept.
unfoldable pub swap16 : ℕ → ℕ
swap16 n = n % 2 ^ 8 * 2 ^ 8 + n / 2 ^ 8 % 2 ^ 8 + n / 2 ^ 16 * 2 ^ 16

pub swap16-swap16 : (n : ℕ) → swap16 (swap16 n) ≡ n
unfolding swap16
swap16-swap16 n = omega arith

swap16-below : (n : ℕ) → n < 2 ^ 16 → swap16 n < 2 ^ 16
unfolding swap16
swap16-below n h = omega arith

abbrev pub swap32 : ℕ → ℕ
swap32 n = swap16 (n % 2 ^ 16) * 2 ^ 16 + swap16 (n / 2 ^ 16 % 2 ^ 16) + n / 2 ^ 32 * 2 ^ 32

pub swap32-swap32 : (n : ℕ) → swap32 (swap32 n) ≡ n
swap32-swap32 n =
    let low = swap16 (n % 2 ^ 16) in
    let high = swap16 (n / 2 ^ 16 % 2 ^ 16) in
    let m = swap32 n in
    let is_low = swap16-below (n % 2 ^ 16) (omega arith) in
    let is_high = swap16-below (n / 2 ^ 16 % 2 ^ 16) (omega arith) in
    let first : m % 2 ^ 16 ≡ high = omega (arith, is_low, is_high) in
    let second : m / 2 ^ 16 % 2 ^ 16 ≡ low = omega (arith, is_low, is_high) in
    let third : m / 2 ^ 32 ≡ n / 2 ^ 32 = omega (arith, is_low, is_high) in
    omega (
      arith,
      ap swap16 first ∙ swap16-swap16 (n / 2 ^ 16 % 2 ^ 16),
      ap swap16 second ∙ swap16-swap16 (n % 2 ^ 16),
      third,
    )

abbrev pub swapping : ByteOrder
swapping = record {
  csp_hton16 = swap16;
  csp_ntoh16 = swap16;
  csp_hton32 = swap32;
  csp_ntoh32 = swap32;
  csp_ntoh64 = λ n. n;
}

pub swapping-IsInverse : IsInverse swapping
swapping-IsInverse = record {
  back16 = swap16-swap16;
  there16 = swap16-swap16;
  back32 = swap32-swap32;
  there32 = swap32-swap32;
}
