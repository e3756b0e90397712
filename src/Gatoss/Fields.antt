-- ===== src/Gatoss/Fields.antt =====
-- The three numbers in the seven bytes of clients/gatoss-uc/gatoss_common.c, as sums.
use uhf_gs_csp_software.Common.{ℕ, ◌+◌, ◌*◌, ◌/◌, ◌%◌, ◌^◌, ◌<◌, ◌≡◌, ap, arith, bit_and, bit_or}
use uhf_gs_csp_software.Common.Bits.{◌<<<◌, ◌>>>◌, bit_or_disjoint, bit_and_ones, bit_and_lowest}
use uhf_gs_csp_software.Gatoss.{GatossCompos, lon_of, lat_of, alt_of}

-- Seven bytes.
pub record AreBytes (c : GatossCompos) : Type 0 where
  pub byte0 : c.compos0 < 256
  pub byte1 : c.compos1 < 256
  pub byte2 : c.compos2 < 256
  pub byte3 : c.compos3 < 256
  pub byte4 : c.compos4 < 256
  pub byte5 : c.compos5 < 256
  pub byte6 : c.compos6 < 256

-- A mask without its three lowest bits.
masked_twice : (a m : ℕ) → bit_and a (m * 2) ≡ bit_and (a / 2) m * 2
masked_twice a m =
    let half : m * 2 / 2 ≡ m = omega arith in
    omega (arith, bit_and_lowest a (m * 2), ap (bit_and (a / 2)) half)

pub five_high : (a : ℕ) → a < 256 → bit_and a 0xF8 / 8 ≡ a / 8
five_high a h =
    let eighth : a / 2 / 2 / 2 ≡ a / 8 = omega arith in
    omega (
      arith,
      masked_twice a 0x7C,
      masked_twice (a / 2) 0x3E,
      masked_twice (a / 2 / 2) 0x1F,
      bit_and_ones 5 (a / 2 / 2 / 2),
    )

pub lon_of_sum :
    (c : GatossCompos)
    → AreBytes c
    → lon_of c ≡ c.compos0 * 2 ^ 15 + c.compos1 * 2 ^ 7 + c.compos2 / 2
unfolding lon_of
lon_of_sum c h =
    let q = c.compos0 * 256 + c.compos1 in
    let high : bit_or (c.compos0 <<< 15) (c.compos1 <<< 7) ≡ q * 2 ^ 7 =
      omega (arith, bit_or_disjoint 15 c.compos0 (c.compos1 <<< 7) (omega (arith, h.byte1))) in
    rw high (omega (arith, bit_or_disjoint 7 q (c.compos2 >>> 1) (omega (arith, h.byte2))))

pub lat_of_sum :
    (c : GatossCompos)
    → AreBytes c
    → lat_of c ≡ c.compos2 % 2 * 2 ^ 21 + c.compos3 * 2 ^ 13 + c.compos4 * 2 ^ 5 + c.compos5 / 8
unfolding lat_of
lat_of_sum c h =
    let top = c.compos2 % 2 in
    let q = top * 256 + c.compos3 in
    let r = q * 256 + c.compos4 in
    let high : bit_or (top <<< 21) (c.compos3 <<< 13) ≡ q * 2 ^ 13 =
      omega (arith, bit_or_disjoint 21 top (c.compos3 <<< 13) (omega (arith, h.byte3))) in
    let middle : bit_or (q * 2 ^ 13) (c.compos4 <<< 5) ≡ r * 2 ^ 5 =
      omega (arith, bit_or_disjoint 13 q (c.compos4 <<< 5) (omega (arith, h.byte4))) in
    rw (bit_and_ones 1 c.compos2, high, middle, five_high c.compos5 h.byte5)
      (omega (arith, bit_or_disjoint 5 r (c.compos5 / 8) (omega (arith, h.byte5))))

pub alt_of_sum : (c : GatossCompos) → AreBytes c → alt_of c ≡ c.compos5 % 8 * 2 ^ 8 + c.compos6
unfolding alt_of
alt_of_sum c h =
    rw (bit_and_ones 3 c.compos5)
      (omega (arith, bit_or_disjoint 8 (c.compos5 % 8) c.compos6 (omega (arith, h.byte6))))
