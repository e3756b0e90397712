-- ===== src/Gatoss/Positions.antt =====
-- What a position keeps on its way through the seven bytes of clients/gatoss-uc/gatoss_common.c.
use uhf_gs_csp_software.Common.{ℕ, ◌+◌, ◌-◌, ◌*◌, ◌/◌, ◌%◌, ◌^◌, ◌<◌, ◌≡◌, ◌∙◌, refl, arith, bit_or}
use uhf_gs_csp_software.Common.Bits.{◌<<<◌, ◌>>>◌, bit_or_disjoint, bit_and_ones}
use uhf_gs_csp_software.Gatoss.{
  Machine, GatossPos, GatossCompos, pack, lon_of, lat_of, alt_of, gatoss_position_compress,
  gatoss_positions_decompress,
}
use uhf_gs_csp_software.Gatoss.Fields.{AreBytes, lon_of_sum, lat_of_sum, alt_of_sum}

-- The bytes of three numbers, as sums.
packed : ℕ → ℕ → ℕ → ℕ → GatossCompos
packed lon lat alt t = record {
  compos0 = lon / 2 ^ 15;
  compos1 = lon / 2 ^ 7 % 2 ^ 8;
  compos2 = lon % 2 ^ 7 * 2 + lat / 2 ^ 21;
  compos3 = lat / 2 ^ 13 % 2 ^ 8;
  compos4 = lat / 2 ^ 5 % 2 ^ 8;
  compos5 = lat % 2 ^ 5 * 8 + alt / 2 ^ 8;
  compos6 = alt % 2 ^ 8;
  timestamp = t;
}

pack-packed :
    (lon lat alt t : ℕ)
    → lon < 2 ^ 23
    → lat < 2 ^ 22
    → alt < 2 ^ 11
    → pack lon lat alt t ≡ packed lon lat alt t
unfolding pack packed
pack-packed lon lat alt t p q r =
    let c0 : lon / 2 ^ 15 % 2 ^ 8 ≡ lon / 2 ^ 15 = omega arith in
    let c2 : bit_or (lon <<< 1) (lat >>> 21) % 2 ^ 8 ≡ lon % 2 ^ 7 * 2 + lat / 2 ^ 21 =
      omega (arith, bit_or_disjoint 1 lon (lat >>> 21) (omega arith)) in
    let c5 : bit_or (lat <<< 3) (alt >>> 8) % 2 ^ 8 ≡ lat % 2 ^ 5 * 8 + alt / 2 ^ 8 =
      omega (arith, bit_or_disjoint 3 lat (alt >>> 8) (omega arith)) in
    rw (c0, c2, c5, bit_and_ones 8 alt) refl

packed-AreBytes :
    (lon lat alt t : ℕ)
    → lon < 2 ^ 23
    → lat < 2 ^ 22
    → alt < 2 ^ 11
    → AreBytes (packed lon lat alt t)
unfolding packed
packed-AreBytes lon lat alt t p q r = record {
  byte0 = omega arith;
  byte1 = omega arith;
  byte2 = omega arith;
  byte3 = omega arith;
  byte4 = omega arith;
  byte5 = omega arith;
  byte6 = omega arith;
}

-- Three numbers of 23, 22 and 11 bits come back.
unpack-pack :
    (lon lat alt t : ℕ)
    → lon < 2 ^ 23
    → lat < 2 ^ 22
    → alt < 2 ^ 11
    → (lon_of (pack lon lat alt t) ≡ lon)
      × (lat_of (pack lon lat alt t) ≡ lat)
      × (alt_of (pack lon lat alt t) ≡ alt)
unfolding packed
unpack-pack lon lat alt t p q r =
    let c = packed lon lat alt t in
    let h = packed-AreBytes lon lat alt t p q r in
    rw (pack-packed lon lat alt t p q r)
      (omega (arith, lon_of_sum c h), omega (arith, lat_of_sum c h), omega (arith, alt_of_sum c h))

-- Any seven bytes are the bytes of the three numbers that are read from them: no bit of a
-- compressed position is lost or shared between its longitude, its latitude and its altitude.
pub pack-unpack :
    (c : GatossCompos) → AreBytes c → pack (lon_of c) (lat_of c) (alt_of c) c.timestamp ≡ c
unfolding packed
pack-unpack c h =
    let lon = lon_of_sum c h in
    let lat = lat_of_sum c h in
    let alt = alt_of_sum c h in
    let is0 : lon_of c / 2 ^ 15 ≡ c.compos0 = omega (arith, lon, h.byte1, h.byte2) in
    let is1 : lon_of c / 2 ^ 7 % 2 ^ 8 ≡ c.compos1 = omega (arith, lon, h.byte1, h.byte2) in
    let is2 : lon_of c % 2 ^ 7 * 2 + lat_of c / 2 ^ 21 ≡ c.compos2 =
      omega (arith, lon, lat, h.byte2, h.byte3, h.byte4, h.byte5) in
    let is3 : lat_of c / 2 ^ 13 % 2 ^ 8 ≡ c.compos3 =
      omega (arith, lat, h.byte3, h.byte4, h.byte5) in
    let is4 : lat_of c / 2 ^ 5 % 2 ^ 8 ≡ c.compos4 = omega (arith, lat, h.byte4, h.byte5) in
    let is5 : lat_of c % 2 ^ 5 * 8 + alt_of c / 2 ^ 8 ≡ c.compos5 =
      omega (arith, lat, alt, h.byte5, h.byte6) in
    let is6 : alt_of c % 2 ^ 8 ≡ c.compos6 = omega (arith, alt, h.byte6) in
    pack-packed (lon_of c) (lat_of c) (alt_of c) c.timestamp
      (omega (arith, lon, h.byte0, h.byte1, h.byte2))
      (omega (arith, lat, h.byte3, h.byte4, h.byte5)) (omega (arith, alt, h.byte6))
    ∙ rw (is0, is1, is2, is3, is4, is5, is6) refl

-- An angle in units of 1/23300 degree from `low` tenths of a degree below zero on, the nearest to
-- it by the machine's operations, and the angle that so many units are.
abbrev pub units : (m : Machine) → (low : ℕ) → m.Float → ℕ
units m low angle =
    m.to_uint32
      (m.plus (m.times (m.plus (m.widen angle) (m.tenths low)) (m.tenths 233000)) (m.tenths 5))

abbrev pub degrees : (m : Machine) → (low : ℕ) → ℕ → m.Float
degrees m low n = m.narrow (m.minus (m.over (m.of_uint32 n) (m.tenths 233000)) (m.tenths low))

-- Whatever the machine's operations on `float` and `double`: a position below an altitude of 51200
-- that is compressed and decompressed has a longitude and a latitude that are read from the lowest
-- 23 and 22 bits of their units of 1/23300 degree from -180 and from -90 on, its altitude rounded
-- down to 25, and, if the byte order swaps back, its own time.
pub decompress-compress :
    (m : Machine) (p : GatossPos m)
    → p.altitude < 51200
    → m.csp_ntoh32 (m.csp_hton32 p.timestamp) ≡ p.timestamp
    → gatoss_positions_decompress m (gatoss_position_compress m p) ≡ record {
      lat = degrees m 900 (units m 900 p.lat % 2 ^ 22);
      lon = degrees m 1800 (units m 1800 p.lon % 2 ^ 23);
      altitude = p.altitude - p.altitude % 25;
      timestamp = p.timestamp;
    }
unfolding gatoss_positions_decompress gatoss_position_compress pack
decompress-compress m p low swapped_back =
    let lon = units m 1800 p.lon in
    let lat = units m 900 p.lat in
    let alt = p.altitude / 25 in
    let (is_lon, is_lat, is_alt) =
      unpack-pack (lon % 2 ^ 23) (lat % 2 ^ 22) (alt % 2 ^ 11) (m.csp_hton32 p.timestamp)
        (omega arith) (omega arith) (omega arith) in
    let rounded : alt % 2 ^ 11 * 25 ≡ p.altitude - p.altitude % 25 = omega arith in
    rw (bit_and_ones 23 lon, bit_and_ones 22 lat, bit_and_ones 11 alt)
      (rw (is_lon, is_lat, is_alt, rounded, swapped_back) refl)
