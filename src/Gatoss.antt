-- ===== src/Gatoss.antt =====
-- clients/gatoss-uc/gatoss_common.c: positions of planes in seven bytes. The machine's
-- floating-point operations and libcsp's byte order are parameters.
pub mod Fields
pub mod Positions
pub mod Client
pub mod Exchange
pub mod Shown
pub mod Planes
pub mod Packets
pub mod Transactions
pub mod Settings
use uhf_gs_csp_software.Common.{ℕ, ◌*◌, ◌/◌, ◌%◌, ◌^◌, bit_and, bit_or}
use uhf_gs_csp_software.Common.Bits.{◌<<<◌, ◌>>>◌}

-- `float` and `double` as the compiler has them, with its conversions and operations, and the
-- `double` of a number of tenths. The others are libcsp's.
pub record Machine : Type 1 where
  pub Float : Type 0
  pub Double : Type 0
  pub widen : Float → Double
  pub narrow : Double → Float
  pub tenths : ℕ → Double
  pub plus : Double → Double → Double
  pub minus : Double → Double → Double
  pub times : Double → Double → Double
  pub over : Double → Double → Double
  pub to_uint32 : Double → ℕ
  pub of_uint32 : ℕ → Double
  pub csp_hton16 : ℕ → ℕ
  pub csp_ntoh16 : ℕ → ℕ
  pub csp_hton32 : ℕ → ℕ
  pub csp_ntoh32 : ℕ → ℕ

-- `gatoss_pos_t`
pub record GatossPos (m : Machine) : Type 0 where
  pub lat : m.Float
  pub lon : m.Float
  pub altitude : ℕ
  pub timestamp : ℕ

-- `gatoss_compos_t`, the bytes of `compos` by their places
pub record GatossCompos : Type 0 where
  pub compos0 : ℕ
  pub compos1 : ℕ
  pub compos2 : ℕ
  pub compos3 : ℕ
  pub compos4 : ℕ
  pub compos5 : ℕ
  pub compos6 : ℕ
  pub timestamp : ℕ

-- The bytes of the three numbers; a byte keeps the eight lowest bits.
unfoldable pub pack : (lon_tmp lat_tmp alt_tmp timestamp : ℕ) → GatossCompos
pack lon_tmp lat_tmp alt_tmp timestamp = record {
  compos0 = (lon_tmp >>> 15) % 2 ^ 8;
  compos1 = (lon_tmp >>> 7) % 2 ^ 8;
  compos2 = bit_or (lon_tmp <<< 1) (lat_tmp >>> 21) % 2 ^ 8;
  compos3 = (lat_tmp >>> 13) % 2 ^ 8;
  compos4 = (lat_tmp >>> 5) % 2 ^ 8;
  compos5 = bit_or (lat_tmp <<< 3) (alt_tmp >>> 8) % 2 ^ 8;
  compos6 = bit_and alt_tmp 0xFF;
  timestamp = timestamp;
}

-- `in->altitude / 25` is a division of integers, and the cast drops the half that is added to it.
unfoldable pub gatoss_position_compress : (m : Machine) → GatossPos m → GatossCompos
gatoss_position_compress m p =
    let lon = m.plus (m.widen p.lon) (m.tenths 1800) in
    let lat = m.plus (m.widen p.lat) (m.tenths 900) in
    let lon_tmp =
      bit_and (m.to_uint32 (m.plus (m.times lon (m.tenths 233000)) (m.tenths 5))) 0x7FFFFF in
    let lat_tmp =
      bit_and (m.to_uint32 (m.plus (m.times lat (m.tenths 233000)) (m.tenths 5))) 0x3FFFFF in
    let alt_tmp = bit_and (p.altitude / 25) 0x7FF in
    pack lon_tmp lat_tmp alt_tmp (m.csp_hton32 p.timestamp)

unfoldable pub lon_of : GatossCompos → ℕ
lon_of c = bit_or (bit_or (c.compos0 <<< 15) (c.compos1 <<< 7)) (c.compos2 >>> 1)

unfoldable pub lat_of : GatossCompos → ℕ
lat_of c =
    bit_or (bit_or (bit_or (bit_and c.compos2 1 <<< 21) (c.compos3 <<< 13)) (c.compos4 <<< 5))
      (bit_and c.compos5 0xF8 >>> 3)

unfoldable pub alt_of : GatossCompos → ℕ
alt_of c = bit_or (bit_and c.compos5 0x7 <<< 8) c.compos6

unfoldable pub gatoss_positions_decompress : (m : Machine) → GatossCompos → GatossPos m
gatoss_positions_decompress m c = record {
  lat = m.narrow (m.minus (m.over (m.of_uint32 (lat_of c)) (m.tenths 233000)) (m.tenths 900));
  lon = m.narrow (m.minus (m.over (m.of_uint32 (lon_of c)) (m.tenths 233000)) (m.tenths 1800));
  altitude = alt_of c * 25;
  timestamp = m.csp_ntoh32 c.timestamp;
}
