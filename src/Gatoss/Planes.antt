-- ===== src/Gatoss/Planes.antt =====
-- The planes that a receiver packs with clients/gatoss-uc/gatoss_common.c, as gatoss_list_short of
-- clients/gatoss-uc/gatoss_client.c shows them.
use uhf_gs_csp_software.Common.{
  ℕ, ◌-◌, ◌/◌, ◌%◌, ◌^◌, ◌<◌, ◌≡◌, refl, ◌∙◌, arith, true, List, [], ◌∷◌, All, pos, bit_or,
}
use mathlib.Core.Path.{ap₂}
use uhf_gs_csp_software.Common.Bits.{◌<<<◌, bit_or_disjoint, bit_or_comm}
use uhf_gs_csp_software.World.{ok}
use uhf_gs_csp_software.Gatoss.{Machine, GatossPos, gatoss_position_compress}
use uhf_gs_csp_software.Gatoss.Positions.{units, degrees, decompress-compress}
use uhf_gs_csp_software.Gatoss.Client.{
  Line, short_line, GatossCall, ListAnswers, PlaneShort, icao24_of, plane_short_line,
  gatoss_list_short, gatoss_port_list_short, list_req,
}
use uhf_gs_csp_software.Gatoss.Shown.{Spells, lines_of, lines, exchange-shows}

icao24_of-bytes :
    (m : Machine) (n : ℕ)
    → n < 2 ^ 24
    → icao24_of m (n % 2 ^ 8 ∷ n / 2 ^ 8 % 2 ^ 8 ∷ n / 2 ^ 16 % 2 ^ 8 ∷ []) ≡ n
unfolding icao24_of
icao24_of-bytes m n h =
    let low : bit_or (n % 2 ^ 8) (n / 2 ^ 8 % 2 ^ 8 <<< 8) ≡ n % 2 ^ 16 = omega (
      arith,
      bit_or_comm (n % 2 ^ 8) (n / 2 ^ 8 % 2 ^ 8 <<< 8),
      bit_or_disjoint 8 (n / 2 ^ 8 % 2 ^ 8) (n % 2 ^ 8) (omega arith),
    ) in
    rw low (
      omega (
        arith,
        bit_or_comm (n % 2 ^ 16) (n / 2 ^ 16 % 2 ^ 8 <<< 16),
        bit_or_disjoint 16 (n / 2 ^ 16 % 2 ^ 8) (n % 2 ^ 16) (omega arith),
      ))

pub record Plane (m : Machine) : Type 0 where
  pub icao24 : ℕ
  pub position : GatossPos m

module _ {m : Machine} where
  -- A plane whose position is packed without loss of its altitude's high bits, on a machine that
  -- swaps its time back.
  pub record IsPacked (p : Plane m) : Type 0 where
    pub icao24 : p.icao24 < 2 ^ 24
    pub altitude : p.position.altitude < 51200
    pub swapped_back : m.csp_ntoh32 (m.csp_hton32 p.position.timestamp) ≡ p.position.timestamp

  -- The element for a plane: three bytes of its number, the lowest first, and its position in
  -- seven bytes.
  abbrev pub plane_short : Plane m → PlaneShort
  plane_short p = record {
    icao24 = p.icao24 % 2 ^ 8 ∷ p.icao24 / 2 ^ 8 % 2 ^ 8 ∷ p.icao24 / 2 ^ 16 % 2 ^ 8 ∷ [];
    compos = gatoss_position_compress m p.position;
  }

  abbrev pub planes_short : List (Plane m) → List PlaneShort
  planes_short [] = []
  planes_short (p ∷ planes) = plane_short p ∷ planes_short planes

  -- The line for a plane: its number, its angles as their units tell them, and its altitude
  -- rounded down to 25.
  abbrev pub plane_line : Plane m → Line m
  plane_line p = short_line p.icao24 (record {
    lat = degrees m 900 (units m 900 p.position.lat % 2 ^ 22);
    lon = degrees m 1800 (units m 1800 p.position.lon % 2 ^ 23);
    altitude = p.position.altitude - p.position.altitude % 25;
    timestamp = p.position.timestamp;
  })

  abbrev pub plane_lines : List (Plane m) → List (Line m)
  plane_lines [] = []
  plane_lines (p ∷ planes) = plane_line p ∷ plane_lines planes

  plane_short_line-plane :
      (p : Plane m) → IsPacked p → plane_short_line m (plane_short p) ≡ plane_line p
  unfolding plane_short_line
  plane_short_line-plane p h =
      ap₂ (λ (n : ℕ) (q : GatossPos m). short_line n q) (icao24_of-bytes m p.icao24 h.icao24)
        (decompress-compress m p.position h.altitude h.swapped_back)

  lines-planes :
      (planes : List (Plane m))
      → All IsPacked planes
      → lines (plane_short_line m) (planes_short planes) ≡ plane_lines planes
  lines-planes [] h = refl
  lines-planes (p ∷ planes) (q, h) =
      ap₂ (λ (l : Line m) (rest : List (Line m)). l ∷ rest) (plane_short_line-plane p q)
        (lines-planes planes h)

  -- A receiver that packs its planes, with their numbers below 2^24, their altitudes below 51200
  -- and a byte order that is swapped back, and sends them in any division: with a connection, a
  -- buffer and a request that is taken, `gatoss_list_short` returns 0 and shows every plane once,
  -- in their order, with its number, its time, its altitude rounded down to 25, and its angles as
  -- their units of 1/23300 degree tell them. The planes shown are those of the packets up to the
  -- first behind whose freed buffer the end flag is found not to be 0, whatever the packet had
  -- there; there must be such a packet.
  pub gatoss_list_short-shows :
      (filtering packet_limit start_index : ℕ) (a : ListAnswers PlaneShort)
      (planes : List (Plane m))
      → a.connection ≡ true
      → a.buffer ≡ true
      → a.sent ≡ true
      → All IsPacked planes
      → Spells (planes_short planes) a.replies
      → (calls : List (GatossCall m)) × (gatoss_list_short m filtering packet_limit start_index a
          ≡ ok (pos 0, calls))
        × (lines_of calls ≡ plane_lines planes)
  unfolding gatoss_list_short
  gatoss_list_short-shows filtering packet_limit start_index a planes connected buffer sent packed
        spells =
      let (calls, ends, shown) =
        exchange-shows (plane_short_line m) gatoss_port_list_short 12
          (list_req (m.csp_hton32 filtering) (m.csp_hton32 packet_limit) (m.csp_hton32 start_index))
          a (planes_short planes) connected buffer sent spells in
      (calls, ends, shown ∙ lines-planes planes packed)
