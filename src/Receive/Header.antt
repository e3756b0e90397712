-- ===== src/Receive/Header.antt =====
-- The header that src/receive_packet.c writes, read back by `decode_parameters` of
-- src/process_mcs_file.c.
use uhf_gs_csp_software.Common.{
  ℕ, ◌+◌, ◌*◌, ◌/◌, ◌%◌, ◌^◌, ◌<◌, ◌≡◌, ◌∙◌, arith, [], ◌∷◌, bit_and, bit_or, pos,
}
use uhf_gs_csp_software.Common.Bits.{◌<<<◌, ◌>>>◌, bit_and_field, bit_and_ones, bit_or_disjoint}
use uhf_gs_csp_software.Mcs.{decode_parameters}
use uhf_gs_csp_software.Mcs.Header.{numbers, numbers-decode_parameters}
use uhf_gs_csp_software.Receive.{csp_header}

zero_or : (a : ℕ) → a < 64 → bit_or 0 a ≡ a
zero_or a h = omega (arith, bit_or_disjoint 6 0 a h)

-- Five bits of the source and the top bit of the destination.
first_byte :
    (src dst : ℕ)
    → bit_or (bit_or 0 (bit_and (src <<< 1) 0x3e)) (bit_and (dst >>> 4) 0x01) % 2 ^ 8
      ≡ src % 32 * 2 + dst / 16 % 2
first_byte src dst =
    rw
      (
        bit_and_field 1 5 src,
        bit_and_ones 1 (dst / 16),
        zero_or (src % 32 * 2) (omega arith),
        bit_or_disjoint 1 (src % 32) (dst / 16 % 2) (omega arith),
      )
      (omega arith)

-- Four bits of the destination and four of its port.
second_byte :
    (dst dport : ℕ)
    → bit_or (bit_and (dst <<< 4) 0xf0) (bit_and (dport >>> 2) 0x0f) % 2 ^ 8
      ≡ dst % 16 * 16 + dport / 4 % 16
second_byte dst dport =
    rw
      (
        bit_and_field 4 4 dst,
        bit_and_ones 4 (dport / 4),
        bit_or_disjoint 4 (dst % 16) (dport / 4 % 16) (omega arith),
      )
      (omega arith)

-- Two bits of the destination's port and the source's port.
third_byte :
    (dport sport : ℕ)
    → bit_or (bit_and (dport <<< 6) 0xc0) (bit_and sport 0x3f) % 2 ^ 8 ≡ dport % 4 * 64 + sport % 64
third_byte dport sport =
    rw
      (
        bit_and_field 6 2 dport,
        bit_and_ones 6 sport,
        bit_or_disjoint 6 (dport % 4) (sport % 64) (omega arith),
      )
      (omega arith)

-- The header by arithmetic.
pub csp_header_bytes :
    (dst src sport dport flags size : ℕ)
    → csp_header (dst ∷ src ∷ sport ∷ dport ∷ flags ∷ []) size
      ≡ (src % 32 * 2 + dst / 16 % 2)
        ∷ (dst % 16 * 16 + dport / 4 % 16)
        ∷ (dport % 4 * 64 + sport % 64)
        ∷ 0
        ∷ (size / 256 % 256)
        ∷ (size % 256)
        ∷ []
unfolding csp_header
csp_header_bytes dst src sport dport flags size =
    rw (first_byte src dst, second_byte dst dport, third_byte dport sport)

-- What `decode_parameters` reads in the header that is saved with a packet: for addresses
-- below 32 and ports below 64, those of the connection, no priority and no flag, and of the length
-- the low byte.
pub decode_parameters-csp_header :
    (dst src sport dport flags size : ℕ)
    → dst < 32
    → src < 32
    → sport < 64
    → dport < 64
    → numbers (decode_parameters (csp_header (dst ∷ src ∷ sport ∷ dport ∷ flags ∷ []) size))
      ≡ record {
        pri = pos 0;
        src = pos src;
        dst = pos dst;
        dst_port = pos dport;
        src_port = pos sport;
        hmac = pos 0;
        xtea = pos 0;
        rdp = pos 0;
        crc = pos 0;
        data_length = pos (size % 256);
      }
decode_parameters-csp_header dst src sport dport flags size hd hs hsp hdp = rw csp_header_bytes (
    numbers-decode_parameters (src % 32 * 2 + dst / 16 % 2) (dst % 16 * 16 + dport / 4 % 16)
      (dport % 4 * 64 + sport % 64) 0 (size / 256 % 256) (size % 256) (omega arith) (omega arith)
      (omega arith)
    ∙ ground arith)
