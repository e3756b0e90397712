-- ===== src/Mcs/Header.antt =====
-- The header that `decode_parameters` of src/process_mcs_file.c reads, by arithmetic.
use uhf_gs_csp_software.Common.{
  ℕ, ◌+◌, ◌-◌, ◌*◌, ◌/◌, ◌%◌, ◌^◌, ◌<◌, ◌≡◌, ap, ◌∙◌, arith, [], ◌∷◌, bit_and, bit_or, ℤ, pos,
}
use uhf_gs_csp_software.Common.Bits.{◌<<<◌, ◌>>>◌, bit_and_ones, bit_or_disjoint}
use uhf_gs_csp_software.Common.Decimal.{print, atoi}
use uhf_gs_csp_software.Common.Decimal.RoundTrip.{atoi-print}
use uhf_gs_csp_software.Mcs.{Parameters, decode_parameters}

-- The numbers that `send_packet` reads in the texts.
pub record Numbers : Type 0 where
  pub pri : ℤ
  pub src : ℤ
  pub dst : ℤ
  pub dst_port : ℤ
  pub src_port : ℤ
  pub hmac : ℤ
  pub xtea : ℤ
  pub rdp : ℤ
  pub crc : ℤ
  pub data_length : ℤ

abbrev pub numbers : Parameters → Numbers
numbers p = record {
  pri = atoi p.pri;
  src = atoi p.src;
  dst = atoi p.dst;
  dst_port = atoi p.dst_port;
  src_port = atoi p.src_port;
  hmac = atoi p.hmac;
  xtea = atoi p.xtea;
  rdp = atoi p.rdp;
  crc = atoi p.crc;
  data_length = atoi p.data_length;
}

-- The fields of a header of six bytes, from its bits.
abbrev pub fields : ℕ → ℕ → ℕ → ℕ → ℕ → ℕ → Numbers
fields b0 b1 b2 b3 b4 b5 = record {
  pri = pos (b0 / 64 % 4);
  src = pos (b0 / 2 % 32);
  dst = pos (b0 % 2 * 16 + b1 / 16);
  dst_port = pos (b1 % 16 * 4 + b2 / 64);
  src_port = pos (b2 % 64);
  hmac = pos (b3 / 8 % 2);
  xtea = pos (b3 / 4 % 2);
  rdp = pos (b3 / 2 % 2);
  crc = pos (b3 % 2);
  data_length = pos (b5 % 256);
}

-- A field that spans two bytes.
across :
    (hi lo n k : ℕ)
    → lo < 256
    → bit_and (bit_or (hi <<< 8) lo >>> k) (2 ^ n - 1) ≡ (hi * 256 + lo) / 2 ^ k % 2 ^ n
across hi lo n k h = rw (bit_or_disjoint 8 hi lo h, bit_and_ones n)

read_back : (n m : ℕ) → n ≡ m → atoi (print (pos n)) ≡ pos m
read_back n m e = atoi-print (pos n) ∙ ap pos e

-- The texts that are decoded from six bytes, the first three below 256, spell the fields of the
-- header, and `atoi` reads them back.
pub numbers-decode_parameters :
    (b0 b1 b2 b3 b4 b5 : ℕ)
    → b0 < 256
    → b1 < 256
    → b2 < 256
    → numbers (decode_parameters (b0 ∷ b1 ∷ b2 ∷ b3 ∷ b4 ∷ b5 ∷ [])) ≡ fields b0 b1 b2 b3 b4 b5
unfolding decode_parameters
numbers-decode_parameters b0 b1 b2 b3 b4 b5 h0 h1 h2 =
    let pri = read_back _ (b0 / 64 % 4) (bit_and_ones 2 (b0 / 64)) in
    let src = read_back _ (b0 / 2 % 32) (bit_and_ones 5 (b0 / 2)) in
    let dst = read_back _ (b0 % 2 * 16 + b1 / 16) (across b0 b1 5 4 h1 ∙ omega arith) in
    let dst_port = read_back _ (b1 % 16 * 4 + b2 / 64) (across b1 b2 6 6 h2 ∙ omega arith) in
    let src_port =
      read_back _ (b2 % 64)
        (bit_and_ones 6 _ ∙ (ap (λ (t : ℕ). t % 64) (bit_or_disjoint 8 b1 b2 h2) ∙ omega arith)) in
    let hmac = read_back _ (b3 / 8 % 2) (bit_and_ones 1 (b3 / 8)) in
    let xtea = read_back _ (b3 / 4 % 2) (bit_and_ones 1 (b3 / 4)) in
    let rdp = read_back _ (b3 / 2 % 2) (bit_and_ones 1 (b3 / 2)) in
    let crc = read_back _ (b3 % 2) (bit_and_ones 1 b3) in
    let data_length = read_back _ (b5 % 256) (bit_and_ones 8 b5) in
    λ i. record {
      pri = pri i;
      src = src i;
      dst = dst i;
      dst_port = dst_port i;
      src_port = src_port i;
      hmac = hmac i;
      xtea = xtea i;
      rdp = rdp i;
      crc = crc i;
      data_length = data_length i;
    }
