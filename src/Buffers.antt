-- ===== src/Buffers.antt =====
-- The fixed buffers of src/send_packet.c, src/receive_packet.c and src/tcp_server.c that texts are
-- written to.
use native.Mathlib.Nat.{mod-lt, one-le-pow}
use uhf_gs_csp_software.Common.{
  Bool, true, false, some, get_elem?, All, ℕ, zero, suc, ◌+◌, ◌-◌, ◌%◌, ◌^◌, ◌<◌, ◌≤◌, ◌≡◌, arith,
  List, [], ◌∷◌, ◌++◌, Bytes, codes, length, length-append, bit_and, pos,
}
use uhf_gs_csp_software.Common.Bits.{bit_and_ones}
use uhf_gs_csp_software.Common.Decimal.{print, print_zeros}
use uhf_gs_csp_software.Common.Decimal.RoundTrip.{
  length-digits-le, length-print_zeros, length-print_blanks,
}
use uhf_gs_csp_software.Timestamp.{Civil, date_text, month_days, is_leap_year}
use uhf_gs_csp_software.Timestamp.Loops.{days_before_year}
use uhf_gs_csp_software.Timestamp.Calendar.{IsMonthLength, Reads}
use uhf_gs_csp_software.Mcs.{Parameters, decode_parameters}
use uhf_gs_csp_software.Receive.{saved_name}
use uhf_gs_csp_software.Server.{message_name}

-- A text and its terminator in a buffer of `size` bytes.
abbrev pub InBuffer : ℕ → Bytes → Type 0
InBuffer size text = length text < size

field_fits : (w size n : ℕ) → 0 < w → n < 10 ^ w → w < size → InBuffer size (print (pos n))
unfolding print
field_fits w size n p h q = omega (arith, length-digits-le w n p h)

-- The buffers of the ten fields of a header, `pri[3]` and nine of six bytes.
pub record Fits (p : Parameters) : Type 0 where
  pub pri : InBuffer 3 p.pri
  pub src : InBuffer 6 p.src
  pub dst : InBuffer 6 p.dst
  pub dst_port : InBuffer 6 p.dst_port
  pub src_port : InBuffer 6 p.src_port
  pub hmac : InBuffer 6 p.hmac
  pub xtea : InBuffer 6 p.xtea
  pub rdp : InBuffer 6 p.rdp
  pub crc : InBuffer 6 p.crc
  pub data_length : InBuffer 6 p.data_length

-- The text of `k` bits of a number.
bits_fit :
    (w k size n : ℕ)
    → 0 < w
    → 2 ^ k ≤ 10 ^ w
    → w < size
    → InBuffer size (print (pos (bit_and n (2 ^ k - 1))))
bits_fit w k size n p h q =
    field_fits w size (bit_and n (2 ^ k - 1)) p
      (omega (arith, bit_and_ones k n, mod-lt n {m = 2 ^ k} (one-le-pow k 2 (omega arith)))) q

-- Whatever bytes are read as a header, its ten texts and their terminators fit the buffers of
-- `send_packet`.
pub decode_parameters-Fits : (h : Bytes) → Fits (decode_parameters h)
unfolding decode_parameters
decode_parameters-Fits h = record {
  pri = bits_fit 1 2 3 _ (omega arith) (omega arith) (omega arith);
  src = bits_fit 2 5 6 _ (omega arith) (omega arith) (omega arith);
  dst = bits_fit 2 5 6 _ (omega arith) (omega arith) (omega arith);
  dst_port = bits_fit 2 6 6 _ (omega arith) (omega arith) (omega arith);
  src_port = bits_fit 2 6 6 _ (omega arith) (omega arith) (omega arith);
  hmac = bits_fit 1 1 6 _ (omega arith) (omega arith) (omega arith);
  xtea = bits_fit 1 1 6 _ (omega arith) (omega arith) (omega arith);
  rdp = bits_fit 1 1 6 _ (omega arith) (omega arith) (omega arith);
  crc = bits_fit 1 1 6 _ (omega arith) (omega arith) (omega arith);
  data_length = bits_fit 3 8 6 _ (omega arith) (omega arith) (omega arith);
}

-- A year of four digits.
year_fits : (n : ℕ) (c : Civil) → n < 2 ^ 31 → Reads n c → c.year < 10000
unfolding days_before_year
year_fits n c h r = omega (arith, r.exact)

get_elem?-le : (m d i : ℕ) (xs : List ℕ) → All (λ x. x ≤ m) xs → get_elem? xs i ≡ some d → d ≤ m
get_elem?-le m d i [] a h = absurd (cc)
get_elem?-le m d zero (x ∷ xs) (le, _) h = ground (arith)
get_elem?-le m d (suc i) (x ∷ xs) (_, le) h = get_elem?-le m d i xs le h

month_length-le : (year mon d : ℕ) → IsMonthLength year mon d → d ≤ 31
month_length-le year mon d h =
    get_elem?-le 31 d (mon - 1) (month_days (is_leap_year year)) (months (is_leap_year year)) h
  where
    months : (b : Bool) → All (λ x. x ≤ 31) (month_days b)
    months true = omega arith
    months false = omega arith

joined :
    (a : Bytes) (c n m : ℕ) (b : Bytes)
    → length a ≡ n
    → length b ≡ m
    → length (a ++ (c ∷ b)) ≡ n + 1 + m
joined a c n m b ha hb = omega (arith, length-append {A = ℕ} a (c ∷ b))

-- The time of a moment has the nineteen characters of its pattern.
length-date_text : (n : ℕ) (c : Civil) → n < 2 ^ 31 → Reads n c → length (date_text c) ≡ 19
unfolding date_text
length-date_text n c h r =
    let two = λ (m : ℕ) (l : m < 100). length-print_zeros 2 m (omega arith) l in
    rw (r.is_day, r.is_hour, r.is_min, r.is_sec)
      (joined _ b'-' 2 16 _
        (two r.day
          (omega (arith, r.day_in, month_length-le c.year c.mon r.month_length r.has_days)))
        (joined _ b'-' 2 13 _ (two c.mon (omega (arith, r.month_in))) (
          joined _ b' ' 4 8 _ (length-print_blanks 4 c.year (omega arith) (year_fits n c h r)) (
            joined _ b':' 2 5 _ (two r.hour (omega (arith, r.time_in))) (
              joined _ b':' 2 2 _ (two r.min (omega (arith, r.time_in)))
                (two r.sec (omega (arith, r.time_in))))))))

-- The time text and the file names of a moment before 2^31 seconds, with their terminators, fit
-- `time_string_recv[100]`, `time_file_recv[200]` and `fr_name[200]`, whatever the count.
pub names-InBuffer :
    (n count : ℕ) (c : Civil)
    → n < 2 ^ 31
    → Reads n c
    → InBuffer 100 (date_text c)
      × InBuffer 200 (saved_name (date_text c) count)
      × InBuffer 200 (message_name (date_text c))
unfolding saved_name message_name
names-InBuffer n count c h r =
    let size = length-date_text n c h r in
    let text : Bytes = print_zeros 2 (pos (count % 100)) in
    let suffix : length text ≡ 2 = length-print_zeros 2 (count % 100) (omega arith) (omega arith) in
    (
      omega (arith, size),
      omega (
        arith,
        joined (date_text c) b'_' 19 6 (text ++ codes ".bin") size
            (omega (arith, suffix, length-append {A = ℕ} text (codes ".bin"))),
      ),
      omega (arith, size, length-append {A = ℕ} (date_text c) (codes ".bin")),
    )
