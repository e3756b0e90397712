-- ===== src/Send/Uplink.antt =====
-- What `send_packet` of src/send_packet.c sends to the satellite.
use uhf_gs_csp_software.Common.{
  ℕ, ◌+◌, ◌*◌, ◌/◌, ◌%◌, ◌<◌, ◌≤◌, ◌≡◌, ap, false, [], ◌∷◌, Bytes, negsuc, eqb_ℤ, le→ltb,
}
use uhf_gs_csp_software.World.{Call, Env, Station, called}
use uhf_gs_csp_software.Mcs.{Parameters, decode_parameters}
use uhf_gs_csp_software.Mcs.Header.{Numbers, numbers, fields, numbers-decode_parameters}
use uhf_gs_csp_software.Timestamp.{get_time}
use uhf_gs_csp_software.Send.{uplink, route}

-- The call that sends `d` under the header of these bytes.
abbrev pub sends : ℕ → ℕ → ℕ → ℕ → Bytes → Call
sends b0 b1 b2 b5 d =
    Call.csp_sendto (b0 / 64 % 4) (b0 % 2 * 16 + b1 / 16) (b1 % 16 * 4 + b2 / 64) (b2 % 64) 0
      (record { length = b5 % 256; bytes = d }) 1000

-- The same for any texts that spell the fields.
spelled-sends :
    (p : Parameters) (b0 b1 b2 b3 b4 b5 : ℕ) (d : Bytes) (e : Env) (s : Station)
    → numbers p ≡ fields b0 b1 b2 b3 b4 b5
    → b0 % 2 * 16 + b1 / 16 ≤ 15
    → eqb_ℤ (e.answer s.trace (sends b0 b1 b2 b5 d)) (negsuc 0) ≡ false
    → route p d e s ≡ get_time e (called (sends b0 b1 b2 b5 d) s)
unfolding route uplink
spelled-sends p b0 b1 b2 b3 b4 b5 d e s n low taken = rw (
  ap (λ (x : Numbers). x.dst) n,
  le→ltb 15 _ low,
  ap (λ (x : Numbers). x.pri) n,
  ap (λ (x : Numbers). x.dst_port) n,
  ap (λ (x : Numbers). x.src_port) n,
  ap (λ (x : Numbers). x.data_length) n,
  taken,
)

-- A header with a destination of at most 15: if libcsp takes the packet, it goes out once, with the
-- priority, the addresses and the ports that its bits spell, a length of its last byte and the
-- data of the file, and then the time is asked.
pub route-sends :
    (b0 b1 b2 b3 b4 b5 : ℕ) (d : Bytes) (e : Env) (s : Station)
    → b0 < 256
    → b1 < 256
    → b2 < 256
    → b0 % 2 * 16 + b1 / 16 ≤ 15
    → eqb_ℤ (e.answer s.trace (sends b0 b1 b2 b5 d)) (negsuc 0) ≡ false
    → route (decode_parameters (b0 ∷ b1 ∷ b2 ∷ b3 ∷ b4 ∷ b5 ∷ [])) d e s
      ≡ get_time e (called (sends b0 b1 b2 b5 d) s)
route-sends b0 b1 b2 b3 b4 b5 d e s h0 h1 h2 =
    spelled-sends _ b0 b1 b2 b3 b4 b5 d e s (numbers-decode_parameters b0 b1 b2 b3 b4 b5 h0 h1 h2)
