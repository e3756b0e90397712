-- ===== src/Send/Command.antt =====
-- The commands to the station in src/send_packet.c.
use uhf_gs_csp_software.Common.{
  ℕ, ◌/◌, ◌%◌, ◌^◌, ◌<◌, ◌≡◌, ◌≢◌, false, arith, List, [], ◌∷◌, ◌++◌, Bytes, get_or, ◌==◌, ltb_ℤ,
  if◌then◌else◌, ℤ, pos,
}
use uhf_gs_csp_software.World.{Call, Env, Station, Result, ok, called}
use uhf_gs_csp_software.Send.{freq_of, station_command}
use uhf_gs_csp_software.Tracker.{mcs_sat_read, ax100_set_tx_freq, ax100_set_rx_freq}
use uhf_gs_csp_software.Tracker.Tuning.{set_tx, set_rx}

-- A 32-bit number as four bytes, the most significant first.
abbrev pub big_endian : ℕ → Bytes
big_endian n = (n / 2 ^ 24) ∷ (n / 2 ^ 16 % 256) ∷ (n / 2 ^ 8 % 256) ∷ (n % 256) ∷ []

-- The frequency of a command is the 32-bit number that stands in it, whatever follows.
pub freq_of-big_endian :
    (code freq : ℕ) (rest : Bytes)
    → freq < 2 ^ 32
    → freq_of (code ∷ (big_endian freq ++ rest)) ≡ freq
unfolding freq_of
freq_of-big_endian code freq rest h = omega arith

-- What a setting of the radio answers.
abbrev answered : Env → List Call → Call → Result ℤ
answered e t c = ok (if ltb_ℤ (e.answer t c) (pos 1) then pos 0 else pos 1)

-- Command 3 with a frequency sets the GS100's transmit table to it, command 2 its receive table,
-- and neither does anything else; the result says whether the radio took it.
pub station_command-freq :
    (freq : ℕ) (rest : Bytes) (e : Env) (s : Station)
    → 0 < freq
    → freq < 2 ^ 32
    → (station_command (0x03 ∷ (big_endian freq ++ rest)) e s
        ≡ (answered e s.trace (set_tx freq), called (set_tx freq) s))
      × (station_command (0x02 ∷ (big_endian freq ++ rest)) e s
          ≡ (answered e s.trace (set_rx freq), called (set_rx freq) s))
unfolding station_command ax100_set_tx_freq ax100_set_rx_freq
station_command-freq freq rest e s p h =
    let some_freq : (freq == 0) ≡ false = ground arith in
    (
      rw (freq_of-big_endian 3 freq rest h, some_freq),
      rw (freq_of-big_endian 2 freq rest h, some_freq),
    )

-- A first byte that is no command, and a read of the satellite's number, change nothing and make
-- no call.
pub station_command-idle :
    (d : Bytes) (e : Env) (s : Station)
    → get_or d 0 0 ≢ 1
    → get_or d 0 0 ≢ 2
    → get_or d 0 0 ≢ 3
    → get_or d 0 0 ≢ 6
    → (station_command d e s).1 ≡ s
unfolding station_command mcs_sat_read
station_command-idle d e s n1 n2 n3 n6 = ground arith
