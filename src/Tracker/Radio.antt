-- ===== src/Tracker/Radio.antt =====
-- The radio part of src/doppler_freq_correction.c: the AX100's frequencies, the ping and the
-- relay of the low-noise amplifier.
use uhf_gs_csp_software.Common.{ℕ, [], ◌∷◌, codes, ◌==◌, if◌then◌else◌, ℤ, pos, ltb_ℤ, eqb_ℤ}
use uhf_gs_csp_software.World.{Call, Packet, Prog, undefined, pure, stop, ◌>>=◌, ◌>>◌, call}

abbrev pub ax100_port_rparam : ℕ
ax100_port_rparam = 7

abbrev pub ax100_v3_rxtx_freq : ℕ
ax100_v3_rxtx_freq = 0

abbrev pub ax100_v3_param_rx : ℕ
ax100_v3_param_rx = 1

abbrev pub ax100_v3_param_tx : ℕ
ax100_v3_param_tx = 5

abbrev pub ax100_v3_address : ℕ
ax100_v3_address = 29

abbrev pub ax100_v3_timeout : ℕ
ax100_v3_timeout = 1000

-- The two setters differ in the table that they write.
unfoldable pub ax100_set_tx_freq : ℕ → ℕ → ℕ → Prog ℤ
ax100_set_tx_freq node timeout freq = if freq == 0 then pure (pos 0) else do
  set ← call (
      Call.rparam_set_uint32 freq ax100_v3_rxtx_freq ax100_v3_param_tx node ax100_port_rparam
        timeout)
  pure (if ltb_ℤ set (pos 1) then pos 0 else pos 1)

unfoldable pub ax100_set_rx_freq : ℕ → ℕ → ℕ → Prog ℤ
ax100_set_rx_freq node timeout freq = if freq == 0 then pure (pos 0) else do
  set ← call (
      Call.rparam_set_uint32 freq ax100_v3_rxtx_freq ax100_v3_param_rx node ax100_port_rparam
        timeout)
  pure (if ltb_ℤ set (pos 1) then pos 0 else pos 1)

abbrev pub ping_packet : Packet
ping_packet = record { length = 1; bytes = 0 ∷ [] }

-- The buffer is written without a test: at NULL that is undefined.
unfoldable pub ping_sat_func : Prog ℤ
ping_sat_func = do
  packet ← call Call.csp_buffer_get
  if eqb_ℤ packet (pos 0)
      then stop undefined
      else do call (Call.csp_sendto 2 25 1 17 0 ping_packet 1000); pure (pos 0)

unfoldable pub lna_conf : ℕ → Prog ℤ
lna_conf code = do
  state ← call (
      Call.system (
        if code == 0
        then codes "sudo usbrelay"
        else if code == 1
        then codes "sudo usbrelay R_1=1"
        else codes "sudo usbrelay R_1=0"))
  pure (if eqb_ℤ state (pos 0) then pos 0 else pos 1)
