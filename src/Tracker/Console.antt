-- ===== src/Tracker/Console.antt =====
-- The console commands of src/doppler_freq_correction.c, and of src/serial_rotator.c.
use uhf_gs_csp_software.Common.{
  not, List, Bytes, length, get_or, [], ◌==◌, if◌then◌else◌, pos, eqb_ℤ, to_u32,
}
use uhf_gs_csp_software.Common.Decimal.{atoi}
use uhf_gs_csp_software.World.{Prog, pure, ◌>>=◌, ◌>>◌}
use uhf_gs_csp_software.Rotator.{serial_set_az_el, serial_read}
use uhf_gs_csp_software.Tracker.Radio.{
  ax100_v3_address, ax100_v3_timeout, ax100_set_tx_freq, ax100_set_rx_freq, ping_sat_func, lna_conf,
}
use uhf_gs_csp_software.Tracker.Select.{mcs_sat_sel, mcs_sat_read}

-- `CMD_ERROR_NONE`, `CMD_ERROR_FAIL` and `CMD_ERROR_SYNTAX`
pub data CmdError : Type 0 where
  none fail syntax : CmdError

-- The arguments are the words of the command, its name first.
unfoldable pub tx_freq_set : List Bytes → Prog CmdError
tx_freq_set argv = if not (length argv == 2) then pure syntax else do
  set ← ax100_set_tx_freq ax100_v3_address ax100_v3_timeout (to_u32 (atoi (get_or argv 1 [])))
  pure (if eqb_ℤ set (pos 0) then fail else none)

unfoldable pub rx_freq_set : List Bytes → Prog CmdError
rx_freq_set argv = if not (length argv == 2) then pure syntax else do
  set ← ax100_set_rx_freq ax100_v3_address ax100_v3_timeout (to_u32 (atoi (get_or argv 1 [])))
  pure (if eqb_ℤ set (pos 0) then fail else none)

unfoldable pub sel_sat : List Bytes → Prog CmdError
sel_sat argv = if not (length argv == 2) then pure syntax else do
  done ← mcs_sat_sel (to_u32 (atoi (get_or argv 1 [])))
  pure (if eqb_ℤ done (pos 0) then fail else none)

unfoldable pub set_azel : List Bytes → Prog CmdError
set_azel argv =
    if not (length argv == 3)
    then pure syntax
    else do serial_set_az_el (atoi (get_or argv 1 [])) (atoi (get_or argv 2 [])); pure none

unfoldable pub read_azel : Prog CmdError
read_azel = do serial_read; pure none

unfoldable pub lna_read : Prog CmdError
lna_read = do lna_conf 0; pure none

unfoldable pub lna_on : Prog CmdError
lna_on = do lna_conf 1; pure none

unfoldable pub lna_off : Prog CmdError
lna_off = do lna_conf 2; pure none

unfoldable pub read_sat : Prog CmdError
read_sat = do mcs_sat_read; pure none

unfoldable pub ping_sat : Prog CmdError
ping_sat = do ping_sat_func; pure none
