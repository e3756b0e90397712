-- ===== src/Tracker/Select.antt =====
-- The choice of the satellite in src/doppler_freq_correction.c.
use uhf_gs_csp_software.Common.{ℕ, leb, ◌==◌, if◌then◌else◌, ℤ, pos, eqb_ℤ}
use uhf_gs_csp_software.World.{Prog, pure, ◌>>=◌, ◌>>◌, get, modify}
use uhf_gs_csp_software.Tracker.Radio.{
  ax100_v3_address, ax100_v3_timeout, ax100_set_tx_freq, ax100_set_rx_freq,
}
use uhf_gs_csp_software.Tracker.Elements.{tleupdate}

abbrev pub max_sat_size : ℕ
max_sat_size = 3

-- The `Lumelite_n_TX`, `Lumelite_n_RX` and `Lumelite_n` of a satellite.
pub record Lumelite : Type 0 where
  pub tx : ℕ
  pub rx : ℕ
  pub element_id : ℕ

-- The `switch`
unfoldable pub lumelite : ℕ → Lumelite
lumelite sat_no =
    if sat_no == 2
    then record { tx = 435999500; rx = 435999500; element_id = 41168 }
    else if sat_no == 3
    then record { tx = 436800500; rx = 436800500; element_id = 41170 }
    else record { tx = 437075000; rx = 437075000; element_id = 56309 }

-- An invalid number is logged, and the satellite of before is selected again.
abbrev pub chosen : ℕ → ℕ → ℕ
chosen sat_no_sel sat_no = if leb sat_no_sel max_sat_size then sat_no_sel else sat_no

-- Both frequencies, of which the second waits for the first.
unfoldable pub set_both : Lumelite → Prog ℤ
set_both sat = do
  tx_set ← ax100_set_tx_freq ax100_v3_address ax100_v3_timeout sat.tx
  if eqb_ℤ tx_set (pos 0) then pure (pos 0) else do
    rx_set ← ax100_set_rx_freq ax100_v3_address ax100_v3_timeout sat.rx
    pure (if eqb_ℤ rx_set (pos 0) then pos 0 else pos 1)

-- What follows the choice: the elements, and the radio.
unfoldable pub retune : Lumelite → Prog ℤ
retune sat = do tleupdate sat.element_id; set_both sat

unfoldable pub mcs_sat_sel : ℕ → Prog ℤ
mcs_sat_sel sat_no_sel = do
  modify (λ s. record s { sat_no = chosen sat_no_sel s.sat_no })
  sat ← get (λ s. lumelite s.sat_no)
  modify (λ s. record s { tx_freq = sat.tx; rx_freq = sat.rx })
  retune sat

unfoldable pub mcs_sat_read : Prog ℤ
mcs_sat_read = get (λ s. pos s.sat_no)
