-- ===== src/Tracker/Pass.antt =====
-- The pass of the satellite over the station in src/doppler_freq_correction.c. The predictor's
-- azimuth and elevation enter as the integers that the code truncates them to.
use uhf_gs_csp_software.Common.{
  ℕ, zero, suc, ◌||◌, if◌then◌else◌, ℤ, pos, ltb_ℤ, is_neg, ◌-ℤ◌, eqb_ℤ, to_u32, not,
}
use uhf_gs_csp_software.World.{Call, Prog, no_fuel, pure, stop, ◌>>=◌, ◌>>◌, get, call}
use uhf_gs_csp_software.Rotator.{serial_set_az_el}
use uhf_gs_csp_software.Tracker.Radio.{
  ax100_v3_address, ax100_v3_timeout, ax100_set_tx_freq, ax100_set_rx_freq, ping_sat_func,
}

abbrev pub doppler_update_interval : ℕ
doppler_update_interval = 2

abbrev pub min_elevation : ℕ
min_elevation = 1

abbrev pub min_ping_ele : ℕ
min_ping_ele = 20

-- The radio follows from the least elevation on, which a truncated elevation decides too.
unfoldable pub tune : ℤ → ℕ → ℕ → Prog (Unit {0})
tune ele tx_freq rx_freq = if ltb_ℤ ele (pos min_elevation) then pure tt else do
  ax100_set_tx_freq ax100_v3_address ax100_v3_timeout tx_freq
  ax100_set_rx_freq ax100_v3_address ax100_v3_timeout rx_freq
  pure tt

unfoldable pub aim : ℤ → ℤ → Prog (Unit {0})
aim azi eli = if ltb_ℤ (pos 90) eli then pure tt else do serial_set_az_el azi eli; pure tt

-- The ping of a high satellite. `ele_above` answers whether the elevation, which is no integer, is
-- above its argument.
unfoldable pub ping_high : Prog (Unit {0})
ping_high = do
  high ← call (Call.ele_above min_ping_ele)
  if eqb_ℤ high (pos 0) then pure tt else do ping_sat_func; pure tt

-- The corrected frequencies.
unfoldable pub correct : ℕ → ℕ → ℤ → Prog (Unit {0})
correct txfreq rxfreq eli = do
  rx_freq ← call (Call.comp_dopp_frq rxfreq 0)
  tx_freq ← call (Call.comp_dopp_frq txfreq 1)
  tune eli (to_u32 tx_freq) (to_u32 rx_freq)
  ping_high

unfoldable pub doppler_tracking : ℕ → ℕ → ℕ → Prog (Unit {0})
doppler_tracking txfreq rxfreq tnow = do
  call (Call.predict_at tnow)
  azi ← call Call.get_azi
  eli ← call Call.get_ele
  aim azi eli
  correct txfreq rxfreq eli

-- The seconds that `clock_get_time` gives.
unfoldable pub seconds_now : Prog ℕ
seconds_now = do now ← call Call.clock_get_time; pure (to_u32 now)

-- The loop of a pass, with the rounds that are left.
unfoldable pub follow : ℕ → ℤ → ℕ → Prog (Unit {0})
follow zero time_los tnow = if ltb_ℤ (pos tnow) time_los then stop no_fuel else pure tt
follow (suc f) time_los tnow = do
  let rest = λ (later : ℕ). follow f time_los later
  if not (ltb_ℤ (pos tnow) time_los) then pure tt else do
    now ← seconds_now
    txfreq ← get (λ s. s.tx_freq)
    rxfreq ← get (λ s. s.rx_freq)
    doppler_tracking txfreq rxfreq now
    call (Call.sleep doppler_update_interval)
    rest now

unfoldable pub ground_pass_in_progress : ℕ → ℤ → ℤ → Prog (Unit {0})
ground_pass_in_progress fuel time_aos time_los =
    if is_neg (time_los -ℤ time_aos) then pure tt else do
      tnow ← seconds_now
      if ltb_ℤ (pos tnow) time_aos || ltb_ℤ time_los (pos tnow)
          then pure tt
          else do follow fuel time_los tnow; serial_set_az_el (pos 70) (pos 0); pure tt
