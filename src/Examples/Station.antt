-- ===== src/Examples/Station.antt =====
-- The satellite that is tracked, the radio's frequencies and the rotator.
use uhf_gs_csp_software.Common.{◌≡◌, refl, arith, [], ◌++◌, codes, pos}
use uhf_gs_csp_software.World.{Station, ok, initial}
use uhf_gs_csp_software.Rotator.{angles, is_near, serial_set_az_el}
use uhf_gs_csp_software.Rotator.Pointing.{IsAimed, serial_set_az_el-IsAimed}
use uhf_gs_csp_software.Rotator.Wire.{Reads, pointing_calls, serial_set_az_el-sends}
use uhf_gs_csp_software.Common.Decimal.{digits}
use uhf_gs_csp_software.Tracker.{
  lumelite, mcs_sat_sel, retune, tleupdate, search_file, use_lines, match_lines, match_line,
  keep_line, strstr, strtok, is_prefix, until_eol, on_stream, hand_over, set_both,
  ax100_set_tx_freq, ax100_set_rx_freq,
}
use uhf_gs_csp_software.Tracker.Tuning.{
  IsTuned, mcs_sat_sel-IsTuned, TookBoth, mcs_sat_sel-TookBoth,
}
use uhf_gs_csp_software.Tracker.Matching.{
  last_match, key1, key2, Fetched, file_calls, hand_over_call, tleupdate_lem,
}
use uhf_gs_csp_software.Examples.Scene.{scene, elements, settings}

serial_set_az_el-IsAimed_example :
    IsAimed (pos 120) (pos 45) (serial_set_az_el (pos 120) (pos 45) scene initial).1
serial_set_az_el-IsAimed_example = serial_set_az_el-IsAimed (pos 120) (pos 45) scene initial

serial_set_az_el-sends_example :
    (serial_set_az_el (pos 120) (pos 45) scene initial ≡ (
      ok (pos 1),
      record initial {
        azi_old = pos 120;
        ele_old = pos 45;
        trace = pointing_calls (pos 5) settings (angles (pos 120) (pos 45)) ++ [];
      },
    ))
    × Reads 120 45 (angles (pos 120) (pos 45))
unfolding is_near
serial_set_az_el-sends_example =
    serial_set_az_el-sends scene initial 120 45 5 settings (omega arith) (omega arith) refl
      (record { opened = refl; got = refl; has = refl; takes = refl })

mcs_sat_sel-IsTuned_example :
    IsTuned (mcs_sat_sel 2 scene initial).1
    × ((mcs_sat_sel 2 scene initial).1.sat_no ≡ 2)
    × (lumelite 0 ≡ lumelite 1)
mcs_sat_sel-IsTuned_example = mcs_sat_sel-IsTuned 2 scene initial (omega arith)

fetched : Fetched scene initial (pos 3) elements
fetched = record { opened = refl; valid = refl; loaded = refl; has = refl }

selected : (mcs_sat_sel 2 scene initial).0 ≡ ok (pos 1)
unfolding mcs_sat_sel retune tleupdate lumelite search_file use_lines match_lines match_line
    keep_line strstr strtok is_prefix digits until_eol on_stream hand_over set_both
    ax100_set_tx_freq ax100_set_rx_freq
selected = refl

mcs_sat_sel-TookBoth_example :
    TookBoth scene (lumelite (mcs_sat_sel 2 scene initial).1.sat_no) (mcs_sat_sel 2 scene initial).1
mcs_sat_sel-TookBoth_example = mcs_sat_sel-TookBoth 2 scene initial selected

tleupdate_lem_example : tleupdate 56309 scene initial ≡ (
  ok tt,
  record initial {
    tle1 = last_match (key1 56309) elements [];
    tle2 = last_match (key2 56309) elements [];
    trace =
        hand_over_call
          (last_match (key1 56309) elements [])
          (last_match (key2 56309) elements [])
          (file_calls (pos 3) []);
  },
)
tleupdate_lem_example =
    tleupdate_lem 56309 (pos 3) elements scene initial refl fetched
      (omega arith, (omega arith, (omega arith, tt)))

-- A station that has the elements of another satellite.
abbrev tuned : Station
tuned = record initial { tle1 = codes "1 41168U "; tle2 = codes "2 41168 " }

tuned-Fetched : Fetched scene tuned (pos 3) elements
tuned-Fetched = record { opened = refl; valid = refl; loaded = refl; has = refl }
