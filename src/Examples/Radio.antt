-- ===== src/Examples/Radio.antt =====
-- The satellite's radio: a session on the console, and logs.
use uhf_gs_csp_software.Common.{◌≡◌, refl, arith, some, List, [], ◌∷◌, ◌++◌, codes, pos}
use uhf_gs_csp_software.World.{ok, undefined}
use uhf_gs_csp_software.Com.{
  NanocomConf, NanocomRssi, NanocomHk, swap_conf, com_get_log_rssi, com_get_hk,
}
use uhf_gs_csp_software.Com.Console.{
  CommandContext, Console, Env, conf_sent, preamble_length_field, tx_baud_field, Command, cg, cs,
  number, maxtemp, session,
}
use uhf_gs_csp_software.Com.Logs.{entries, rssi_sent, hk_sent, com_get_log-all}
use uhf_gs_csp_software.Com.Session.{conf_call, edits_sent, session-sends}
use uhf_gs_csp_software.Examples.Orders.{swap16, swapping, swapping-IsInverse}

abbrev settings : NanocomConf
settings = record {
  do_rs = 1;
  do_random = 1;
  do_viterbi = 1;
  tx_baud = 48;
  rx_baud = 48;
  tx_max_temp = 60;
  preamble_length = 75;
  morse_enable = 1;
  morse_mode = 0;
  morse_cycle = 1;
  morse_en_voltage = 1;
  morse_en_rx_count = 0;
  morse_en_tx_count = 0;
  morse_en_temp_a = 1;
  morse_en_temp_b = 0;
  morse_en_rssi = 0;
  morse_en_rf_err = 0;
  morse_inter_delay = 180;
  morse_pospone = 20;
  morse_wpm = 20;
  morse_text = codes "GOMX             \0";
  morse_bat_level = 700;
  hk_interval = 60;
}

-- Every number that is typed is 300.
abbrev env : Env
env = record { scan_u = λ args. some 300; conf_link = λ c m. (pos 48, swap_conf swap16 settings) }

abbrev console : Console
console = record { com_node = 5; com_timeout = 2000; com_conf = settings }

abbrev typed : CommandContext
typed = record { args = codes "300\0"; argv = codes "preamble" ∷ codes "300" ∷ [] }

abbrev edits : List Command
edits = number preamble_length_field typed ∷ maxtemp typed ∷ number tx_baud_field typed ∷ []

session-sends_example :
    (session swapping env (cg ∷ edits ++ (cs ∷ [])) console).1
    ≡ conf_sent
        (conf_call swapping env console (edits_sent swap16 env edits (swap_conf swap16 settings)))
      ∷ []
session-sends_example =
    session-sends swapping env edits console (pos 48) (swap_conf swap16 settings) swapping-IsInverse
      (tt, (tt, (tt, tt))) refl (λ c asked. refl)

abbrev logs : List NanocomRssi
logs =
    record { time = 70000; rssi = 65430; rferr = 12 }
    ∷ record { time = 70010; rssi = 65428; rferr = 9 }
    ∷ []

abbrev hks : List NanocomHk
hks = record { time = 70000; temp_a = 21; temp_b = 19; batt_volt = 791 } ∷ []

-- What the arrays of the console, of ten entries, hold behind those.
abbrev old_logs : List NanocomRssi
old_logs =
    let old : NanocomRssi = record { time = 0; rssi = 0; rferr = 0 } in
    old ∷ old ∷ old ∷ old ∷ old ∷ old ∷ old ∷ old ∷ []

abbrev old_hks : List NanocomHk
old_hks =
    let old : NanocomHk = record { time = 0; temp_a = 0; temp_b = 0; batt_volt = 0 } in
    old ∷ old ∷ old ∷ old ∷ old ∷ old ∷ old ∷ old ∷ old ∷ []

com_get_log-all_example :
    (com_get_log_rssi swapping
        (λ c m. (pos 16, entries (rssi_sent swapping) logs ++ old_logs))
        (logs ++ old_logs)
        10
        5
        2000
      ≡ ok (1, logs ++ old_logs, 2))
    × (com_get_hk swapping
          (λ c m. (pos 10, entries (hk_sent swapping) hks ++ old_hks))
          (hks ++ old_hks)
          10
          5
          2000
        ≡ ok (1, hks ++ old_hks, 1))
    × (com_get_log_rssi swapping (λ c a. (pos 110, [])) (logs ++ old_logs) 10 5 2000 ≡ undefined)
    × (com_get_hk swapping (λ c a. (pos 110, [])) (hks ++ old_hks) 10 5 2000 ≡ undefined)
com_get_log-all_example =
    com_get_log-all swapping 5 2000 10 logs old_logs (logs ++ old_logs)
      (λ c m. (pos 16, entries (rssi_sent swapping) logs ++ old_logs)) hks old_hks (hks ++ old_hks)
      (λ c m. (pos 10, entries (hk_sent swapping) hks ++ old_hks)) 110 [] [] swapping-IsInverse
      (omega arith) (omega arith) refl refl (omega arith) (omega arith) (omega arith) (omega arith)
      (λ c asked. refl) (λ c asked. refl)
