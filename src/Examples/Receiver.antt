-- ===== src/Examples/Receiver.antt =====
-- The receiver of planes: its configuration, with the passive task built in.
use uhf_gs_csp_software.Common.{◌≡◌, refl, true, pos}
use uhf_gs_csp_software.Gatoss.Transactions.{gatoss_conf_set, gatoss_conf_get}
use uhf_gs_csp_software.Gatoss.Packets.{Receiver, GatossConf}
use uhf_gs_csp_software.Gatoss.Settings.{conf_sent, gatoss_conf_get-set}
use uhf_gs_csp_software.Examples.Orders.{swap16-swap16, swap32-swap32, swapping, swapping-IsInverse}

abbrev receiver : Receiver
receiver = record { node_gatoss = 4; timeout_gatoss = 5000 }

abbrev config : GatossConf
config = record {
  sd_enable = 1;
  fpga_image = 2;
  fpga_wdt_enable = 3;
  fpga_threshold_a = 70003;
  fpga_threshold_b = 70004;
  fpga_threshold_count = 70005;
  fpga_adc = 1;
  fpga_adc_switch_interval = 307;
  passive_inhibit = 308;
  passive_interval_list_short = 309;
  passive_interval_list_full = 310;
  passive_interval_plane = 311;
  passive_live_min_tx_interval = 312;
  passive_live_interval = 313;
  passive_filter_list_short = 314;
  passive_filter_list_full = 315;
  garbage_collector_interval = 316;
  garbage_plane_inactive_interval = 317;
  garbage_plane_no_lock_inactive_interval = 318;
  garbage_plane_frame_count = 319;
  garbage_plane_frame_interval = 320;
  garbage_pos_lifetime = 321;
  garbage_frame_lifetime = 322;
  plane_enable_frame_log = 3;
  plane_position_log_interval = 1;
  curr_max_3v3_sd = 2;
  curr_max_1v2 = 3;
  curr_max_2v5 = 1;
  curr_max_3v3_fpga = 2;
  curr_max_3v3_adc = 3;
  curr_max_3v3_board = 330;
  curr_max_5v0_board = 331;
  latchup_channel = 3;
  eps_csp_addr = 1;
  eps_adsb_pwr_chan = 2;
}

gatoss_conf_get-set_example :
    ((gatoss_conf_set swapping receiver true config).0.request ≡ conf_sent swapping true config)
    × ((gatoss_conf_set swapping receiver true config).1 ≡ conf_sent swapping true config)
    × (gatoss_conf_get swapping receiver true
          (λ c m. (pos 62, conf_sent swapping true config))
          config
        ≡ (pos 62, config))
    × ((gatoss_conf_set swapping receiver true
          (gatoss_conf_set swapping receiver true config).1).0.request
        ≡ config)
gatoss_conf_get-set_example =
    gatoss_conf_get-set swapping receiver true (pos 62) config config
      (λ c m. (pos 62, conf_sent swapping true config)) swapping-IsInverse swap16-swap16
      swap32-swap32 refl (λ c asked. refl)
