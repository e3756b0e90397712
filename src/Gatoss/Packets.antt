-- ===== src/Gatoss/Packets.antt =====
-- clients/gatoss-uc/io/gatoss.h: what the receiver of planes is asked and answers in a single
-- packet. Signed numbers and `float` are their bits.
use uhf_gs_csp_software.Common.{ℕ, List, Bytes}
use uhf_gs_csp_software.Gatoss.{GatossCompos}

abbrev pub gatoss_port_power : ℕ
gatoss_port_power = 8

abbrev pub gatoss_port_hk : ℕ
gatoss_port_hk = 9

abbrev pub gatoss_port_load_fpga : ℕ
gatoss_port_load_fpga = 10

abbrev pub gatoss_port_load_uc : ℕ
gatoss_port_load_uc = 11

abbrev pub gatoss_port_threshold : ℕ
gatoss_port_threshold = 12

abbrev pub gatoss_port_sel_adc : ℕ
gatoss_port_sel_adc = 13

abbrev pub gatoss_port_recover_fs : ℕ
gatoss_port_recover_fs = 15

abbrev pub gatoss_port_conf : ℕ
gatoss_port_conf = 16

abbrev pub gatoss_port_restore : ℕ
gatoss_port_restore = 17

abbrev pub gatoss_port_plane_full : ℕ
gatoss_port_plane_full = 22

abbrev pub gatoss_port_file_all_frames : ℕ
gatoss_port_file_all_frames = 25

abbrev pub gatoss_port_file_all_positions : ℕ
gatoss_port_file_all_positions = 26

abbrev pub gatoss_port_file_plane : ℕ
gatoss_port_file_plane = 27

abbrev pub gatoss_port_file_raw_samples : ℕ
gatoss_port_file_raw_samples = 28

abbrev pub gatoss_port_db_store : ℕ
gatoss_port_db_store = 30

-- `node_gatoss` and `timeout_gatoss`
pub record Receiver : Type 0 where
  pub node_gatoss : ℕ
  pub timeout_gatoss : ℕ

-- `gatoss_power_req`, `gatoss_load_req`, `gatoss_file_plane_req` and its reply,
-- `gatoss_file_all_frames_req`, `gatoss_file_raw_samples_req` and `gatoss_db_store_req`
pub record PowerReq : Type 0 where
  pub channels : ℕ
  pub state : ℕ

pub record LoadReq : Type 0 where
  pub autoload : ℕ
  pub load_now : ℕ
  pub store_as_dfl : ℕ
  pub path : Bytes

pub record FilePlaneReq : Type 0 where
  pub icao24 : ℕ
  pub format : ℕ
  pub begin_time : ℕ
  pub end_time : ℕ
  pub max_size : ℕ
  pub path : Bytes

pub record FilePlaneReply : Type 0 where
  pub mem_addr : ℕ
  pub mem_size : ℕ

pub record FileAllReq : Type 0 where
  pub start_time : ℕ
  pub run_duration : ℕ
  pub max_size : ℕ
  pub path : Bytes

pub record RawSamplesReq : Type 0 where
  pub noise_sample : ℕ
  pub timeout : ℕ
  pub max_count : ℕ
  pub max_size : ℕ
  pub threshold : ℕ
  pub path : Bytes

pub record DbStoreReq : Type 0 where
  pub kind : ℕ
  pub path : Bytes

-- `struct gatoss_plane_full`
pub record GatossPlane : Type 0 where
  pub icao24 : ℕ
  pub id : Bytes
  pub frame_counter : ℕ
  pub position_counter : ℕ
  pub first_contact : ℕ
  pub last_contact : ℕ
  pub compos : GatossCompos
  pub heading : ℕ
  pub speed : ℕ
  pub positions : List GatossCompos

-- `gatoss_hk_t`, with `last_pos` by its fields
pub record GatossHk : Type 0 where
  pub current_1v2 : ℕ
  pub current_2v5 : ℕ
  pub current_3v3_fpga : ℕ
  pub current_3v3_adc : ℕ
  pub current_5v0_board : ℕ
  pub current_3v3_board : ℕ
  pub current_3v3_sd : ℕ
  pub average_fps_10sec : ℕ
  pub average_fps_1min : ℕ
  pub average_fps_5min : ℕ
  pub plane_count : ℕ
  pub frame_count : ℕ
  pub crc_corrected : ℕ
  pub last_icao24 : ℕ
  pub last_pos_lat : ℕ
  pub last_pos_lon : ℕ
  pub last_pos_altitude : ℕ
  pub last_pos_timestamp : ℕ
  pub bootcount : ℕ
  pub bootcause : ℕ
  pub current_time : ℕ
  pub tot_frames : ℕ
  pub tot_planes : ℕ
  pub tot_crc_corrected : ℕ
  pub fpga_crc_cnt : ℕ
  pub flash_last_write : ℕ

-- `gatoss_conf_t`
pub record GatossConf : Type 0 where
  pub sd_enable : ℕ
  pub fpga_image : ℕ
  pub fpga_wdt_enable : ℕ
  pub fpga_threshold_a : ℕ
  pub fpga_threshold_b : ℕ
  pub fpga_threshold_count : ℕ
  pub fpga_adc : ℕ
  pub fpga_adc_switch_interval : ℕ
  pub passive_inhibit : ℕ
  pub passive_interval_list_short : ℕ
  pub passive_interval_list_full : ℕ
  pub passive_interval_plane : ℕ
  pub passive_live_min_tx_interval : ℕ
  pub passive_live_interval : ℕ
  pub passive_filter_list_short : ℕ
  pub passive_filter_list_full : ℕ
  pub garbage_collector_interval : ℕ
  pub garbage_plane_inactive_interval : ℕ
  pub garbage_plane_no_lock_inactive_interval : ℕ
  pub garbage_plane_frame_count : ℕ
  pub garbage_plane_frame_interval : ℕ
  pub garbage_pos_lifetime : ℕ
  pub garbage_frame_lifetime : ℕ
  pub plane_enable_frame_log : ℕ
  pub plane_position_log_interval : ℕ
  pub curr_max_3v3_sd : ℕ
  pub curr_max_1v2 : ℕ
  pub curr_max_2v5 : ℕ
  pub curr_max_3v3_fpga : ℕ
  pub curr_max_3v3_adc : ℕ
  pub curr_max_3v3_board : ℕ
  pub curr_max_5v0_board : ℕ
  pub latchup_channel : ℕ
  pub eps_csp_addr : ℕ
  pub eps_adsb_pwr_chan : ℕ

abbrev pub sizeof_gatoss_conf : ℕ
sizeof_gatoss_conf = 62

abbrev pub sizeof_gatoss_hk : ℕ
sizeof_gatoss_hk = 80

-- libutil's order of bytes.
pub record Util : Type 0 where
  pub util_betoh16 : ℕ → ℕ
  pub util_betoh32 : ℕ → ℕ
  pub util_ntohflt : ℕ → ℕ
