-- ===== src/Gatoss/Transactions.antt =====
-- clients/gatoss-uc/gatoss_client.c: the functions of the receiver of planes that make a single
-- transaction. A function that only returns what its transaction returns is the call that it
-- makes. Signed numbers and `float` in a struct are their bits.
use uhf_gs_csp_software.Common.{
  ℕ, ◌+◌, ◌-◌, ◌/◌, ◌%◌, ◌^◌, Bool, Option, none, some, not, [], ◌∷◌, Bytes, ltb, ltb_ℤ,
  if◌then◌else◌, ℤ, pos, negsuc, eqb_ℤ, to_u32, signed32,
}
use uhf_gs_csp_software.Csp.{ByteOrder, Priority, csp_prio_high, csp_prio_norm, Call, Link}
use uhf_gs_csp_software.PowerIf.{strncpy}
use uhf_gs_csp_software.Gatoss.Packets.{
  gatoss_port_power, gatoss_port_hk, gatoss_port_load_fpga, gatoss_port_load_uc,
  gatoss_port_threshold, gatoss_port_sel_adc, gatoss_port_recover_fs, gatoss_port_conf,
  gatoss_port_restore, gatoss_port_plane_full, gatoss_port_file_all_frames,
  gatoss_port_file_all_positions, gatoss_port_file_plane, gatoss_port_file_raw_samples,
  gatoss_port_db_store, Receiver, PowerReq, LoadReq, FilePlaneReq, FilePlaneReply, FileAllReq,
  RawSamplesReq, DbStoreReq, GatossPlane, GatossHk, GatossConf, sizeof_gatoss_conf,
  sizeof_gatoss_hk, Util,
}

unfoldable pub gatoss_set_node : (node : ℕ) → Receiver → Receiver
gatoss_set_node node r = record r { node_gatoss = node }

unfoldable pub gatoss_set_timeout : (timeout : ℕ) → Receiver → Receiver
gatoss_set_timeout timeout r = record r { timeout_gatoss = timeout }

unfoldable pub gatoss_call :
    {Request : Type 0}
    → Receiver
    → (prio : Priority) (port timeout : ℕ) → Request
    → (outlen : ℕ) (inlen : ℤ) → Call Request
gatoss_call r prio port timeout request outlen inlen = record {
  target = record { prio = prio; node = r.node_gatoss; port = port; timeout = timeout };
  request = request;
  outlen = outlen;
  inlen = inlen;
}

-- A byte as an `int8_t`, which `char` is.
abbrev pub signed8 : ℕ → ℤ
signed8 n = if ltb n 128 then pos n else negsuc (255 - n)

-- The end of the functions that return a byte of the reply: below 1 is an error for the images, and
-- another length than 1 for the files.
unfoldable pub image_reply : ℤ × ℕ → ℤ
image_reply (ret, reply) = if ltb_ℤ (pos 0) ret then signed8 reply else negsuc 0

unfoldable pub filed : ℤ × ℕ → ℤ
filed (ret, reply) = if not (eqb_ℤ ret (pos 1)) then negsuc 1 else signed8 reply

-- The numbers of a configuration that are swapped; those of the passive task if it is built in.
unfoldable pub swap_passive : (ℕ → ℕ) → GatossConf → GatossConf
swap_passive f c = record c {
  passive_inhibit = f c.passive_inhibit;
  passive_interval_list_short = f c.passive_interval_list_short;
  passive_interval_list_full = f c.passive_interval_list_full;
  passive_interval_plane = f c.passive_interval_plane;
  passive_live_min_tx_interval = f c.passive_live_min_tx_interval;
  passive_live_interval = f c.passive_live_interval;
  passive_filter_list_short = f c.passive_filter_list_short;
  passive_filter_list_full = f c.passive_filter_list_full;
}

unfoldable pub swap_gatoss_conf : (task_passive : Bool) → (f g : ℕ → ℕ) → GatossConf → GatossConf
swap_gatoss_conf task_passive f g config =
    let c = if task_passive then swap_passive f config else config in
    record c {
      fpga_threshold_a = g c.fpga_threshold_a;
      fpga_threshold_b = g c.fpga_threshold_b;
      fpga_adc_switch_interval = f c.fpga_adc_switch_interval;
      garbage_collector_interval = f c.garbage_collector_interval;
      garbage_plane_inactive_interval = f c.garbage_plane_inactive_interval;
      garbage_plane_no_lock_inactive_interval = f c.garbage_plane_no_lock_inactive_interval;
      garbage_plane_frame_count = f c.garbage_plane_frame_count;
      garbage_plane_frame_interval = f c.garbage_plane_frame_interval;
      garbage_pos_lifetime = f c.garbage_pos_lifetime;
      garbage_frame_lifetime = f c.garbage_frame_lifetime;
      curr_max_3v3_board = f c.curr_max_3v3_board;
      curr_max_5v0_board = f c.curr_max_5v0_board;
    }

module _ (o : ByteOrder) (r : Receiver) where
  -- `channels_state` may be NULL; `reply` is what the stack held.
  unfoldable pub gatoss_power :
      Link PowerReq ℕ
      → (channels state : ℕ) → (channels_state : Option ℕ) → (reply : ℕ) → ℤ × Option ℕ
  gatoss_power csp_transaction channels state none reply =
      let (ret, got) =
        csp_transaction
          (gatoss_call r csp_prio_norm gatoss_port_power 0
            (record { channels = channels; state = state }) 3 (pos 2))
          reply in
      (ret, none)
  gatoss_power csp_transaction channels state (some channels_state) reply =
      let (ret, got) =
        csp_transaction
          (gatoss_call r csp_prio_norm gatoss_port_power 5000
            (record { channels = channels; state = state }) 3 (pos 2))
          reply in
      (ret, some (if ltb_ℤ (pos 0) ret then o.csp_ntoh16 got else channels_state))

  unfoldable pub gatoss_power_on : Link PowerReq ℕ → (channels reply : ℕ) → ℤ
  gatoss_power_on csp_transaction channels reply =
      (gatoss_power csp_transaction channels 1 none reply).0

  unfoldable pub gatoss_power_off : Link PowerReq ℕ → (channels reply : ℕ) → ℤ
  gatoss_power_off csp_transaction channels reply =
      (gatoss_power csp_transaction channels 0 none reply).0

  -- `flash_last_write` is not swapped.
  unfoldable pub gatoss_hk : Util → Link Bytes GatossHk → GatossHk → (save : ℕ) → ℤ × GatossHk
  gatoss_hk u csp_transaction hk save =
      let (ret, got) =
        csp_transaction
          (gatoss_call r csp_prio_norm gatoss_port_hk r.timeout_gatoss (save ∷ []) 1
            (pos sizeof_gatoss_hk))
          hk in
      if ltb_ℤ (pos 0) ret
      then (
        ret,
        record got {
          current_1v2 = u.util_betoh16 got.current_1v2;
          current_2v5 = u.util_betoh16 got.current_2v5;
          current_3v3_adc = u.util_betoh16 got.current_3v3_adc;
          current_3v3_board = u.util_betoh16 got.current_3v3_board;
          current_3v3_fpga = u.util_betoh16 got.current_3v3_fpga;
          current_5v0_board = u.util_betoh16 got.current_5v0_board;
          current_3v3_sd = u.util_betoh16 got.current_3v3_sd;
          bootcause = u.util_betoh16 got.bootcause;
          bootcount = u.util_betoh32 got.bootcount;
          average_fps_10sec = u.util_betoh16 got.average_fps_10sec;
          average_fps_1min = u.util_betoh16 got.average_fps_1min;
          average_fps_5min = u.util_betoh16 got.average_fps_5min;
          frame_count = u.util_betoh32 got.frame_count;
          plane_count = u.util_betoh16 got.plane_count;
          last_icao24 = u.util_betoh32 got.last_icao24;
          last_pos_altitude = u.util_betoh32 got.last_pos_altitude;
          last_pos_timestamp = u.util_betoh32 got.last_pos_timestamp;
          last_pos_lat = u.util_ntohflt got.last_pos_lat;
          last_pos_lon = u.util_ntohflt got.last_pos_lon;
          crc_corrected = u.util_betoh32 got.crc_corrected;
          current_time = u.util_betoh32 got.current_time;
          tot_frames = u.util_betoh32 got.tot_frames;
          tot_planes = u.util_betoh32 got.tot_planes;
          tot_crc_corrected = u.util_betoh32 got.tot_crc_corrected;
          fpga_crc_cnt = u.util_betoh32 got.fpga_crc_cnt;
        },
      )
      else (ret, got)

  -- The fields but `autoload` are what the stack held.
  unfoldable pub gatoss_autoload_fpga : Link LoadReq ℕ → (held : LoadReq) → (autoload reply : ℕ) → ℤ
  gatoss_autoload_fpga csp_transaction held autoload reply =
      let (ret, got) =
        csp_transaction
          (gatoss_call r csp_prio_norm gatoss_port_load_fpga r.timeout_gatoss
            (record held { autoload = autoload }) 23 (pos 1))
          reply in
      if ltb_ℤ (pos 0) ret then pos 0 else negsuc 0

  unfoldable pub gatoss_load_fpga :
      Link LoadReq ℕ → (held path : Bytes) → (load_now store_as_dfl reply : ℕ) → ℤ
  gatoss_load_fpga csp_transaction held path load_now store_as_dfl reply = image_reply (
      csp_transaction
        (gatoss_call r csp_prio_norm gatoss_port_load_fpga r.timeout_gatoss
          (record {
            autoload = 255;
            load_now = load_now;
            store_as_dfl = store_as_dfl;
            path = strncpy held path 20;
          })
          23 (pos 1))
        reply)

  unfoldable pub gatoss_load_uc :
      Link LoadReq ℕ → (held path : Bytes) → (load_now store_as_dfl reply : ℕ) → ℤ
  gatoss_load_uc csp_transaction held path load_now store_as_dfl reply = image_reply (
      csp_transaction
        (gatoss_call r csp_prio_norm gatoss_port_load_uc r.timeout_gatoss
          (record {
            autoload = 255;
            load_now = load_now;
            store_as_dfl = store_as_dfl;
            path = strncpy held path 20;
          })
          23 (pos 1))
        reply)

  -- The reply is returned as it came.
  unfoldable pub gatoss_threshold : Link ℕ ℕ → (amount : ℤ) → (reply : ℕ) → ℤ
  gatoss_threshold csp_transaction amount reply =
      let (ret, got) =
        csp_transaction
          (gatoss_call r csp_prio_norm gatoss_port_threshold r.timeout_gatoss
            (o.csp_hton32 (to_u32 amount)) 4 (pos 4))
          reply in
      if not (eqb_ℤ ret (pos 4)) then negsuc 1 else signed32 got

  unfoldable pub gatoss_sel_adc : Link Bytes ℕ → (adc reply : ℕ) → ℤ
  gatoss_sel_adc csp_transaction adc reply = filed (
      csp_transaction
        (gatoss_call r csp_prio_norm gatoss_port_sel_adc r.timeout_gatoss (adc ∷ []) 1 (pos 1))
        reply)

  unfoldable pub gatoss_format_fs : Link Unit ℕ → (result : ℕ) → ℤ
  gatoss_format_fs csp_transaction result =
      let (status, got) =
        csp_transaction (gatoss_call r csp_prio_high gatoss_port_recover_fs 25000 tt 0 (pos 1))
          result in
      if not (eqb_ℤ status (pos 1)) then negsuc 1 else pos got

  -- The count of positions behind 40 bytes; the difference is a `size_t` of 64 bits.
  unfoldable pub positions_in : ℤ → ℤ
  positions_in (pos ret) = signed32 ((2 ^ 64 + ret - 40) % 2 ^ 64 / 11 % 2 ^ 32)
  positions_in (negsuc n) = negsuc 0

  unfoldable pub gatoss_plane_full :
      Link ℕ GatossPlane → GatossPlane → (icao24 : ℕ) → ℤ × GatossPlane
  gatoss_plane_full csp_transaction plane icao24 =
      let (ret, got) =
        csp_transaction
          (gatoss_call r csp_prio_norm gatoss_port_plane_full r.timeout_gatoss (o.csp_hton32 icao24)
            4 (negsuc 0))
          plane in
      if ltb_ℤ (pos 0) ret
      then (
        positions_in ret,
        record got {
          icao24 = o.csp_ntoh32 got.icao24;
          first_contact = o.csp_ntoh32 got.first_contact;
          last_contact = o.csp_ntoh32 got.last_contact;
          frame_counter = o.csp_ntoh16 got.frame_counter;
          position_counter = o.csp_ntoh16 got.position_counter;
          speed = o.csp_ntoh16 got.speed;
          heading = o.csp_ntoh16 got.heading;
        },
      )
      else (negsuc 0, got)

  unfoldable pub gatoss_file_plane :
      Link FilePlaneReq FilePlaneReply
      → (icao24 format begin_time end_time max_size : ℕ) → (held path : Bytes) → FilePlaneReply
      → ℤ × FilePlaneReply
  gatoss_file_plane csp_transaction icao24 format begin_time end_time max_size held path reply =
      let (ret, got) =
        csp_transaction
          (gatoss_call r csp_prio_norm gatoss_port_file_plane r.timeout_gatoss
            (record {
              format = format;
              icao24 = o.csp_hton32 icao24;
              begin_time = o.csp_hton32 begin_time;
              end_time = o.csp_hton32 end_time;
              max_size = o.csp_hton32 max_size;
              path = strncpy held path 50;
            })
            67 (pos 8))
          reply in
      if not (eqb_ℤ ret (pos 8)) then (negsuc 1, got) else (
        pos 0,
        record { mem_addr = o.csp_ntoh32 got.mem_addr; mem_size = o.csp_ntoh32 got.mem_size },
      )

  -- The request that `gatoss_file_all_frames` and `gatoss_file_all_positions` fill.
  unfoldable pub file_all_req :
      (start_time run_duration max_size : ℕ) → (held path : Bytes) → FileAllReq
  file_all_req start_time run_duration max_size held path = record {
    start_time = o.csp_hton32 start_time;
    run_duration = o.csp_hton32 run_duration;
    max_size = o.csp_hton32 max_size;
    path = strncpy held path 50;
  }

  unfoldable pub gatoss_file_all_frames :
      Link FileAllReq ℕ
      → (start_time run_duration max_size : ℕ) → (held path : Bytes) → (reply : ℕ) → ℤ
  gatoss_file_all_frames csp_transaction start_time run_duration max_size held path reply = filed (
      csp_transaction
        (gatoss_call r csp_prio_norm gatoss_port_file_all_frames r.timeout_gatoss
          (file_all_req start_time run_duration max_size held path) 62 (pos 1))
        reply)

  unfoldable pub gatoss_file_all_positions :
      Link FileAllReq ℕ
      → (start_time run_duration max_size : ℕ) → (held path : Bytes) → (reply : ℕ) → ℤ
  gatoss_file_all_positions csp_transaction start_time run_duration max_size held path reply =
      filed (
        csp_transaction
          (gatoss_call r csp_prio_norm gatoss_port_file_all_positions r.timeout_gatoss
            (file_all_req start_time run_duration max_size held path) 62 (pos 1))
          reply)

  -- `max_size` is not set.
  unfoldable pub gatoss_file_raw_samples :
      Link RawSamplesReq ℕ
      → (held : RawSamplesReq) → (noise_sample timeout max_count : ℕ) → (threshold : ℤ)
      → (path : Bytes) → (reply : ℕ) → ℤ
  gatoss_file_raw_samples csp_transaction held noise_sample timeout max_count threshold path reply =
      filed (
        csp_transaction
          (gatoss_call r csp_prio_norm gatoss_port_file_raw_samples r.timeout_gatoss
            (record held {
              noise_sample = noise_sample;
              timeout = o.csp_hton32 timeout;
              max_count = o.csp_hton32 max_count;
              threshold = o.csp_hton32 (to_u32 threshold);
              path = strncpy held.path path 50;
            })
            67 (pos 1))
          reply)

  -- The call and `*config`, which is swapped in place.
  unfoldable pub gatoss_conf_set : (task_passive : Bool) → GatossConf → Call GatossConf × GatossConf
  gatoss_conf_set task_passive config =
      let sent = swap_gatoss_conf task_passive o.csp_hton16 o.csp_hton32 config in
      (
        gatoss_call r csp_prio_high gatoss_port_conf r.timeout_gatoss sent sizeof_gatoss_conf
            (pos 0),
        sent,
      )

  unfoldable pub gatoss_conf_get :
      (task_passive : Bool) → Link Unit GatossConf → GatossConf → ℤ × GatossConf
  gatoss_conf_get task_passive csp_transaction config =
      let (status, got) =
        csp_transaction
          (gatoss_call r csp_prio_high gatoss_port_conf r.timeout_gatoss tt 0
            (pos sizeof_gatoss_conf))
          config in
      if eqb_ℤ status (pos 0)
      then (pos 0, got)
      else (status, swap_gatoss_conf task_passive o.csp_ntoh16 o.csp_ntoh32 got)

unfoldable pub gatoss_conf_restore : Receiver → Call Unit
gatoss_conf_restore r = gatoss_call r csp_prio_high gatoss_port_restore 0 tt 0 (pos 0)

unfoldable pub gatoss_db_store :
    Receiver → Link DbStoreReq ℕ → (held path : Bytes) → (reply : ℕ) → ℤ
gatoss_db_store r csp_transaction held path reply = filed (
    csp_transaction
      (gatoss_call r csp_prio_norm gatoss_port_db_store r.timeout_gatoss
        (record { kind = 1; path = strncpy held path 50 }) 51 (pos 1))
      reply)

unfoldable pub gatoss_db_load : Receiver → Link DbStoreReq ℕ → (held path : Bytes) → (reply : ℕ) → ℤ
gatoss_db_load r csp_transaction held path reply = filed (
    csp_transaction
      (gatoss_call r csp_prio_norm gatoss_port_db_store r.timeout_gatoss
        (record { kind = 0; path = strncpy held path 50 }) 51 (pos 1))
      reply)
