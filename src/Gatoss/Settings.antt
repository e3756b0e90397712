-- ===== src/Gatoss/Settings.antt =====
-- The configuration of the receiver in clients/gatoss-uc/gatoss_client.c.
use uhf_gs_csp_software.Common.{
  ℕ, ◌≡◌, refl, ap, sym, ◌∙◌, Bool, true, false, if◌then◌else◌, ℤ, pos, eqb_ℤ,
}
use uhf_gs_csp_software.Csp.{ByteOrder, IsInverse, csp_prio_high, Call, Link}
use uhf_gs_csp_software.Gatoss.Transactions.{
  gatoss_call, swap_passive, swap_gatoss_conf, gatoss_conf_set, gatoss_conf_get,
}
use uhf_gs_csp_software.Gatoss.Packets.{Receiver, GatossConf, gatoss_port_conf}

swap_gatoss_conf-back :
    (task_passive : Bool) (f g f' g' : ℕ → ℕ) (c : GatossConf)
    → ((n : ℕ) → f' (f n) ≡ n)
    → ((n : ℕ) → g' (g n) ≡ n)
    → swap_gatoss_conf task_passive f' g' (swap_gatoss_conf task_passive f g c) ≡ c
unfolding swap_gatoss_conf swap_passive
swap_gatoss_conf-back true f g f' g' c back back' = simp (back, back')
swap_gatoss_conf-back false f g f' g' c back back' = simp (back, back')

-- The numbers of a configuration as the receiver takes them, field by field: two of 32 bits, those
-- of 16 bits, among which those of the passive task only if it is built in, and the others as they
-- are, `fpga_threshold_count` among them.
abbrev pub conf_sent : ByteOrder → Bool → GatossConf → GatossConf
conf_sent o task_passive c =
    let passive : ℕ → ℕ → ℕ = λ swapped own. if task_passive then swapped else own in
    record {
      sd_enable = c.sd_enable;
      fpga_image = c.fpga_image;
      fpga_wdt_enable = c.fpga_wdt_enable;
      fpga_threshold_a = o.csp_hton32 c.fpga_threshold_a;
      fpga_threshold_b = o.csp_hton32 c.fpga_threshold_b;
      fpga_threshold_count = c.fpga_threshold_count;
      fpga_adc = c.fpga_adc;
      fpga_adc_switch_interval = o.csp_hton16 c.fpga_adc_switch_interval;
      passive_inhibit = passive (o.csp_hton16 c.passive_inhibit) c.passive_inhibit;
      passive_interval_list_short =
          passive (o.csp_hton16 c.passive_interval_list_short) c.passive_interval_list_short;
      passive_interval_list_full =
          passive (o.csp_hton16 c.passive_interval_list_full) c.passive_interval_list_full;
      passive_interval_plane =
          passive (o.csp_hton16 c.passive_interval_plane) c.passive_interval_plane;
      passive_live_min_tx_interval =
          passive (o.csp_hton16 c.passive_live_min_tx_interval) c.passive_live_min_tx_interval;
      passive_live_interval =
          passive (o.csp_hton16 c.passive_live_interval) c.passive_live_interval;
      passive_filter_list_short =
          passive (o.csp_hton16 c.passive_filter_list_short) c.passive_filter_list_short;
      passive_filter_list_full =
          passive (o.csp_hton16 c.passive_filter_list_full) c.passive_filter_list_full;
      garbage_collector_interval = o.csp_hton16 c.garbage_collector_interval;
      garbage_plane_inactive_interval = o.csp_hton16 c.garbage_plane_inactive_interval;
      garbage_plane_no_lock_inactive_interval =
          o.csp_hton16 c.garbage_plane_no_lock_inactive_interval;
      garbage_plane_frame_count = o.csp_hton16 c.garbage_plane_frame_count;
      garbage_plane_frame_interval = o.csp_hton16 c.garbage_plane_frame_interval;
      garbage_pos_lifetime = o.csp_hton16 c.garbage_pos_lifetime;
      garbage_frame_lifetime = o.csp_hton16 c.garbage_frame_lifetime;
      plane_enable_frame_log = c.plane_enable_frame_log;
      plane_position_log_interval = c.plane_position_log_interval;
      curr_max_3v3_sd = c.curr_max_3v3_sd;
      curr_max_1v2 = c.curr_max_1v2;
      curr_max_2v5 = c.curr_max_2v5;
      curr_max_3v3_fpga = c.curr_max_3v3_fpga;
      curr_max_3v3_adc = c.curr_max_3v3_adc;
      curr_max_3v3_board = o.csp_hton16 c.curr_max_3v3_board;
      curr_max_5v0_board = o.csp_hton16 c.curr_max_5v0_board;
      latchup_channel = c.latchup_channel;
      eps_csp_addr = c.eps_csp_addr;
      eps_adsb_pwr_chan = c.eps_adsb_pwr_chan;
    }

swap_gatoss_conf-sent :
    (o : ByteOrder) (task_passive : Bool) (c : GatossConf)
    → swap_gatoss_conf task_passive o.csp_hton16 o.csp_hton32 c ≡ conf_sent o task_passive c
unfolding swap_gatoss_conf swap_passive
swap_gatoss_conf-sent o true c = refl
swap_gatoss_conf-sent o false c = refl

-- With functions of the byte order that undo each other, and with the passive task built in or
-- not: what is sent to set a configuration has, field by field, the numbers in the order of bytes
-- of the network that `conf_sent` lists, but `fpga_threshold_count` and the others that it leaves
-- as they are. From a receiver that answers with just these numbers, and any status but 0, the
-- configuration is read back, with the status. The function that sets it leaves what it sent in the
-- struct of its caller: given that, with a byte order that swaps back when it swaps again, it sends
-- the numbers as the machine has them.
pub gatoss_conf_get-set :
    (o : ByteOrder) (r : Receiver) (task_passive : Bool) (status : ℤ) (config m : GatossConf)
    (l : Link Unit GatossConf)
    → IsInverse o
    → ((n : ℕ) → o.csp_hton16 (o.csp_hton16 n) ≡ n)
    → ((n : ℕ) → o.csp_hton32 (o.csp_hton32 n) ≡ n)
    → eqb_ℤ status (pos 0) ≡ false
    → ((c : Call Unit)
        → c.target.port ≡ gatoss_port_conf
        → l c m ≡ (status, conf_sent o task_passive config))
    → ((gatoss_conf_set o r task_passive config).0.request ≡ conf_sent o task_passive config)
      × ((gatoss_conf_set o r task_passive config).1 ≡ conf_sent o task_passive config)
      × (gatoss_conf_get o r task_passive l m ≡ (status, config))
      × ((gatoss_conf_set o r task_passive (gatoss_conf_set o r task_passive config).1).0.request
          ≡ config)
unfolding gatoss_conf_get gatoss_conf_set gatoss_call
gatoss_conf_get-set o r task_passive status config m l inverse twice16 twice32 alive kept =
    let call : Call Unit =
      gatoss_call r csp_prio_high gatoss_port_conf r.timeout_gatoss tt 0 (pos 62) in
    let sent = swap_gatoss_conf-sent o task_passive config in
    (
      sent,
      sent,
      rw (kept call refl, alive)
          (ap
              (λ (c : GatossConf).
                (status, swap_gatoss_conf task_passive o.csp_ntoh16 o.csp_ntoh32 c))
              (sym sent)
            ∙ ap (λ (c : GatossConf). (status, c))
                (swap_gatoss_conf-back task_passive o.csp_hton16 o.csp_hton32 o.csp_ntoh16
                  o.csp_ntoh32 config inverse.back16 inverse.back32)),
      swap_gatoss_conf-back task_passive o.csp_hton16 o.csp_hton32 o.csp_hton16 o.csp_hton32 config
          twice16 twice32,
    )
