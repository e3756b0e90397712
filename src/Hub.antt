-- ===== src/Hub.antt =====
-- clients/nanohub/nanohub.c and nanohub.h: the client of the satellite's hub, with its knives that
-- deploy antennas. A pair in a struct is two fields. A function that only returns what its
-- transaction returns is the call that it makes.
pub mod Types
pub mod Settings
use uhf_gs_csp_software.Common.{
  ℕ, Bool, not, List, [], ◌∷◌, Bytes, ltb, if◌then◌else◌, ℤ, pos, negsuc, eqb_ℤ,
}
use uhf_gs_csp_software.Csp.{ByteOrder, Priority, csp_prio_high, csp_prio_norm, Call, Link, each}
use uhf_gs_csp_software.Hub.Types.{
  nanohub_port_adc, nanohub_port_gyro, nanohub_port_dio, nanohub_port_reset_wdt,
  nanohub_port_set_single_switch, nanohub_port_conf_cmd, nanohub_port_conf, nanohub_port_deploy,
  nanohub_port_hk, ConfKnife, ConfDio, ConfTiming, HubConf, KnifeData, KnivesData, SwitchData,
  HubSwitch, HubKnife, HubHk, sizeof_hub_conf, sizeof_hub_hk, sizeof_switch_data,
  sizeof_knives_data,
}

-- A transaction with the hub, `node_hub`, and a time-out of 1000.
unfoldable pub hub_call :
    {Request : Type 0}
    → (prio : Priority) (node_hub port : ℕ) → Request
    → (outlen inlen : ℕ) → Call Request
hub_call prio node_hub port request outlen inlen = record {
  target = record { prio = prio; node = node_hub; port = port; timeout = 1000 };
  request = request;
  outlen = outlen;
  inlen = pos inlen;
}

-- `*result` and `node_hub`
unfoldable pub hub_set_node : (node : ℕ) → ℕ × ℕ
hub_set_node node = (1, node)

unfoldable pub hub_conf_cmd : Link Bytes ℕ → (node_hub cmd configmode : ℕ) → ℤ × ℕ
hub_conf_cmd csp_transaction node_hub cmd configmode =
    csp_transaction (hub_call csp_prio_norm node_hub nanohub_port_conf_cmd (cmd ∷ 0xC8 ∷ []) 2 1)
      configmode

unfoldable pub hub_dio : Link Bytes ℕ → (node_hub cmd iod pin val ret : ℕ) → ℤ × ℕ
hub_dio csp_transaction node_hub cmd iod pin val ret =
    csp_transaction
      (hub_call csp_prio_high node_hub nanohub_port_dio (cmd ∷ iod ∷ pin ∷ val ∷ []) 4 1) ret

-- The functions for 16 and for 32 bits on the fields that `hub_get_conf` and `hub_set_conf` swap.
unfoldable pub swap_knife : (f g : ℕ → ℕ) → ConfKnife → ConfKnife
swap_knife f g k = record k {
  time0 = f k.time0;
  time1 = f k.time1;
  bootdelay0 = g k.bootdelay0;
  bootdelay1 = g k.bootdelay1;
  delay0 = f k.delay0;
  delay1 = f k.delay1;
}

unfoldable pub swap_hub_conf : (f g : ℕ → ℕ) → HubConf → HubConf
swap_hub_conf f g conf = record conf {
  knife0 = swap_knife f g conf.knife0;
  knife1 = swap_knife f g conf.knife1;
  switch0 = f conf.switch0;
  switch1 = f conf.switch1;
  timing = record conf.timing {
    wdt_timeout = g conf.timing.wdt_timeout;
    com_tx_inhibit_timeout = g conf.timing.com_tx_inhibit_timeout;
  };
}

unfoldable pub swap_knife_data : (f g : ℕ → ℕ) → KnifeData → KnifeData
swap_knife_data f g k = record k {
  burns0 = f k.burns0;
  burns1 = f k.burns1;
  timer0 = g k.timer0;
  timer1 = g k.timer1;
}

module _ (o : ByteOrder) (node_hub : ℕ) where
  unfoldable pub hub_get_hk : Link Unit HubHk → HubHk → ℤ × HubHk
  hub_get_hk csp_transaction nanohub_hk =
      let (status, got) =
        csp_transaction (hub_call csp_prio_norm node_hub nanohub_port_hk tt 0 sizeof_hub_hk)
          nanohub_hk in
      if not (eqb_ℤ status (pos sizeof_hub_hk)) then (negsuc 0, got) else (
        status,
        record got { bootcount = o.csp_ntoh32 got.bootcount; temp = o.csp_ntoh16 got.temp },
      )

  -- The struct is swapped whatever the transaction returns.
  unfoldable pub hub_get_conf : Link Unit HubConf → HubConf → ℤ × HubConf
  hub_get_conf csp_transaction conf =
      let (status, got) =
        csp_transaction (hub_call csp_prio_norm node_hub nanohub_port_conf tt 0 sizeof_hub_conf)
          conf in
      (status, swap_hub_conf o.csp_ntoh16 o.csp_ntoh32 got)

  unfoldable pub hub_set_conf : HubConf → Call HubConf
  hub_set_conf globalconf =
      hub_call csp_prio_norm node_hub nanohub_port_conf
        (swap_hub_conf o.csp_hton16 o.csp_hton32 globalconf) sizeof_hub_conf 0

  unfoldable pub hub_get_adc_single : Link Bytes Bytes → (channel : ℕ) → Bytes → ℤ × Bytes
  hub_get_adc_single csp_transaction channel adc =
      let (status, got) =
        csp_transaction (hub_call csp_prio_high node_hub nanohub_port_adc (channel ∷ []) 1 2) adc in
      if ltb channel 8 then (status, each o.csp_ntoh16 1 got) else (pos 0, adc)

  unfoldable pub hub_get_adc_all : Link Bytes Bytes → Bytes → ℤ × Bytes
  hub_get_adc_all csp_transaction adc =
      let (status, got) =
        csp_transaction (hub_call csp_prio_high node_hub nanohub_port_adc (99 ∷ []) 1 16) adc in
      (status, each o.csp_ntoh16 8 got)

  unfoldable pub hub_set_single_output :
      Link HubSwitch SwitchData → (channel mode delay : ℕ) → SwitchData → ℤ × SwitchData
  hub_set_single_output csp_transaction channel mode delay switchdata =
      let (status, got) =
        csp_transaction
          (hub_call csp_prio_high node_hub nanohub_port_set_single_switch
            (record { channel = channel; mode = mode; delay = o.csp_hton16 delay }) 4
            sizeof_switch_data)
          switchdata in
      if not (eqb_ℤ status (pos sizeof_switch_data)) then (status, got) else (
        status,
        record got {
          on_timer = each o.csp_ntoh16 2 got.on_timer;
          off_timer = each o.csp_ntoh16 2 got.off_timer;
          faults = each o.csp_ntoh16 2 got.faults;
        },
      )

  -- The reply is swapped with the functions to the network.
  unfoldable pub hub_knife :
      Link HubKnife KnivesData → (knife channel delay duration : ℕ) → KnivesData → ℤ × KnivesData
  hub_knife csp_transaction knife channel delay duration knivesdata =
      let (status, got) =
        csp_transaction
          (hub_call csp_prio_high node_hub nanohub_port_deploy
            (record {
              knife = knife;
              channel = channel;
              duration = o.csp_hton16 duration;
              delay = o.csp_hton16 delay;
            })
            6 sizeof_knives_data)
          knivesdata in
      if not (eqb_ℤ status (pos sizeof_knives_data)) then (status, got) else (
        status,
        record got {
          knife0 = swap_knife_data o.csp_hton16 o.csp_hton32 got.knife0;
          knife1 = swap_knife_data o.csp_hton16 o.csp_hton32 got.knife1;
        },
      )

  unfoldable pub hub_gyro : Link Bytes Bytes → (cmd dest port : ℕ) → Bytes → ℤ × Bytes
  hub_gyro csp_transaction cmd dest port gyrodata =
      let (status, got) =
        csp_transaction
          (hub_call csp_prio_high node_hub nanohub_port_gyro (cmd ∷ dest ∷ port ∷ []) 3 12)
          gyrodata in
      (status, each o.csp_ntoh32 3 got)

  unfoldable pub hub_reset_wdt : Link Bytes ℕ → (magic timer : ℕ) → ℤ × ℕ
  hub_reset_wdt csp_transaction magic timer =
      let (status, got) =
        csp_transaction (hub_call csp_prio_norm node_hub nanohub_port_reset_wdt (magic ∷ []) 1 4)
          timer in
      (status, o.csp_ntoh32 got)
