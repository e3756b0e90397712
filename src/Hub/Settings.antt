-- ===== src/Hub/Settings.antt =====
-- The configuration of the hub in clients/nanohub/nanohub.c, sent and read back.
use uhf_gs_csp_software.Common.{ℕ, ◌≡◌, refl, sym, ◌∙◌, ap, ℤ}
use uhf_gs_csp_software.Csp.{ByteOrder, IsInverse, csp_prio_norm, Call, Link}
use uhf_gs_csp_software.Hub.{swap_knife, swap_hub_conf, hub_call, hub_get_conf, hub_set_conf}
use uhf_gs_csp_software.Hub.Types.{ConfKnife, HubConf, nanohub_port_conf}

module _ (o : ByteOrder) where
  -- The numbers as the hub takes them, field by field: those of 16 and of 32 bits in the order of
  -- bytes of the network, but the checksum.
  abbrev pub knife_sent : ConfKnife → ConfKnife
  knife_sent k = record {
    time0 = o.csp_hton16 k.time0;
    time1 = o.csp_hton16 k.time1;
    retries0 = k.retries0;
    retries1 = k.retries1;
    bootdelay0 = o.csp_hton32 k.bootdelay0;
    bootdelay1 = o.csp_hton32 k.bootdelay1;
    enable0 = k.enable0;
    enable1 = k.enable1;
    delay0 = o.csp_hton16 k.delay0;
    delay1 = o.csp_hton16 k.delay1;
    sensemask0 = k.sensemask0;
    sensemask1 = k.sensemask1;
    sense_no = k.sense_no;
  }

  abbrev pub conf_sent : HubConf → HubConf
  conf_sent c = record {
    knife0 = knife_sent c.knife0;
    knife1 = knife_sent c.knife1;
    switch0 = o.csp_hton16 c.switch0;
    switch1 = o.csp_hton16 c.switch1;
    timing = record {
      wdt_timeout = o.csp_hton32 c.timing.wdt_timeout;
      wdt_enable = c.timing.wdt_enable;
      com_tx_inhibit_timeout = o.csp_hton32 c.timing.com_tx_inhibit_timeout;
      com_tx_inhibit_enable = c.timing.com_tx_inhibit_enable;
    };
    dio = c.dio;
    checksum = c.checksum;
  }

  swap_hub_conf-sent : (c : HubConf) → swap_hub_conf o.csp_hton16 o.csp_hton32 c ≡ conf_sent c
  unfolding swap_hub_conf swap_knife
  swap_hub_conf-sent c = refl

  swap_hub_conf-back :
      (c : HubConf)
      → IsInverse o
      → swap_hub_conf o.csp_ntoh16 o.csp_ntoh32 (swap_hub_conf o.csp_hton16 o.csp_hton32 c) ≡ c
  unfolding swap_hub_conf swap_knife
  swap_hub_conf-back c inverse = simp (inverse.back16, inverse.back32)

  swap_hub_conf-there :
      (c : HubConf)
      → IsInverse o
      → swap_hub_conf o.csp_hton16 o.csp_hton32 (swap_hub_conf o.csp_ntoh16 o.csp_ntoh32 c) ≡ c
  unfolding swap_hub_conf swap_knife
  swap_hub_conf-there c inverse = simp (inverse.there16, inverse.there32)

  -- With functions of the byte order that undo each other: what is sent to set a configuration has,
  -- field by field, the numbers in the order of bytes of the network that `conf_sent` lists, and
  -- from a hub that answers with just these, with any status, the configuration is read back. A
  -- struct that a transaction leaves alone, as a failing one does, is swapped all the same,
  -- whatever its status: sent then, it brings the hub the numbers in the order of bytes of the
  -- machine.
  pub hub_get_conf-set :
      (node_hub : ℕ) (status failure : ℤ) (conf m : HubConf) (l failing : Link Unit HubConf)
      → IsInverse o
      → ((c : Call Unit) → c.target.port ≡ nanohub_port_conf → l c m ≡ (status, conf_sent conf))
      → ((c : Call Unit) → failing c conf ≡ (failure, conf))
      → ((hub_set_conf o node_hub conf).request ≡ conf_sent conf)
        × (hub_get_conf o node_hub l m ≡ (status, conf))
        × ((hub_get_conf o node_hub failing conf).0 ≡ failure)
        × ((hub_set_conf o node_hub (hub_get_conf o node_hub failing conf).1).request ≡ conf)
  unfolding hub_get_conf hub_set_conf hub_call
  hub_get_conf-set node_hub status failure conf m l failing inverse kept fails =
      let call : Call Unit = hub_call csp_prio_norm node_hub nanohub_port_conf tt 0 67 in
      let sent = swap_hub_conf-sent conf in
      (
        sent,
        rw (kept call refl) (
            ap (λ (c : HubConf). (status, swap_hub_conf o.csp_ntoh16 o.csp_ntoh32 c)) (sym sent)
            ∙ ap (λ (c : HubConf). (status, c)) (swap_hub_conf-back conf inverse)),
        rw (fails call) refl,
        rw (fails call) (swap_hub_conf-there conf inverse),
      )
