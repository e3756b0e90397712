-- ===== src/Examples/Hub.antt =====
-- The hub: a configuration sent and read back.
use uhf_gs_csp_software.Common.{◌≡◌, refl, pos}
use uhf_gs_csp_software.Hub.{hub_get_conf, hub_set_conf}
use uhf_gs_csp_software.Hub.Types.{ConfKnife, HubConf}
use uhf_gs_csp_software.Hub.Settings.{conf_sent, hub_get_conf-set}
use uhf_gs_csp_software.Examples.Orders.{swapping, swapping-IsInverse}

abbrev knife : ConfKnife
knife = record {
  time0 = 100;
  time1 = 120;
  retries0 = 3;
  retries1 = 3;
  bootdelay0 = 18000;
  bootdelay1 = 18600;
  enable0 = 1;
  enable1 = 1;
  delay0 = 600;
  delay1 = 600;
  sensemask0 = 1;
  sensemask1 = 2;
  sense_no = 1;
}

abbrev conf : HubConf
conf = record {
  knife0 = knife;
  knife1 = knife;
  switch0 = 30;
  switch1 = 60;
  timing = record {
    wdt_timeout = 172800;
    wdt_enable = 1;
    com_tx_inhibit_timeout = 90000;
    com_tx_inhibit_enable = 1;
  };
  dio = record { enable = 255; dirmask = 15; outputvalue = 0 };
  checksum = 48879;
}

hub_get_conf-set_example :
    ((hub_set_conf swapping 3 conf).request ≡ conf_sent swapping conf)
    × (hub_get_conf swapping 3 (λ c m. (pos 67, conf_sent swapping conf)) conf ≡ (pos 67, conf))
    × ((hub_get_conf swapping 3 (λ c m. (pos 0, m)) conf).0 ≡ pos 0)
    × ((hub_set_conf swapping 3 (hub_get_conf swapping 3 (λ c m. (pos 0, m)) conf).1).request
        ≡ conf)
hub_get_conf-set_example =
    hub_get_conf-set swapping 3 (pos 67) (pos 0) conf conf
      (λ c m. (pos 67, conf_sent swapping conf)) (λ c m. (pos 0, m)) swapping-IsInverse
      (λ c asked. refl) (λ c. refl)
