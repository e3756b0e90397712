-- ===== src/Examples/Power.antt =====
-- A power supply in low earth orbit that answers over a link which swaps bytes.
use uhf_gs_csp_software.Common.{◌≡◌, refl, [], ◌∷◌, pos}
use uhf_gs_csp_software.Eps.{EpsHk, EpsConfig, EpsConfig2, EpsConfig3, eps_hk_pack}
use uhf_gs_csp_software.Eps.Client.{
  eps_start, eps_hk_get, eps_hk_vi_get, eps_hk_out_get, eps_hk_wdt_get, eps_hk_basic_get,
  eps_config_get, eps_config_set, eps_config2_get, eps_config2_set, eps_config3_get,
  eps_config3_set,
}
use uhf_gs_csp_software.Eps.Housekeeping.{
  HkLinks, Serves, vi_of, out_of, wdt_of, basic_of, eps_hk_get-parts,
}
use uhf_gs_csp_software.Eps.Settings.{ConfigLinks, Keeps, eps_config_get-set}
use uhf_gs_csp_software.Examples.Orders.{swapping, swapping-IsInverse}

abbrev hk : EpsHk
hk = record {
  vboost = 3300 ∷ 3310 ∷ 0 ∷ [];
  vbatt = 7912;
  curin = 120 ∷ 98 ∷ 0 ∷ [];
  cursun = 214;
  cursys = 180;
  reserved = 0;
  curout = 50 ∷ 0 ∷ 0 ∷ 130 ∷ 0 ∷ 0 ∷ [];
  output = 1 ∷ 0 ∷ 0 ∷ 1 ∷ 0 ∷ 0 ∷ 0 ∷ 0 ∷ [];
  output_on_delta = 0 ∷ 0 ∷ 60 ∷ 0 ∷ 0 ∷ 0 ∷ 0 ∷ 0 ∷ [];
  output_off_delta = 0 ∷ 0 ∷ 0 ∷ 0 ∷ 0 ∷ 900 ∷ 0 ∷ 0 ∷ [];
  latchup = 0 ∷ 0 ∷ 2 ∷ 0 ∷ 0 ∷ 0 ∷ [];
  wdt_i2c_time_left = 590;
  wdt_gnd_time_left = 172800;
  wdt_csp_pings_left = 5 ∷ 5 ∷ [];
  counter_wdt_i2c = 3;
  counter_wdt_gnd = 1;
  counter_wdt_csp = 260 ∷ 0 ∷ [];
  counter_boot = 411;
  temp = 21 ∷ 20 ∷ 22 ∷ 65533 ∷ 18 ∷ 19 ∷ [];
  bootcause = 7;
  battmode = 3;
  pptmode = 1;
  reserved2 = 0;
}

abbrev empty : EpsHk
empty = record {
  vboost = [];
  vbatt = 0;
  curin = [];
  cursun = 0;
  cursys = 0;
  reserved = 0;
  curout = [];
  output = [];
  output_on_delta = [];
  output_off_delta = [];
  latchup = [];
  wdt_i2c_time_left = 0;
  wdt_gnd_time_left = 0;
  wdt_csp_pings_left = [];
  counter_wdt_i2c = 0;
  counter_wdt_gnd = 0;
  counter_wdt_csp = [];
  counter_boot = 0;
  temp = [];
  bootcause = 0;
  battmode = 0;
  pptmode = 0;
  reserved2 = 0;
}

abbrev links : HkLinks
links = record {
  whole = λ c m. (pos 131, eps_hk_pack swapping hk);
  vi = λ c m. (pos 20, vi_of (eps_hk_pack swapping hk));
  out = λ c m. (pos 64, out_of (eps_hk_pack swapping hk));
  wdt = λ c m. (pos 26, wdt_of (eps_hk_pack swapping hk));
  basic = λ c m. (pos 21, basic_of (eps_hk_pack swapping hk));
}

links-Serves : Serves swapping hk links
links-Serves = record {
  whole = λ c m asked. refl;
  vi = λ c m asked. refl;
  out = λ c m asked. refl;
  wdt = λ c m asked. refl;
  basic = λ c m asked. refl;
}

eps_hk_get-parts_example :
    (eps_hk_get swapping eps_start links.whole 17 empty ≡ (pos 131, hk))
    × (eps_hk_vi_get swapping eps_start links.vi 17 (vi_of empty) ≡ (pos 20, vi_of hk))
    × (eps_hk_out_get swapping eps_start links.out 17 (out_of empty) ≡ (pos 64, out_of hk))
    × (eps_hk_wdt_get swapping eps_start links.wdt 17 (wdt_of empty) ≡ (pos 26, wdt_of hk))
    × (eps_hk_basic_get swapping eps_start links.basic 17 (basic_of empty) ≡ (pos 21, basic_of hk))
eps_hk_get-parts_example =
    eps_hk_get-parts swapping eps_start hk links 17 empty (vi_of empty) (out_of empty)
      (wdt_of empty) (basic_of empty) swapping-IsInverse (λ n. refl) links-Serves

abbrev config : EpsConfig
config = record {
  ppt_mode = 1;
  battheater_mode = 1;
  battheater_low = 0;
  battheater_high = 5;
  output_normal_value = 1 ∷ 0 ∷ 0 ∷ 1 ∷ 0 ∷ 0 ∷ 0 ∷ 0 ∷ [];
  output_safe_value = 1 ∷ 0 ∷ 0 ∷ 0 ∷ 0 ∷ 0 ∷ 0 ∷ 0 ∷ [];
  output_initial_on_delay = 0 ∷ 0 ∷ 0 ∷ 1800 ∷ 0 ∷ 0 ∷ 0 ∷ 0 ∷ [];
  output_initial_off_delay = 0 ∷ 0 ∷ 0 ∷ 0 ∷ 0 ∷ 0 ∷ 0 ∷ 0 ∷ [];
  vboost = 3700 ∷ 3700 ∷ 3700 ∷ [];
}

abbrev config2 : EpsConfig2
config2 = record {
  batt_maxvoltage = 8300;
  batt_safevoltage = 7200;
  batt_criticalvoltage = 6500;
  batt_normalvoltage = 7400;
  reserved1 = 0 ∷ 0 ∷ [];
  reserved2 = 0 ∷ 0 ∷ 0 ∷ 0 ∷ [];
}

abbrev config3 : EpsConfig3
config3 = record {
  version = 0;
  cmd = 0;
  length = 0;
  flags = 0;
  cur_lim = 500 ∷ 500 ∷ 500 ∷ 1000 ∷ 500 ∷ 500 ∷ 100 ∷ 100 ∷ [];
  cur_ema_gain = 40;
  cspwdt_channel = 0 ∷ 3 ∷ [];
  cspwdt_address = 1 ∷ 5 ∷ [];
}

abbrev config_links : ConfigLinks
config_links = record {
  config = λ c m. (pos 58, (eps_config_set swapping eps_start config).request);
  config2 = λ c m. (pos 58, (eps_config2_set swapping eps_start config2).request);
  config3 = λ c m. (pos 58, (eps_config3_set swapping eps_start config3).request);
}

links-Keeps :
    Keeps
      (eps_config_set swapping eps_start config)
      (eps_config2_set swapping eps_start config2)
      (eps_config3_set swapping eps_start config3)
      57
      config_links
links-Keeps = record {
  config = λ c m asked. refl;
  config2 = λ c m asked. refl;
  config3 = λ c m asked get. refl;
}

eps_config_get-set_example :
    (eps_config_get swapping eps_start config_links.config config ≡ (pos 58, config))
    × (eps_config2_get swapping eps_start config_links.config2 config2 ≡ (pos 58, config2))
    × (eps_config3_get swapping eps_start config_links.config3 config3
        ≡ (pos 58, record config3 { version = 1; cmd = 4; length = 25; flags = 0 }))
eps_config_get-set_example =
    eps_config_get-set swapping eps_start config_links 57 config config config2 config2 config3
      config3 swapping-IsInverse links-Keeps
