-- ===== src/Eps.antt =====
-- clients/nanopower/src/nanopower2.c and io/nanopower2.h: the structs of the power supply, and the
-- order of their bytes. A 16-bit temperature is its bits.
pub mod Client
pub mod Housekeeping
pub mod Settings
use uhf_gs_csp_software.Common.{ℕ, Bytes}
use uhf_gs_csp_software.Csp.{ByteOrder, each}

-- `eps_hk_vi_t`, `eps_hk_out_t`, `eps_hk_wdt_t` and `eps_hk_basic_t`
pub record EpsHkVi : Type 0 where
  pub vboost : Bytes
  pub vbatt : ℕ
  pub curin : Bytes
  pub cursun : ℕ
  pub cursys : ℕ
  pub reserved : ℕ

pub record EpsHkOut : Type 0 where
  pub curout : Bytes
  pub output : Bytes
  pub output_on_delta : Bytes
  pub output_off_delta : Bytes
  pub latchup : Bytes

pub record EpsHkWdt : Type 0 where
  pub wdt_i2c_time_left : ℕ
  pub wdt_gnd_time_left : ℕ
  pub wdt_csp_pings_left : Bytes
  pub counter_wdt_i2c : ℕ
  pub counter_wdt_gnd : ℕ
  pub counter_wdt_csp : Bytes

pub record EpsHkBasic : Type 0 where
  pub counter_boot : ℕ
  pub temp : Bytes
  pub bootcause : ℕ
  pub battmode : ℕ
  pub pptmode : ℕ
  pub reserved2 : ℕ

-- `eps_hk_t`
pub record EpsHk : Type 0 where
  pub vboost : Bytes
  pub vbatt : ℕ
  pub curin : Bytes
  pub cursun : ℕ
  pub cursys : ℕ
  pub reserved : ℕ
  pub curout : Bytes
  pub output : Bytes
  pub output_on_delta : Bytes
  pub output_off_delta : Bytes
  pub latchup : Bytes
  pub wdt_i2c_time_left : ℕ
  pub wdt_gnd_time_left : ℕ
  pub wdt_csp_pings_left : Bytes
  pub counter_wdt_i2c : ℕ
  pub counter_wdt_gnd : ℕ
  pub counter_wdt_csp : Bytes
  pub counter_boot : ℕ
  pub temp : Bytes
  pub bootcause : ℕ
  pub battmode : ℕ
  pub pptmode : ℕ
  pub reserved2 : ℕ

-- The body of `eps_hk_vi_pack` and `eps_hk_vi_unpack`, and so on.
unfoldable pub swap_vi : (ℕ → ℕ) → EpsHkVi → EpsHkVi
swap_vi f hk = record hk {
  vboost = each f 3 hk.vboost;
  curin = each f 3 hk.curin;
  vbatt = f hk.vbatt;
  cursun = f hk.cursun;
  cursys = f hk.cursys;
}

unfoldable pub swap_out : (ℕ → ℕ) → EpsHkOut → EpsHkOut
swap_out f hk = record hk {
  curout = each f 6 hk.curout;
  latchup = each f 6 hk.latchup;
  output_on_delta = each f 8 hk.output_on_delta;
  output_off_delta = each f 8 hk.output_off_delta;
}

unfoldable pub swap_wdt : (ℕ → ℕ) → EpsHkWdt → EpsHkWdt
swap_wdt g hk = record hk {
  wdt_i2c_time_left = g hk.wdt_i2c_time_left;
  wdt_gnd_time_left = g hk.wdt_gnd_time_left;
  counter_wdt_i2c = g hk.counter_wdt_i2c;
  counter_wdt_gnd = g hk.counter_wdt_gnd;
  counter_wdt_csp = each g 2 hk.counter_wdt_csp;
}

unfoldable pub swap_basic : (f g : ℕ → ℕ) → EpsHkBasic → EpsHkBasic
swap_basic f g hk = record hk { temp = each f 6 hk.temp; counter_boot = g hk.counter_boot }

-- The last argument is for `counter_wdt_csp`.
unfoldable pub swap_hk : (f g h : ℕ → ℕ) → EpsHk → EpsHk
swap_hk f g h hk = record hk {
  vboost = each f 3 hk.vboost;
  curin = each f 3 hk.curin;
  curout = each f 6 hk.curout;
  temp = each f 6 hk.temp;
  latchup = each f 6 hk.latchup;
  output_on_delta = each f 8 hk.output_on_delta;
  output_off_delta = each f 8 hk.output_off_delta;
  vbatt = f hk.vbatt;
  cursun = f hk.cursun;
  cursys = f hk.cursys;
  wdt_i2c_time_left = g hk.wdt_i2c_time_left;
  wdt_gnd_time_left = g hk.wdt_gnd_time_left;
  counter_boot = g hk.counter_boot;
  counter_wdt_i2c = g hk.counter_wdt_i2c;
  counter_wdt_gnd = g hk.counter_wdt_gnd;
  counter_wdt_csp = each h 2 hk.counter_wdt_csp;
}

module _ (o : ByteOrder) where
  unfoldable pub eps_hk_vi_pack : EpsHkVi → EpsHkVi
  eps_hk_vi_pack = swap_vi o.csp_hton16

  unfoldable pub eps_hk_vi_unpack : EpsHkVi → EpsHkVi
  eps_hk_vi_unpack = swap_vi o.csp_ntoh16

  unfoldable pub eps_hk_out_pack : EpsHkOut → EpsHkOut
  eps_hk_out_pack = swap_out o.csp_hton16

  unfoldable pub eps_hk_out_unpack : EpsHkOut → EpsHkOut
  eps_hk_out_unpack = swap_out o.csp_ntoh16

  unfoldable pub eps_hk_wdt_pack : EpsHkWdt → EpsHkWdt
  eps_hk_wdt_pack = swap_wdt o.csp_hton32

  unfoldable pub eps_hk_wdt_unpack : EpsHkWdt → EpsHkWdt
  eps_hk_wdt_unpack = swap_wdt o.csp_ntoh32

  unfoldable pub eps_hk_basic_pack : EpsHkBasic → EpsHkBasic
  eps_hk_basic_pack = swap_basic o.csp_hton16 o.csp_hton32

  unfoldable pub eps_hk_basic_unpack : EpsHkBasic → EpsHkBasic
  eps_hk_basic_unpack = swap_basic o.csp_ntoh16 o.csp_ntoh32

  -- It packs `counter_wdt_csp` with `csp_ntoh32`.
  unfoldable pub eps_hk_pack : EpsHk → EpsHk
  eps_hk_pack = swap_hk o.csp_hton16 o.csp_hton32 o.csp_ntoh32

  unfoldable pub eps_hk_unpack : EpsHk → EpsHk
  eps_hk_unpack = swap_hk o.csp_ntoh16 o.csp_ntoh32 o.csp_ntoh32

-- `eps_hk_1_t`, which is only packed.
pub record EpsHk1 : Type 0 where
  pub pv : Bytes
  pub pc : ℕ
  pub bv : ℕ
  pub sc : ℕ
  pub temp : Bytes
  pub latchup : Bytes
  pub reset : ℕ
  pub bootcount : ℕ
  pub sw_errors : ℕ
  pub ppt_mode : ℕ
  pub channel_status : ℕ

unfoldable pub eps_hk_1_pack : ByteOrder → EpsHk1 → EpsHk1
eps_hk_1_pack o hk = record hk {
  pv = each o.csp_hton16 3 hk.pv;
  pc = o.csp_hton16 hk.pc;
  bv = o.csp_hton16 hk.bv;
  sc = o.csp_hton16 hk.sc;
  temp = each o.csp_hton16 6 hk.temp;
  latchup = each o.csp_hton16 6 hk.latchup;
  bootcount = o.csp_hton16 hk.bootcount;
}

-- `eps_config_t`, `eps_config2_t` and `eps_config3_t`
pub record EpsConfig : Type 0 where
  pub ppt_mode : ℕ
  pub battheater_mode : ℕ
  pub battheater_low : ℕ
  pub battheater_high : ℕ
  pub output_normal_value : Bytes
  pub output_safe_value : Bytes
  pub output_initial_on_delay : Bytes
  pub output_initial_off_delay : Bytes
  pub vboost : Bytes

pub record EpsConfig2 : Type 0 where
  pub batt_maxvoltage : ℕ
  pub batt_safevoltage : ℕ
  pub batt_criticalvoltage : ℕ
  pub batt_normalvoltage : ℕ
  pub reserved1 : Bytes
  pub reserved2 : Bytes

pub record EpsConfig3 : Type 0 where
  pub version : ℕ
  pub cmd : ℕ
  pub length : ℕ
  pub flags : ℕ
  pub cur_lim : Bytes
  pub cur_ema_gain : ℕ
  pub cspwdt_channel : Bytes
  pub cspwdt_address : Bytes

unfoldable pub swap_config : (ℕ → ℕ) → EpsConfig → EpsConfig
swap_config f conf = record conf {
  vboost = each f 3 conf.vboost;
  output_initial_on_delay = each f 8 conf.output_initial_on_delay;
  output_initial_off_delay = each f 8 conf.output_initial_off_delay;
}

unfoldable pub swap_config2 : (ℕ → ℕ) → EpsConfig2 → EpsConfig2
swap_config2 f conf2 = record conf2 {
  batt_maxvoltage = f conf2.batt_maxvoltage;
  batt_safevoltage = f conf2.batt_safevoltage;
  batt_normalvoltage = f conf2.batt_normalvoltage;
  batt_criticalvoltage = f conf2.batt_criticalvoltage;
}

unfoldable pub swap_config3 : (ℕ → ℕ) → EpsConfig3 → EpsConfig3
swap_config3 f conf3 = record conf3 { cur_lim = each f 8 conf3.cur_lim }

module _ (o : ByteOrder) where
  unfoldable pub eps_config_pack : EpsConfig → EpsConfig
  eps_config_pack = swap_config o.csp_hton16

  unfoldable pub eps_config_unpack : EpsConfig → EpsConfig
  eps_config_unpack = swap_config o.csp_ntoh16

  unfoldable pub eps_config2_pack : EpsConfig2 → EpsConfig2
  eps_config2_pack = swap_config2 o.csp_hton16

  unfoldable pub eps_config2_unpack : EpsConfig2 → EpsConfig2
  eps_config2_unpack = swap_config2 o.csp_ntoh16

  unfoldable pub eps_config3_pack : EpsConfig3 → EpsConfig3
  eps_config3_pack = swap_config3 o.csp_hton16

  unfoldable pub eps_config3_unpack : EpsConfig3 → EpsConfig3
  eps_config3_unpack = swap_config3 o.csp_ntoh16
