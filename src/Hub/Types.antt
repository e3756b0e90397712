-- ===== src/Hub/Types.antt =====
-- clients/nanohub/nanohub.h: what the hub is asked and answers. A pair in a struct is two fields.
use uhf_gs_csp_software.Common.{ℕ, Bytes}

abbrev pub nanohub_port_adc : ℕ
nanohub_port_adc = 7

abbrev pub nanohub_port_gyro : ℕ
nanohub_port_gyro = 8

abbrev pub nanohub_port_dio : ℕ
nanohub_port_dio = 9

abbrev pub nanohub_port_reset_wdt : ℕ
nanohub_port_reset_wdt = 10

abbrev pub nanohub_port_set_single_switch : ℕ
nanohub_port_set_single_switch = 11

abbrev pub nanohub_port_conf_cmd : ℕ
nanohub_port_conf_cmd = 12

abbrev pub nanohub_port_conf : ℕ
nanohub_port_conf = 13

abbrev pub nanohub_port_deploy : ℕ
nanohub_port_deploy = 14

abbrev pub nanohub_port_hk : ℕ
nanohub_port_hk = 15

-- `nanohub_conf_knife_t`
pub record ConfKnife : Type 0 where
  pub time0 : ℕ
  pub time1 : ℕ
  pub retries0 : ℕ
  pub retries1 : ℕ
  pub bootdelay0 : ℕ
  pub bootdelay1 : ℕ
  pub enable0 : ℕ
  pub enable1 : ℕ
  pub delay0 : ℕ
  pub delay1 : ℕ
  pub sensemask0 : ℕ
  pub sensemask1 : ℕ
  pub sense_no : ℕ

-- `nanohub_conf_dio_t`
pub record ConfDio : Type 0 where
  pub enable : ℕ
  pub dirmask : ℕ
  pub outputvalue : ℕ

-- `nanohub_conf_timing_t`
pub record ConfTiming : Type 0 where
  pub wdt_timeout : ℕ
  pub wdt_enable : ℕ
  pub com_tx_inhibit_timeout : ℕ
  pub com_tx_inhibit_enable : ℕ

-- `nanohub_conf_t`; a `nanohub_conf_switch_t` is its delay.
pub record HubConf : Type 0 where
  pub knife0 : ConfKnife
  pub knife1 : ConfKnife
  pub switch0 : ℕ
  pub switch1 : ℕ
  pub timing : ConfTiming
  pub dio : ConfDio
  pub checksum : ℕ

-- `nanohub_knifedata_t` and `nanohub_knivesdata_t`
pub record KnifeData : Type 0 where
  pub burns0 : ℕ
  pub burns1 : ℕ
  pub mode0 : ℕ
  pub mode1 : ℕ
  pub timer0 : ℕ
  pub timer1 : ℕ

pub record KnivesData : Type 0 where
  pub knife0 : KnifeData
  pub knife1 : KnifeData
  pub sense_status : ℕ
  pub burn_status : ℕ

-- `nanohub_switchdata_t`
pub record SwitchData : Type 0 where
  pub on_timer : Bytes
  pub off_timer : Bytes
  pub faults : Bytes
  pub switchstatus : ℕ

-- `nanohub_switch_t` and `nanohub_knife_t`
pub record HubSwitch : Type 0 where
  pub channel : ℕ
  pub mode : ℕ
  pub delay : ℕ

pub record HubKnife : Type 0 where
  pub knife : ℕ
  pub channel : ℕ
  pub delay : ℕ
  pub duration : ℕ

-- `nanohub_hk_t`
pub record HubHk : Type 0 where
  pub temp : ℕ
  pub bootcount : ℕ
  pub reset : ℕ
  pub gyrostatus : ℕ

-- The sizes of the packed structs.
abbrev pub sizeof_hub_conf : ℕ
sizeof_hub_conf = 67

abbrev pub sizeof_hub_hk : ℕ
sizeof_hub_hk = 8

abbrev pub sizeof_switch_data : ℕ
sizeof_switch_data = 13

abbrev pub sizeof_knives_data : ℕ
sizeof_knives_data = 30
