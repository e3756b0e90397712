-- ===== src/Gssb/Types.antt =====
-- clients/libgssb/io/gssb.h: what the devices on the sensor bus are asked and answer.
use uhf_gs_csp_software.Common.{ℕ, Bytes}

abbrev pub gssb_port : ℕ
gssb_port = 15

abbrev pub cmd_sun_sample_sunsensor : ℕ
cmd_sun_sample_sunsensor = 0

abbrev pub cmd_sun_get_sunsensor_data : ℕ
cmd_sun_get_sunsensor_data = 1

abbrev pub cmd_sun_sample_temp : ℕ
cmd_sun_sample_temp = 4

abbrev pub cmd_sun_get_temp : ℕ
cmd_sun_get_temp = 5

abbrev pub cmd_sun_sample_get_sunsensor : ℕ
cmd_sun_sample_get_sunsensor = 100

abbrev pub cmd_sun_sample_get_temp : ℕ
cmd_sun_sample_get_temp = 101

abbrev pub gssb_cmd_ident : ℕ
gssb_cmd_ident = 110

abbrev pub gssb_cmd_istage_status : ℕ
gssb_cmd_istage_status = 111

abbrev pub gssb_cmd_istage_conf_get : ℕ
gssb_cmd_istage_conf_get = 112

abbrev pub gssb_cmd_istage_conf_set : ℕ
gssb_cmd_istage_conf_set = 113

abbrev pub gssb_cmd_istage_reboot : ℕ
gssb_cmd_istage_reboot = 114

abbrev pub gssb_cmd_istage_arm : ℕ
gssb_cmd_istage_arm = 115

abbrev pub gssb_cmd_istage_deploy : ℕ
gssb_cmd_istage_deploy = 116

abbrev pub gssb_cmd_istage_state : ℕ
gssb_cmd_istage_state = 117

abbrev pub gssb_cmd_istage_sensors : ℕ
gssb_cmd_istage_sensors = 118

-- `istage_burn_settings_t`
pub record BurnSettings : Type 0 where
  pub std_time_ms : ℕ
  pub increment_ms : ℕ
  pub short_cnt_down : ℕ
  pub max_repeat : ℕ
  pub rep_time_s : ℕ
  pub switch_polarity : ℕ
  pub status : ℕ
  pub locked : ℕ
  pub reboot_deploy_cnt : ℕ

-- `gssb_csp_cmd_t` and `gssb_csp_cmd_resp_t`
pub record GssbCmd : Type 0 where
  pub gssb_csp_cmd : ℕ
  pub addr : ℕ
  pub buff : Bytes
  pub tx_len : ℕ
  pub rx_len : ℕ
  pub timeout_ms : ℕ

pub record GssbResp : Type 0 where
  pub return_code : ℕ
  pub buff : Bytes

-- `gssb_csp_cmd2_t`, `istage_burn_settings_cmd_t`, and `istage_arm_cmd_t` and
-- `istage_state_cmd_t`, which have one byte more
pub record GssbCmd2 : Type 0 where
  pub cmd_id : ℕ
  pub i2c_addr : ℕ
  pub i2c_timeout_ms : ℕ

pub record SettingsCmd : Type 0 where
  pub cmd : GssbCmd2
  pub settings : BurnSettings

pub record ByteCmd : Type 0 where
  pub cmd : GssbCmd2
  pub byte : ℕ

-- `gssb_csp_ident_t`, `gssb_istage_status_t` and `gssb_istage_sensors_t`
pub record GssbIdent : Type 0 where
  pub i2c_res : ℕ
  pub uuid : ℕ
  pub version : Bytes

pub record IstageStatus : Type 0 where
  pub i2c_res : ℕ
  pub deploy_in_s : ℕ
  pub number_of_deploys : ℕ
  pub active_knife : ℕ
  pub state : ℕ
  pub total_number_of_deploys : ℕ
  pub reboot_deploy_cnt : ℕ
  pub release_status : ℕ

pub record IstageSensors : Type 0 where
  pub i2c_res : ℕ
  pub sun_voltage : ℕ
  pub panel_temp : ℕ

-- The static variables, and what they start with.
pub record Gssb : Type 0 where
  pub gssb_csp_node : ℕ
  pub gssb_csp_timeout : ℕ
  pub i2c_addr : ℕ
  pub i2c_timeout_ms : ℕ
