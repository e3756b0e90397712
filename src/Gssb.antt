-- ===== src/Gssb.antt =====
-- clients/libgssb/gssb_client.c: the client of the devices on the satellite's sensor bus, with the
-- interstage that deploys the antennas and the sun sensors. A function that only returns what its
-- transaction returns is the call that it makes.
pub mod Types
pub mod Sensors
use uhf_gs_csp_software.Common.{
  ℕ, ◌+◌, ◌*◌, ◌/◌, ◌%◌, ◌^◌, List, [], ◌∷◌, Bytes, get_or, set, ◌==◌, if◌then◌else◌, ℤ, pos,
  negsuc, to_u32,
}
use uhf_gs_csp_software.Common.Bits.{◌<<<◌}
use uhf_gs_csp_software.Csp.{ByteOrder, csp_prio_norm, Call, Link}
use uhf_gs_csp_software.PowerIf.{to_i16}
use uhf_gs_csp_software.Gssb.Types.{
  gssb_port, cmd_sun_sample_sunsensor, cmd_sun_get_sunsensor_data, cmd_sun_sample_temp,
  cmd_sun_get_temp, cmd_sun_sample_get_sunsensor, cmd_sun_sample_get_temp, gssb_cmd_ident,
  gssb_cmd_istage_status, gssb_cmd_istage_conf_get, gssb_cmd_istage_conf_set,
  gssb_cmd_istage_reboot, gssb_cmd_istage_arm, gssb_cmd_istage_deploy, gssb_cmd_istage_state,
  gssb_cmd_istage_sensors, BurnSettings, GssbCmd, GssbResp, GssbCmd2, SettingsCmd, ByteCmd,
  GssbIdent, IstageStatus, IstageSensors, Gssb,
}

abbrev pub gssb_start : Gssb
gssb_start = record {
  gssb_csp_node = 1;
  gssb_csp_timeout = 1000;
  i2c_addr = 5;
  i2c_timeout_ms = 50;
}

unfoldable pub gssb_node : (node timeout : ℕ) → Gssb → Gssb
gssb_node node timeout g = record g { gssb_csp_node = node; gssb_csp_timeout = timeout }

unfoldable pub gssb_dev : (gssb_i2c_addr gssb_i2c_timeout_ms : ℕ) → Gssb → Gssb
gssb_dev gssb_i2c_addr gssb_i2c_timeout_ms g = record g {
  i2c_addr = gssb_i2c_addr;
  i2c_timeout_ms = gssb_i2c_timeout_ms;
}

unfoldable pub gssb_call :
    {Request : Type 0} → (node timeout : ℕ) → Request → (outlen inlen : ℕ) → Call Request
gssb_call node timeout request outlen inlen = record {
  target = record { prio = csp_prio_norm; node = node; port = gssb_port; timeout = timeout };
  request = request;
  outlen = outlen;
  inlen = pos inlen;
}

module _ (o : ByteOrder) (g : Gssb) where
  unfoldable pub cmd2 : (cmd_id : ℕ) → GssbCmd2
  cmd2 cmd_id = record {
    cmd_id = cmd_id;
    i2c_addr = g.i2c_addr;
    i2c_timeout_ms = o.csp_hton16 g.i2c_timeout_ms;
  }

  unfoldable pub gssb_cmd_csp : (cmd_id resp_size : ℕ) → Call GssbCmd2
  gssb_cmd_csp cmd_id resp_size =
      gssb_call g.gssb_csp_node g.gssb_csp_timeout (cmd2 cmd_id) 4 resp_size

  unfoldable pub gssb_ident : Link GssbCmd2 GssbIdent → GssbIdent → ℤ × GssbIdent
  gssb_ident csp_transaction resp =
      let (res, got) = csp_transaction (gssb_cmd_csp gssb_cmd_ident 13) resp in
      (res, record got { uuid = o.csp_ntoh32 got.uuid })

  unfoldable pub gssb_reboot : Call GssbCmd2
  gssb_reboot = gssb_cmd_csp gssb_cmd_istage_reboot 0

  unfoldable pub gssb_istage_deploy : Call GssbCmd2
  gssb_istage_deploy = gssb_cmd_csp gssb_cmd_istage_deploy 0

  unfoldable pub gssb_istage_arm : (arm : ℕ) → Call ByteCmd
  gssb_istage_arm arm =
      gssb_call g.gssb_csp_node g.gssb_csp_timeout
        (record { cmd = cmd2 gssb_cmd_istage_arm; byte = if arm == 0 then 0x08 else 0x04 }) 5 0

  unfoldable pub gssb_istage_set_state : (state : ℕ) → Call ByteCmd
  gssb_istage_set_state state =
      gssb_call g.gssb_csp_node g.gssb_csp_timeout
        (record { cmd = cmd2 gssb_cmd_istage_state; byte = state }) 5 0

  -- The replies are swapped whatever the transaction returns, here and below.
  unfoldable pub gssb_istage_sensors :
      Link GssbCmd2 IstageSensors → IstageSensors → ℤ × IstageSensors
  gssb_istage_sensors csp_transaction sensors =
      let (res, got) = csp_transaction (gssb_cmd_csp gssb_cmd_istage_sensors 5) sensors in
      (
        res,
        record got {
          panel_temp = o.csp_ntoh16 got.panel_temp;
          sun_voltage = o.csp_ntoh16 got.sun_voltage;
        },
      )

  unfoldable pub gssb_interstage_settings_get :
      Link GssbCmd2 BurnSettings → BurnSettings → ℤ × BurnSettings
  gssb_interstage_settings_get csp_transaction settings =
      let (res, got) = csp_transaction (gssb_cmd_csp gssb_cmd_istage_conf_get 12) settings in
      (
        res,
        record got {
          std_time_ms = o.csp_ntoh16 got.std_time_ms;
          increment_ms = o.csp_ntoh16 got.increment_ms;
          short_cnt_down = o.csp_ntoh16 got.short_cnt_down;
        },
      )

  -- The call and `*settings`, which is swapped in place.
  unfoldable pub gssb_interstage_settings_set : BurnSettings → Call SettingsCmd × BurnSettings
  gssb_interstage_settings_set settings =
      let sent : BurnSettings = record settings {
        std_time_ms = o.csp_hton16 settings.std_time_ms;
        increment_ms = o.csp_hton16 settings.increment_ms;
        short_cnt_down = o.csp_hton16 settings.short_cnt_down;
      } in
      (
        gssb_call g.gssb_csp_node g.gssb_csp_timeout
            (record { cmd = cmd2 gssb_cmd_istage_conf_set; settings = sent }) 16 0,
        sent,
      )

  unfoldable pub gssb_interstage_status :
      Link GssbCmd2 IstageStatus → IstageStatus → ℤ × IstageStatus
  gssb_interstage_status csp_transaction status =
      let (res, got) = csp_transaction (gssb_cmd_csp gssb_cmd_istage_status 10) status in
      (
        res,
        record got {
          deploy_in_s = o.csp_ntoh16 got.deploy_in_s;
          total_number_of_deploys = o.csp_ntoh16 got.total_number_of_deploys;
        },
      )

-- A command to a sun sensor, from what the stack held; its time-out is not swapped.
unfoldable pub sun_cmd : (command rx_len addr timeout_ms : ℕ) → (held : GssbCmd) → GssbCmd
sun_cmd command rx_len addr timeout_ms held = record held {
  gssb_csp_cmd = command;
  buff = set held.buff 0 command;
  addr = addr;
  timeout_ms = timeout_ms;
  tx_len = 1;
  rx_len = rx_len;
}

unfoldable pub gssb_get_csp : (csp_node : ℕ) → (csp_timeout : ℤ) → GssbCmd → Call GssbCmd
gssb_get_csp csp_node csp_timeout cmd = gssb_call csp_node (to_u32 csp_timeout) cmd 15 9

-- Two bytes of the reply, the high one first.
unfoldable pub buff_word : GssbResp → (i : ℕ) → ℕ
buff_word response i = (get_or response.buff i 0 <<< 8) + get_or response.buff (i + 1) 0

-- An `>> 2` of an `int16_t` keeps the sign.
unfoldable pub shift2 : ℤ → ℤ
shift2 (pos n) = pos (n / 4)
shift2 (negsuc n) = negsuc (n / 4)

module _ (csp_transaction : Link GssbCmd GssbResp) (csp_node : ℕ) (csp_timeout : ℤ)
    (held : GssbCmd) where
  unfoldable pub sun_transaction : (command rx_len addr timeout_ms : ℕ) → GssbResp → ℤ × GssbResp
  sun_transaction command rx_len addr timeout_ms response =
      csp_transaction
        (gssb_get_csp csp_node csp_timeout (sun_cmd command rx_len addr timeout_ms held)) response

  unfoldable pub sunsensor_get_data_csp :
      (addr timeout_ms : ℕ) → GssbResp → (sun : Bytes) → ℤ × GssbResp × Bytes
  sunsensor_get_data_csp addr timeout_ms response sun =
      let (ret, got) = sun_transaction cmd_sun_get_sunsensor_data 8 addr timeout_ms response in
      let first = set sun 0 (buff_word got 0 % 2 ^ 16) in
      let second = set first 1 (buff_word got 2 % 2 ^ 16) in
      let third = set second 2 (buff_word got 4 % 2 ^ 16) in
      (ret, got, set third 3 (buff_word got 6 % 2 ^ 16))

  unfoldable pub sunsensor_sample_data_csp : (addr timeout_ms : ℕ) → GssbResp → ℤ × GssbResp
  sunsensor_sample_data_csp = sun_transaction cmd_sun_sample_sunsensor 1

  unfoldable pub sunsensor_sample_get_data_csp : (addr timeout_ms : ℕ) → GssbResp → ℤ × GssbResp
  sunsensor_sample_get_data_csp = sun_transaction cmd_sun_sample_get_sunsensor 8

  -- `degrees` is the product with 0.03125, as a `float`.
  unfoldable pub sunsensor_get_temp_csp :
      {Float : Type 0}
      → (degrees : ℤ → Float) → (addr timeout_ms : ℕ) → GssbResp
      → ℤ × GssbResp × Float
  sunsensor_get_temp_csp degrees addr timeout_ms response =
      let (ret, got) = sun_transaction cmd_sun_get_temp 2 addr timeout_ms response in
      (ret, got, degrees (shift2 (to_i16 (buff_word got 0 % 2 ^ 16))))

  unfoldable pub sunsensor_sample_temp_csp : (addr timeout_ms : ℕ) → GssbResp → ℤ × GssbResp
  sunsensor_sample_temp_csp = sun_transaction cmd_sun_sample_temp 0

  unfoldable pub sunsensor_sample_get_temp_csp : (addr timeout_ms : ℕ) → GssbResp → ℤ × GssbResp
  sunsensor_sample_get_temp_csp = sun_transaction cmd_sun_sample_get_temp 2
