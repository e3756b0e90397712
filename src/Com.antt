-- ===== src/Com.antt =====
-- clients/nanocom/nanocom.c and nanocom.h: the client of the satellite's radio. A signed number of
-- a struct is its bits. A function that only returns what its transaction returns is the call that
-- it makes.
pub mod Console
pub mod Logs
pub mod Session
use uhf_gs_csp_software.Common.{
  ℕ, zero, suc, ◌-◌, ◌/◌, ◌%◌, ◌^◌, List, [], ◌∷◌, Bytes, length, ltb, pos_part, ◌*◌, ◌==◌,
  if◌then◌else◌, not, ℤ, pos, negsuc, eqb_ℤ,
}
use uhf_gs_csp_software.World.{Result, ok, exit, undefined, no_fuel}
use uhf_gs_csp_software.Csp.{ByteOrder, Priority, csp_prio_high, csp_prio_norm, Call, Link}

abbrev pub com_port_conf : ℕ
com_port_conf = 7

abbrev pub com_port_status : ℕ
com_port_status = 8

abbrev pub com_port_log_hk : ℕ
com_port_log_hk = 9

abbrev pub com_port_log_rssi : ℕ
com_port_log_rssi = 10

abbrev pub com_port_calibrate : ℕ
com_port_calibrate = 13

abbrev pub com_port_restore : ℕ
com_port_restore = 14

abbrev pub com_port_tx_inhibit : ℕ
com_port_tx_inhibit = 15

-- `nanocom_conf_t`; the text has 20 bytes.
pub record NanocomConf : Type 0 where
  pub do_rs : ℕ
  pub do_random : ℕ
  pub do_viterbi : ℕ
  pub tx_baud : ℕ
  pub rx_baud : ℕ
  pub tx_max_temp : ℕ
  pub preamble_length : ℕ
  pub morse_enable : ℕ
  pub morse_mode : ℕ
  pub morse_cycle : ℕ
  pub morse_en_voltage : ℕ
  pub morse_en_rx_count : ℕ
  pub morse_en_tx_count : ℕ
  pub morse_en_temp_a : ℕ
  pub morse_en_temp_b : ℕ
  pub morse_en_rssi : ℕ
  pub morse_en_rf_err : ℕ
  pub morse_inter_delay : ℕ
  pub morse_pospone : ℕ
  pub morse_wpm : ℕ
  pub morse_text : Bytes
  pub morse_bat_level : ℕ
  pub hk_interval : ℕ

-- `nanocom_data_t`, `nanocom_rssi_t`, `nanocom_hk_t` and `nanocom_calibrate_t`
pub record NanocomData : Type 0 where
  pub bit_corr_tot : ℕ
  pub byte_corr_tot : ℕ
  pub rx : ℕ
  pub rx_err : ℕ
  pub tx : ℕ
  pub last_temp_a : ℕ
  pub last_temp_b : ℕ
  pub last_rssi : ℕ
  pub last_rferr : ℕ
  pub last_batt_volt : ℕ
  pub last_txcurrent : ℕ
  pub bootcount : ℕ

pub record NanocomRssi : Type 0 where
  pub time : ℕ
  pub rssi : ℕ
  pub rferr : ℕ

pub record NanocomHk : Type 0 where
  pub time : ℕ
  pub temp_a : ℕ
  pub temp_b : ℕ
  pub batt_volt : ℕ

pub record NanocomCalibrate : Type 0 where
  pub raw_rssi : ℕ
  pub con_rssi : ℕ
  pub raw_rferr : ℕ
  pub con_rferr : ℕ

abbrev pub sizeof_conf : ℕ
sizeof_conf = 48

abbrev pub sizeof_data : ℕ
sizeof_data = 36

abbrev pub sizeof_rssi : ℕ
sizeof_rssi = 8

abbrev pub sizeof_com_hk : ℕ
sizeof_com_hk = 10

abbrev pub sizeof_calibrate : ℕ
sizeof_calibrate = 8

-- An `int` where the machine has a `size_t` of 64 bits.
abbrev pub to_size : ℤ → ℕ
to_size (pos n) = n % 2 ^ 64
to_size (negsuc n) = 2 ^ 64 - 1 - n % 2 ^ 64

unfoldable pub com_call :
    {Request : Type 0}
    → (prio : Priority) (node port timeout : ℕ) → Request
    → (outlen : ℕ) → (inlen : ℤ) → Call Request
com_call prio node port timeout request outlen inlen = record {
  target = record { prio = prio; node = node; port = port; timeout = timeout };
  request = request;
  outlen = outlen;
  inlen = inlen;
}

-- The six numbers of a configuration that are swapped.
unfoldable pub swap_conf : (ℕ → ℕ) → NanocomConf → NanocomConf
swap_conf f config = record config {
  morse_bat_level = f config.morse_bat_level;
  morse_pospone = f config.morse_pospone;
  morse_inter_delay = f config.morse_inter_delay;
  hk_interval = f config.hk_interval;
  preamble_length = f config.preamble_length;
  tx_max_temp = f config.tx_max_temp;
}

-- The loop over the first entries of a log; one that the array does not have is undefined.
unfoldable pub with_entry : {A : Type 0} → A → Result (List A) → Result (List A)
with_entry a (ok d) = ok (a ∷ d)
with_entry a r = r

unfoldable pub each_entry : {A : Type 0} → (A → A) → (count : ℕ) → List A → Result (List A)
unfolding with_entry
each_entry f zero d = ok d
each_entry f (suc count) [] = undefined
each_entry f (suc count) (a ∷ d) = with_entry (f a) (each_entry f count d)

unfoldable pub log_counted : {A : Type 0} → (count : ℕ) → Result (List A) → Result (ℕ × List A × ℕ)
log_counted count (ok d) = ok (1, d, count)
log_counted count (exit n) = exit n
log_counted count undefined = undefined
log_counted count no_fuel = no_fuel

-- The body of the functions for the two logs: the result, `*data` and `*count`. With a length of -1
-- the reply is written whole, whatever its length: one that is longer than the array of the caller,
-- which has `room` entries, is written past it.
unfoldable pub log_got :
    {A : Type 0} → (size : ℕ) → (A → A) → (count room : ℕ) → ℤ × List A → Result (ℕ × List A × ℕ)
unfolding each_entry log_counted
log_got size swap count room (status, d) =
    if ltb (room * size) (pos_part status)
    then undefined
    else if eqb_ℤ status (pos 0)
    then ok (0, d, count)
    else if not (to_size status % size == 0)
    then ok (0, d, count)
    else log_counted (to_size status / size % 2 ^ 8) (each_entry swap (to_size status / size) d)

unfoldable pub com_restore_conf : (node : ℕ) → Call Unit
com_restore_conf node = com_call csp_prio_high node com_port_restore 0 tt 0 (pos 0)

module _ (o : ByteOrder) where
  -- The call and `*config`, which is swapped in place.
  unfoldable pub com_set_conf : NanocomConf → (node timeout : ℕ) → Call NanocomConf × NanocomConf
  com_set_conf config node timeout =
      let sent = swap_conf o.csp_hton16 config in
      (com_call csp_prio_high node com_port_conf timeout sent sizeof_conf (pos 0), sent)

  unfoldable pub com_get_conf :
      Link Unit NanocomConf → NanocomConf → (node timeout : ℕ) → ℤ × NanocomConf
  com_get_conf csp_transaction config node timeout =
      let (status, got) =
        csp_transaction (com_call csp_prio_high node com_port_conf timeout tt 0 (pos sizeof_conf))
          config in
      if eqb_ℤ status (pos 0) then (pos 0, got) else (status, swap_conf o.csp_ntoh16 got)

  unfoldable pub com_get_status :
      Link Unit NanocomData → NanocomData → (node timeout : ℕ) → ℤ × NanocomData
  com_get_status csp_transaction d node timeout =
      let (status, got) =
        csp_transaction (com_call csp_prio_norm node com_port_status timeout tt 0 (pos sizeof_data))
          d in
      if not (eqb_ℤ status (pos sizeof_data)) then (status, got) else (
        status,
        record {
          bit_corr_tot = o.csp_ntoh32 got.bit_corr_tot;
          byte_corr_tot = o.csp_ntoh32 got.byte_corr_tot;
          rx = o.csp_ntoh32 got.rx;
          rx_err = o.csp_ntoh32 got.rx_err;
          tx = o.csp_ntoh32 got.tx;
          last_rferr = o.csp_ntoh16 got.last_rferr;
          last_rssi = o.csp_ntoh16 got.last_rssi;
          last_temp_a = o.csp_ntoh16 got.last_temp_a;
          last_temp_b = o.csp_ntoh16 got.last_temp_b;
          last_txcurrent = o.csp_ntoh16 got.last_txcurrent;
          last_batt_volt = o.csp_ntoh16 got.last_batt_volt;
          bootcount = o.csp_ntoh32 got.bootcount;
        },
      )

  unfoldable pub swap_rssi : NanocomRssi → NanocomRssi
  swap_rssi logd = record {
    time = o.csp_ntoh32 logd.time;
    rssi = o.csp_ntoh16 logd.rssi;
    rferr = o.csp_ntoh16 logd.rferr;
  }

  unfoldable pub com_get_log_rssi :
      Link Unit (List NanocomRssi)
      → List NanocomRssi
      → (count node timeout : ℕ) → Result (ℕ × List NanocomRssi × ℕ)
  com_get_log_rssi csp_transaction d count node timeout =
      log_got sizeof_rssi swap_rssi count (length d)
        (csp_transaction (com_call csp_prio_norm node com_port_log_rssi timeout tt 0 (negsuc 0)) d)

  unfoldable pub swap_com_hk : NanocomHk → NanocomHk
  swap_com_hk hkd = record {
    batt_volt = o.csp_ntoh16 hkd.batt_volt;
    temp_a = o.csp_ntoh16 hkd.temp_a;
    temp_b = o.csp_ntoh16 hkd.temp_b;
    time = o.csp_ntoh32 hkd.time;
  }

  unfoldable pub com_get_hk :
      Link Unit (List NanocomHk)
      → List NanocomHk
      → (count node timeout : ℕ) → Result (ℕ × List NanocomHk × ℕ)
  com_get_hk csp_transaction d count node timeout =
      log_got sizeof_com_hk swap_com_hk count (length d)
        (csp_transaction (com_call csp_prio_norm node com_port_log_hk timeout tt 0 (negsuc 0)) d)

  unfoldable pub com_get_calibration :
      (node : ℕ)
      → Link Unit NanocomCalibrate
      → NanocomCalibrate
      → (timeout : ℕ) → ℤ × NanocomCalibrate
  com_get_calibration node csp_transaction com_calibrate timeout =
      let (status, got) =
        csp_transaction
          (com_call csp_prio_norm node com_port_calibrate timeout tt 0 (pos sizeof_calibrate))
          com_calibrate in
      if eqb_ℤ status (pos 0) then (pos 0, got) else (
        status,
        record {
          con_rferr = o.csp_ntoh16 got.con_rferr;
          raw_rferr = o.csp_ntoh16 got.raw_rferr;
          con_rssi = o.csp_ntoh16 got.con_rssi;
          raw_rssi = o.csp_ntoh16 got.raw_rssi;
        },
      )

-- The reply `ret` is not looked at.
unfoldable pub com_set_tx_inhibit :
    Link Bytes Bytes → (node value : ℕ) → (ret : Bytes) → (timeout : ℕ) → ℤ
com_set_tx_inhibit csp_transaction node value ret timeout =
    let (status, got) =
      csp_transaction
        (com_call csp_prio_high node com_port_tx_inhibit timeout (value ∷ []) 1 (pos 1)) ret in
    if not (eqb_ℤ status (pos 1)) then negsuc 0 else pos 0
