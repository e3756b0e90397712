-- ===== src/Send.antt =====
-- src/send_packet.c: a packet of the MCS goes to the satellite, or is a command to the station.
pub mod Uplink
pub mod Command
pub mod Sockets
pub mod Delivery
pub mod Ends
use uhf_gs_csp_software.Common.{
  ℕ, ◌+◌, ◌*◌, ◌%◌, ◌^◌, true, false, List, [], ◌∷◌, ◌++◌, Option, none, some, Bytes, codes, get_or,
  take, ltb, leb, ◌==◌, if◌then◌else◌, ℤ, pos, negsuc, eqb_ℤ, ltb_ℤ, to_u32, pos_part,
}
use uhf_gs_csp_software.Common.Decimal.{atoi}
use uhf_gs_csp_software.World.{
  Call, Packet, Prog, undefined, pure, stop, ◌>>=◌, ◌>>◌, call, call_bytes,
}
use uhf_gs_csp_software.Mcs.{Parameters, process_mcs_file}
use uhf_gs_csp_software.Receive.{receive_packet, save_dir}
use uhf_gs_csp_software.Timestamp.{get_time}
use uhf_gs_csp_software.Tracker.{
  ax100_set_tx_freq, ax100_set_rx_freq, mcs_sat_sel, mcs_sat_read, updatetle,
}

-- The frequency of a command: `data[1]` to `data[4]`, the most significant byte first.
unfoldable pub freq_of : Bytes → ℕ
freq_of d =
    (get_or d 1 0 * 2 ^ 24 + get_or d 2 0 * 2 ^ 16 + get_or d 3 0 * 2 ^ 8 + get_or d 4 0) % 2 ^ 32

-- The commands, by `packet->data[0]`; what they answer is logged only.
unfoldable pub station_command : Bytes → Prog ℤ
station_command d =
    let code = get_or d 0 0 in
    if code == 0x01
    then mcs_sat_sel (get_or d 1 0)
    else if code == 0x00
    then mcs_sat_read
    else if code == 0x06
    then updatetle
    else if code == 0x02
    then ax100_set_rx_freq 29 1000 (freq_of d)
    else if code == 0x03
    then ax100_set_tx_freq 29 1000 (freq_of d)
    else pure (pos 0)

-- `packet` as it goes out: the length of the header, and the data of the file.
abbrev pub uplink_packet : Parameters → Bytes → Packet
uplink_packet p d = record { length = pos_part (atoi p.data_length); bytes = d }

-- The text in a local buffer of a hundred bytes that is never set.
abbrev pub unset_time : Prog Bytes
unset_time = do (n, text) ← call_bytes (Call.unset 100); pure text

-- `csp_sendto` with the numbers of the header; then the time, which only a packet that was sent
-- gets: the text of any other is what stands in a local buffer that is never set.
unfoldable pub uplink : Parameters → Bytes → Prog Bytes
uplink p d = do
  sent ← call (
      Call.csp_sendto (pos_part (atoi p.pri)) (pos_part (atoi p.dst)) (pos_part (atoi p.dst_port))
        (pos_part (atoi p.src_port)) 0 (uplink_packet p d) 1000)
  if eqb_ℤ sent (negsuc 0) then unset_time else get_time

-- A destination above 15 is the station itself.
unfoldable pub route : Parameters → Bytes → Prog Bytes
route p d = if ltb_ℤ (pos 15) (atoi p.dst) then (do station_command d; unset_time) else uplink p d

-- The backup of the data, by the length of the header; a stream of 0 is NULL.
unfoldable pub backup : Bytes → Parameters → Bytes → Prog ℤ
backup time_string_sent p d = do
  file ← call (Call.fopen (save_dir ++ (time_string_sent ++ codes ".bin")) (codes "ab"))
  if eqb_ℤ file (pos 0) then stop undefined else do
    call (Call.fwrite file (take (pos_part (atoi p.data_length)) d))
    call (Call.fclose file)
    pure (pos 0)

unfoldable pub handle : Option (Parameters × Bytes) → Prog ℤ
handle none = pure (negsuc 0)
handle (some (p, d)) = do time_string_sent ← route p d; backup time_string_sent p d

unfoldable pub send_packet : Bytes → Prog ℤ
send_packet mcs_uplink_filename = do
  packet ← call Call.csp_buffer_get
  if eqb_ℤ packet (pos 0)
      then pure (negsuc 0)
      else do parsed ← process_mcs_file mcs_uplink_filename; handle parsed
