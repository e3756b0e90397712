-- ===== src/Mcs.antt =====
-- src/process_mcs_file.c: a packet of the mission control station (MCS) in a file, six bytes of
-- header and the data.
pub mod Header
pub mod Files
pub mod Reading
use uhf_gs_csp_software.Common.{
  ℕ, ◌+◌, ◌-◌, ◌≤◌, true, false, Option, none, some, Bytes, codes, get_or, bit_and, bit_or, ltb,
  leb, ◌==◌, if◌then◌else◌, ℤ, pos, negsuc, is_neg, ltb_ℤ, pos_part, eqb_ℤ,
}
use uhf_gs_csp_software.Common.Bits.{◌<<<◌, ◌>>>◌}
use uhf_gs_csp_software.Common.Decimal.{print}
use uhf_gs_csp_software.World.{
  Call, Station, Prog, Result, ok, exit, undefined, pure, stop, ◌>>=◌, ◌>>◌, modify, call,
  call_bytes,
}

-- The texts that `decode_parameters` writes, each by `sprintf` with `%d`.
pub record Parameters : Type 0 where
  pub pri : Bytes
  pub src : Bytes
  pub dst : Bytes
  pub dst_port : Bytes
  pub src_port : Bytes
  pub hmac : Bytes
  pub xtea : Bytes
  pub rdp : Bytes
  pub crc : Bytes
  pub data_length : Bytes

unfoldable pub decode_parameters : Bytes → Parameters
decode_parameters h =
    let hex_input = λ (i : ℕ). get_or h i 0 in
    let wide01 = bit_or (hex_input 0 <<< 8) (hex_input 1) in
    let wide12 = bit_or (hex_input 1 <<< 8) (hex_input 2) in
    record {
      pri = print (pos (bit_and (hex_input 0 >>> 6) 0x03));
      src = print (pos (bit_and (hex_input 0 >>> 1) 0x1f));
      dst = print (pos (bit_and (wide01 >>> 4) 0x1f));
      dst_port = print (pos (bit_and (wide12 >>> 6) 0x3f));
      src_port = print (pos (bit_and wide12 0x3f));
      hmac = print (pos (bit_and (hex_input 3 >>> 3) 0x01));
      xtea = print (pos (bit_and (hex_input 3 >>> 2) 0x01));
      rdp = print (pos (bit_and (hex_input 3 >>> 1) 0x01));
      crc = print (pos (bit_and (hex_input 3) 0x01));
      data_length = print (pos (bit_and (hex_input 5) 0xff));
    }

-- The bytes of data that the packet's buffer has.
abbrev packet_room : Prog ℕ
packet_room e s = (ok e.room, s)

-- A failing check closes the file and returns 0, here `none`.
unfoldable pub reject : ℤ → Prog (Option (Parameters × Bytes))
reject fs1 = call (Call.fclose fs1) >> pure none

-- `some` is the return value 1, with the parameters and the data buffer; a stream of 0 is NULL. The
-- bytes of a read are the whole buffer as it leaves it, what stood behind the bytes read included.
-- A read of more bytes than the packet's buffer has is written past it.
unfoldable pub process_mcs_file : Bytes → Prog (Option (Parameters × Bytes))
unfolding decode_parameters reject
process_mcs_file mcs_filename = do
  fs1 ← call (Call.fopen mcs_filename (codes "rb"))
  if eqb_ℤ fs1 (pos 0) then stop (exit 1) else do
    size ← call (Call.file_size fs1)
    if ltb_ℤ size (pos 7) then reject fs1 else do
      (rcv_bytes, header_buffer) ← call_bytes (Call.fread fs1 6)
      if ltb_ℤ rcv_bytes (pos 1) then reject fs1 else do
        modify (λ s. record s { data_size = pos_part size - 6 })
        (rcv_bytes_, csp_packet) ← call_bytes (Call.fread fs1 (pos_part size - 6))
        room ← packet_room
        if ltb_ℤ (pos room) rcv_bytes_
            then stop undefined
            else if ltb_ℤ rcv_bytes_ (pos 1)
            then reject fs1
            else do
              call (Call.fclose fs1)
              pure (some (decode_parameters header_buffer, csp_packet))
