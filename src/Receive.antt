-- ===== src/Receive.antt =====
-- src/receive_packet.c: a packet from the satellite is saved in a file, behind a header that the
-- MCS reads, and sent to the MCS. With it `csp_conn_get_header_values`, the station's own addition
-- to src/csp_conn.c of its libcsp.
pub mod Header
pub mod Saved
pub mod Ends
pub mod Link
pub mod Names
pub mod Forward
pub mod Delivery
use uhf_gs_csp_software.Common.{
  ℕ, ◌+◌, ◌%◌, ◌^◌, true, false, List, [], ◌∷◌, ◌++◌, Option, none, some, Bytes, codes, get_elem?,
  get_or, take, bit_and, bit_or, ltb, ◌==◌, if◌then◌else◌, ℤ, pos, eqb_ℤ,
}
use uhf_gs_csp_software.Common.Bits.{◌<<<◌, ◌>>>◌}
use uhf_gs_csp_software.Common.Decimal.{print_zeros}
use uhf_gs_csp_software.World.{
  Call, ConnId, Packet, Station, Prog, undefined, pure, stop, ◌>>=◌, ◌>>◌, get, modify, call,
  call_conns,
}
use uhf_gs_csp_software.Downlink.{downlink_client}
use uhf_gs_csp_software.Timestamp.{get_time}

-- The five values are those of the connection in slot 2 of the table; a table without it is no
-- table of libcsp.
unfoldable pub header_values_of : Option ConnId → Prog Bytes
header_values_of none = stop undefined
header_values_of (some c) = pure (c.dst ∷ c.src ∷ c.sport ∷ c.dport ∷ c.flags ∷ [])

unfoldable pub csp_conn_get_header_values : Prog Bytes
csp_conn_get_header_values = do
  arr_conn ← call_conns Call.csp_conn_table
  header_values_of (get_elem? arr_conn 2)

-- The header that is written in front of the data; a `uint8_t` keeps the low eight bits. The
-- priority, the reserved bits and the flags are written as 0.
unfoldable pub csp_header : Bytes → ℕ → Bytes
csp_header h length =
    let v = λ (i : ℕ). get_or h i 0 in
    let prio_value : ℕ = 0 in
    let reserve : ℕ = 0 in
    let flags : ℕ = 0 in
    bit_or (bit_or (bit_and (prio_value <<< 6) 0xc0) (bit_and (v 1 <<< 1) 0x3e))
        (bit_and (v 0 >>> 4) 0x01)
      % 2 ^ 8
    ∷ bit_or (bit_and (v 0 <<< 4) 0xf0) (bit_and (v 3 >>> 2) 0x0f) % 2 ^ 8
    ∷ bit_or (bit_and (v 3 <<< 6) 0xc0) (bit_and (v 2) 0x3f) % 2 ^ 8
    ∷ bit_or (bit_and (reserve <<< 4) 0xf0) (bit_and flags 0x0f) % 2 ^ 8
    ∷ (length >>> 8) % 2 ^ 8
    ∷ length % 2 ^ 8
    ∷ []

abbrev pub save_dir : Bytes
save_dir = codes "/home/rai/Desktop/GS_Server_Folder/Sent_To_MCS/"

-- The file's name: the time and, behind `_`, the two digits of the running count.
unfoldable pub saved_name : Bytes → ℕ → Bytes
saved_name time_string_recv count =
    save_dir ++ (time_string_recv ++ (b'_' ∷ (print_zeros 2 (pos (count % 100)) ++ codes ".bin")))

-- The writes of the header and the data, and the sending. After a header that could not be
-- written the stream stays open.
unfoldable pub save_packet : Bytes → Bytes → Packet → Prog (Unit {0})
save_packet name header_values packet = do
  file ← call (Call.fopen name (codes "wb"))
  if eqb_ℤ file (pos 0) then pure tt else do
    saved ← call (Call.fwrite file (csp_header header_values packet.length))
    if eqb_ℤ saved (pos 0) then pure tt else do
      call (Call.fwrite file (take packet.length packet.bytes))
      call (Call.fclose file)
      downlink_client name (if ltb (get_or header_values 0 0) 20 then 1 else 0)

-- The file of this packet, behind its name: `count` goes on.
unfoldable pub name_and_save : Bytes → Bytes → Packet → Prog (Unit {0})
name_and_save time_string_recv header_values packet = do
  count ← get (λ s. s.count)
  modify (λ s. record s { count = (count + 1) % 2 ^ 32 })
  save_packet (saved_name time_string_recv count) header_values packet

unfoldable pub receive_packet : Packet → Prog (Unit {0})
receive_packet packet = do
  time_string_recv ← get_time
  header_values ← csp_conn_get_header_values
  name_and_save time_string_recv header_values packet
