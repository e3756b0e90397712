-- ===== src/Receive/Ends.antt =====
-- `receive_packet` of src/receive_packet.c has an end.
use uhf_gs_csp_software.Common.{
  ℕ, ◌+◌, ◌%◌, ◌^◌, arith, not, if◌then◌else◌, List, [], ◌∷◌, Bytes, codes, take, ltb, get_or,
  get_elem?, Option, none, some,
}
use uhf_gs_csp_software.World.{Call, ConnId, Packet, called, pure}
use uhf_gs_csp_software.World.Ends.{Ends, ends, ended, Ends-pure, Ends-bind, Ends-if}
use uhf_gs_csp_software.Timestamp.{get_time}
use uhf_gs_csp_software.Timestamp.Ends.{get_time-Ends}
use uhf_gs_csp_software.Downlink.{block_size, connect_mcs, send_blocks, send_file, downlink_client}
use uhf_gs_csp_software.Receive.{
  csp_header, saved_name, save_packet, name_and_save, csp_conn_get_header_values, header_values_of,
  receive_packet,
}

connect_mcs-Ends : Ends connect_mcs
unfolding connect_mcs
connect_mcs-Ends = ends λ e s. ground arith

send_blocks-Ends : (blocks : List Bytes) → Ends (send_blocks blocks)
unfolding send_blocks
send_blocks-Ends [] = Ends-pure tt
send_blocks-Ends (b ∷ blocks) =
    ends λ e s. ground (arith, ended (send_blocks-Ends blocks) e (called (Call.send s.sock b) s))

send_file-Ends : (name : Bytes) → Ends (send_file name)
unfolding send_file
send_file-Ends name = ends λ e s.
    let opening = Call.fopen name (codes "r") in
    let reading = Call.read_blocks (e.answer s.trace opening) block_size in
    ground (
      arith,
      ended (send_blocks-Ends (e.blocks (opening ∷ s.trace) reading)) e
          (called reading (called opening s)),
    )

downlink_client-Ends : (name : Bytes) (kind : ℕ) → Ends (downlink_client name kind)
unfolding downlink_client
downlink_client-Ends name kind =
    Ends-bind connect_mcs (λ c. if not c then pure tt else send_file name) connect_mcs-Ends
      λ c. Ends-if (not c) (pure tt) (send_file name) (Ends-pure tt) (send_file-Ends name)

save_packet-Ends : (name h : Bytes) (packet : Packet) → Ends (save_packet name h packet)
unfolding save_packet
save_packet-Ends name h packet = ends λ e s.
    let opening = Call.fopen name (codes "wb") in
    let file = e.answer s.trace opening in
    let here = called (Call.fclose file) (
      called (Call.fwrite file (take packet.length packet.bytes))
        (called (Call.fwrite file (csp_header h packet.length)) (called opening s))) in
    ground
      (arith, ended (downlink_client-Ends name (if ltb (get_or h 0 0) 20 then 1 else 0)) e here)

name_and_save-Ends : (t h : Bytes) (packet : Packet) → Ends (name_and_save t h packet)
unfolding name_and_save
name_and_save-Ends t h packet = ends λ e s.
    ended (save_packet-Ends (saved_name t s.count) h packet) e
      (record s { count = (s.count + 1) % 2 ^ 32 })

header_values_of-Ends : (c : Option ConnId) → Ends (header_values_of c)
unfolding header_values_of
header_values_of-Ends none = ends λ e s. ground arith
header_values_of-Ends (some c) = ends λ e s. ground arith

csp_conn_get_header_values-Ends : Ends csp_conn_get_header_values
unfolding csp_conn_get_header_values
csp_conn_get_header_values-Ends = ends λ e s.
    ended (header_values_of-Ends (get_elem? (e.conns s.trace Call.csp_conn_table) 2)) e
      (called Call.csp_conn_table s)

-- Whatever the library and the MCS answer, the handling of a packet from the satellite comes to an
-- end.
pub receive_packet-Ends : (packet : Packet) → Ends (receive_packet packet)
unfolding receive_packet
receive_packet-Ends packet = Ends-bind get_time _ get_time-Ends λ t.
    Ends-bind csp_conn_get_header_values (λ h. name_and_save t h packet)
      csp_conn_get_header_values-Ends λ h. name_and_save-Ends t h packet
