-- ===== src/Tasks/Handling.antt =====
-- What the handling of a packet in src/task_server.c leaves alone, and that it has an end.
use uhf_gs_csp_software.Common.{
  codes, not, take, ltb, get_or, get_elem?, ◌%◌, ◌^◌, ℕ, ◌+◌, refl, arith, List, [], ◌∷◌, Bytes,
  Option, none, some, ℤ, eqb_ℤ, if◌then◌else◌,
}
use uhf_gs_csp_software.World.{Call, ConnId, Packet, Station, called, pure}
use uhf_gs_csp_software.World.Frame.{Keeps, keeps, kept, Keeps-bind, Keeps-if, Keeps-pure}
use uhf_gs_csp_software.World.Ends.{Ends, ends, ended}
use uhf_gs_csp_software.Receive.Ends.{receive_packet-Ends}
use uhf_gs_csp_software.Timestamp.{get_time}
use uhf_gs_csp_software.Receive.{
  csp_header, saved_name, save_packet, name_and_save, csp_conn_get_header_values, header_values_of,
  receive_packet,
}
use uhf_gs_csp_software.Downlink.{connect_mcs, send_blocks, send_file, downlink_client, block_size}
use uhf_gs_csp_software.Tasks.{reply_data, dispatch}

-- How often a connection is closed and read, in one.
pub record Uses : Type 0 where
  pub closes : ℕ
  pub reads : ℕ

module _ (k : ℤ) where
  -- How often the connection `k` is closed and read, among the calls.
  abbrev pub csp_closes : List Call → ℕ
  csp_closes [] = 0
  csp_closes (Call.csp_close c ∷ t) =
      let rest = csp_closes t in if eqb_ℤ c k then rest + 1 else rest
  csp_closes (c ∷ t) = csp_closes t

  abbrev pub csp_reads : List Call → ℕ
  csp_reads [] = 0
  csp_reads (Call.csp_read c n ∷ t) = let rest = csp_reads t in if eqb_ℤ c k then rest + 1 else rest
  csp_reads (c ∷ t) = csp_reads t

  abbrev pub uses : Station → Uses
  uses s = record { closes = csp_closes s.trace; reads = csp_reads s.trace }

  connect_mcs-Keeps : Keeps uses connect_mcs
  unfolding connect_mcs
  connect_mcs-Keeps = keeps λ e s. ground arith

  send_blocks-Keeps : (blocks : List Bytes) → Keeps uses (send_blocks blocks)
  unfolding send_blocks
  send_blocks-Keeps [] = Keeps-pure uses tt
  send_blocks-Keeps (b ∷ blocks) =
      keeps λ e s. ground (arith, kept (send_blocks-Keeps blocks) e (called (Call.send s.sock b) s))

  send_file-Keeps : (name : Bytes) → Keeps uses (send_file name)
  unfolding send_file
  send_file-Keeps name = keeps λ e s.
      let opening = Call.fopen name (codes "r") in
      let reading = Call.read_blocks (e.answer s.trace opening) block_size in
      ground (
        arith,
        kept (send_blocks-Keeps (e.blocks (opening ∷ s.trace) reading)) e
            (called reading (called opening s)),
      )

  downlink_client-Keeps : (name : Bytes) (kind : ℕ) → Keeps uses (downlink_client name kind)
  unfolding downlink_client
  downlink_client-Keeps name kind =
      Keeps-bind uses connect_mcs (λ c. if not c then pure tt else send_file name) connect_mcs-Keeps
        λ c.
          Keeps-if uses (not c) (pure tt) (send_file name) (Keeps-pure uses tt)
            (send_file-Keeps name)

  save_packet-Keeps : (name h : Bytes) (packet : Packet) → Keeps uses (save_packet name h packet)
  unfolding save_packet
  save_packet-Keeps name h packet = keeps λ e s.
      let opening = Call.fopen name (codes "wb") in
      let file = e.answer s.trace opening in
      let here = called (Call.fclose file) (
        called (Call.fwrite file (take packet.length packet.bytes))
          (called (Call.fwrite file (csp_header h packet.length)) (called opening s))) in
      ground
        (arith, kept (downlink_client-Keeps name (if ltb (get_or h 0 0) 20 then 1 else 0)) e here)

  name_and_save-Keeps : (t h : Bytes) (packet : Packet) → Keeps uses (name_and_save t h packet)
  unfolding name_and_save
  name_and_save-Keeps t h packet = keeps λ e s.
      kept (save_packet-Keeps (saved_name t s.count) h packet) e
        (record s { count = (s.count + 1) % 2 ^ 32 })

  header_values_of-Keeps : (c : Option ConnId) → Keeps uses (header_values_of c)
  unfolding header_values_of
  header_values_of-Keeps none = keeps λ e s. refl
  header_values_of-Keeps (some c) = keeps λ e s. refl

  csp_conn_get_header_values-Keeps : Keeps uses csp_conn_get_header_values
  unfolding csp_conn_get_header_values
  csp_conn_get_header_values-Keeps = keeps λ e s.
      kept (header_values_of-Keeps (get_elem? (e.conns s.trace Call.csp_conn_table) 2)) e
        (called Call.csp_conn_table s)

  receive_packet-Keeps : (packet : Packet) → Keeps uses (receive_packet packet)
  unfolding receive_packet get_time
  receive_packet-Keeps packet = Keeps-bind uses get_time _ (keeps λ e s. refl) λ t.
      Keeps-bind uses csp_conn_get_header_values (λ h. name_and_save t h packet)
        csp_conn_get_header_values-Keeps λ h. name_and_save-Keeps t h packet

  reply_data-Keeps : (packet : Packet) → Keeps uses (reply_data packet)
  unfolding reply_data
  reply_data-Keeps packet = keeps λ e s. ground arith

  pub dispatch-Keeps : (dport conn : ℤ) (packet : Packet) → Keeps uses (dispatch dport conn packet)
  unfolding dispatch
  dispatch-Keeps dport conn packet = keeps λ e s.
      ground (arith, kept (receive_packet-Keeps packet) e s, kept (reply_data-Keeps packet) e s)

pub dispatch-Ends : (dport conn : ℤ) (packet : Packet) → Ends (dispatch dport conn packet)
unfolding dispatch reply_data
dispatch-Ends dport conn packet = ends λ e s. ground (arith, ended (receive_packet-Ends packet) e s)
