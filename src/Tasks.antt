-- ===== src/Tasks.antt =====
-- src/task_server.c: the server that takes the packets of the satellite, by their port.
pub mod Handling
pub mod Connections
use uhf_gs_csp_software.Common.{
  ℕ, zero, suc, List, [], ◌∷◌, ◌++◌, Bytes, drop, ◌==◌, if◌then◌else◌, Option, none, some, ℤ, pos,
  eqb_ℤ,
}
use uhf_gs_csp_software.World.{
  Call, Packet, Prog, no_fuel, pure, stop, ◌>>=◌, ◌>>◌, call, call_packet,
}
use uhf_gs_csp_software.Receive.{receive_packet}

abbrev pub my_port : ℤ
my_port = pos 15

abbrev pub re_port : ℤ
re_port = pos 16

abbrev pub ping_rx_port : ℤ
ping_rx_port = pos 17

abbrev pub re_dest_port : ℕ
re_dest_port = 15

abbrev pub dest_addr : ℕ
dest_addr = 23

-- The ports of client/csp-term.h
abbrev pub cspterm_port_rparam : ℤ
cspterm_port_rparam = pos 7

abbrev pub cspterm_port_ftp : ℤ
cspterm_port_ftp = pos 9

abbrev pub cspterm_port_gscript : ℤ
cspterm_port_gscript = pos 22

-- The reply in the buffer of the packet.
abbrev pub reply_packet : Packet → Packet
reply_packet packet = record { length = 3; bytes = 0xaa ∷ 0xbb ∷ 0xcc ∷ drop 3 packet.bytes }

-- The reply goes out on a connection of its own; a connection or a result of 0 is a failure.
unfoldable pub reply_data : Packet → Prog (Unit {0})
reply_data packet = do
  conn ← call (Call.csp_connect 2 dest_addr re_dest_port 1000 0)
  if eqb_ℤ conn (pos 0) then (do call (Call.csp_buffer_free packet); pure tt) else do
    sent ← call (Call.csp_send conn (reply_packet packet) 1000)
    if eqb_ℤ sent (pos 0)
        then (do call (Call.csp_buffer_free (reply_packet packet)); pure tt)
        else pure tt

-- The `switch` on the port. A received ping, by `Receive_data`, is printed only.
unfoldable pub dispatch : ℤ → ℤ → Packet → Prog (Unit {0})
dispatch dport conn packet =
    if eqb_ℤ dport my_port
    then receive_packet packet
    else if eqb_ℤ dport re_port
    then reply_data packet
    else if eqb_ℤ dport ping_rx_port
    then pure tt
    else if eqb_ℤ dport cspterm_port_rparam
    then (do call (Call.rparam_service_handler conn packet); pure tt)
    else if eqb_ℤ dport cspterm_port_gscript
    then (do call (Call.gscript_service_handler conn packet); pure tt)
    else (do call (Call.csp_service_handler conn packet); pure tt)

-- A packet of the connection; every case closes the connection.
unfoldable pub serve_packet : ℤ → Packet → Prog (Unit {0})
serve_packet conn packet = do
  dport ← call (Call.csp_conn_dport conn)
  dispatch dport conn packet
  call (Call.csp_close conn)
  pure tt

-- A NULL packet ends the loop over the packets.
unfoldable pub serve_read : Option Packet → ℤ → Prog (Unit {0}) → Prog (Unit {0})
serve_read none conn rest = pure tt
serve_read (some packet) conn rest = serve_packet conn packet >> rest

-- The loop over the packets of a connection, with the rounds that are left.
unfoldable pub read_packets : ℕ → ℤ → Prog (Unit {0})
read_packets zero conn = stop no_fuel
read_packets (suc f) conn = do
  let rest = read_packets f conn
  packet ← call_packet (Call.csp_read conn 1000)
  serve_read packet conn rest

unfoldable pub serve_connection : ℕ → ℤ → Prog (Unit {0})
serve_connection fuel conn = do
  dport ← call (Call.csp_conn_dport conn)
  if eqb_ℤ dport cspterm_port_ftp
      then (do call (Call.create_ftp_task conn); pure tt)
      else (do read_packets fuel conn; call (Call.csp_close conn); pure tt)

-- One round of the endless loop.
unfoldable pub accept_connection : ℕ → ℤ → Prog (Unit {0})
accept_connection fuel sock = do
  conn ← call (Call.csp_accept sock 1000)
  if eqb_ℤ conn (pos 0) then pure tt else serve_connection fuel conn

unfoldable pub accept_connections : ℕ → ℕ → ℤ → Prog (Unit {0})
accept_connections zero fuel sock = stop no_fuel
accept_connections (suc f) fuel sock = do
  let rest = accept_connections f fuel sock
  accept_connection fuel sock
  rest

-- The socket is set up, and the endless loop is entered.
unfoldable pub task_server : ℕ → ℕ → Prog (Unit {0})
task_server rounds fuel = do
  sock ← call Call.csp_socket
  call (Call.csp_bind sock)
  call (Call.csp_listen sock 10)
  call Call.ftp_register_backends
  accept_connections rounds fuel sock
