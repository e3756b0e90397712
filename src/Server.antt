-- ===== src/Server.antt =====
-- src/tcp_server.c: the server that takes the files of the MCS. Descriptors in a set are those
-- below `FD_SETSIZE`; another one is no descriptor of a set.
pub mod Descriptors
pub mod Waiting
pub mod Rounds
pub mod Delivery
pub mod Forward
use uhf_gs_csp_software.Common.{
  ℕ, zero, suc, ◌+◌, Bool, true, false, ◌&&◌, ◌||◌, not, List, [], ◌∷◌, ◌++◌, Bytes, codes, take,
  ltb, leb, ◌==◌, if◌then◌else◌, ℤ, pos, negsuc, is_neg, ltb_ℤ, eqb_ℤ, pos_part,
}
use uhf_gs_csp_software.World.{
  Call, Station, Prog, undefined, no_fuel, pure, stop, ◌>>=◌, ◌>>◌, get, modify, call, call_bytes,
  when,
}
use uhf_gs_csp_software.Timestamp.{get_time}
use uhf_gs_csp_software.Tracker.{CmdError}
use uhf_gs_csp_software.Send.{send_packet}

-- `MCS_PORT`, `LOG`, `MCS_DATA_DIR` and the size of `msg_buffer`
abbrev pub server_port : ℕ
server_port = 1028

abbrev pub log_queue : ℕ
log_queue = 10

abbrev pub mcs_data_dir : Bytes
mcs_data_dir = codes "/home/rai/Desktop/GS_Server_Folder/Received_From_MCS/"

abbrev pub msg_size : ℕ
msg_size = 1024

-- `FD_SETSIZE` of the C library
abbrev pub fd_setsize : ℕ
fd_setsize = 1024

-- `FD_ISSET` and `FD_CLR`
unfoldable pub fd_isset : ℕ → List ℕ → Bool
fd_isset i [] = false
fd_isset i (fd ∷ fds) = (i == fd) || fd_isset i fds

unfoldable pub fd_clr : ℕ → List ℕ → List ℕ
fd_clr i [] = []
fd_clr i (fd ∷ fds) = let rest = fd_clr i fds in if i == fd then rest else fd ∷ rest

-- `FD_SET` on the master set
unfoldable pub fd_set : ℤ → Prog (Unit {0})
fd_set fd =
    if is_neg fd || leb fd_setsize (pos_part fd)
    then stop undefined
    else modify (λ s. record s { master = pos_part fd ∷ s.master })

-- `select` leaves those of the master set that are ready.
unfoldable pub ready_of : List ℕ → List ℕ → List ℕ
unfolding fd_isset
ready_of [] ready = []
ready_of (fd ∷ fds) ready =
    let rest = ready_of fds ready in if fd_isset fd ready then fd ∷ rest else rest

-- A new connection from the MCS; `false` is a return of the server.
unfoldable pub accept_client : Prog Bool
accept_client = do
  server_fd ← get (λ s. s.server_fd)
  (newfd, address) ← call_bytes (Call.accept server_fd)
  if eqb_ℤ newfd (negsuc 0) then pure false else do
    fd_set newfd
    modify (λ s. record s {
      fdmax = (if ltb s.fdmax (pos_part newfd) then pos_part newfd else s.fdmax);
      client_addr = address;
    })
    pure true

-- A message in its file: written, closed and handed to `send_packet`. The NULL stream of a failed
-- `fopen` is closed too.
unfoldable pub hand_on : Bytes → ℕ → Bytes → Prog (Unit {0})
hand_on name nbytes msg_buffer = do
  fr ← call (Call.fopen name (codes "wb"))
  if eqb_ℤ fr (pos 0) then stop undefined else do
    call (Call.fwrite fr (take nbytes msg_buffer))
    call (Call.fclose fr)
    send_packet name
    pure tt

-- The file is named by the time.
unfoldable pub message_name : Bytes → Bytes
message_name time_data_get = mcs_data_dir ++ (time_data_get ++ codes ".bin")

unfoldable pub save_message : ℕ → Bytes → Prog (Unit {0})
save_message nbytes msg_buffer = do
  time_data_get ← get_time
  modify (λ s. record s { fr_name = message_name time_data_get })
  hand_on (message_name time_data_get) nbytes msg_buffer

-- Data from the MCS, or the end of its connection.
unfoldable pub serve_client : ℕ → Prog (Unit {0})
serve_client i = do
  (nbytes, msg_buffer) ← call_bytes (Call.recv (pos i) msg_size)
  if ltb_ℤ nbytes (pos 1)
      then (do call (Call.close (pos i)); modify (λ s. record s { master = fd_clr i s.master }))
      else save_message (pos_part nbytes) msg_buffer

unfoldable pub serve : ℕ → List ℕ → Prog Bool
serve i read_fds = if not (fd_isset i read_fds) then pure true else do
  server_fd ← get (λ s. s.server_fd)
  if eqb_ℤ (pos i) server_fd then accept_client else (do serve_client i; pure true)

-- The loop over the descriptors up to `fdmax`, which may grow in it, with the rounds that are left.
unfoldable pub visit : ℕ → ℕ → List ℕ → Prog Bool
visit zero i read_fds = do
  fdmax ← get (λ s. s.fdmax)
  if ltb fdmax i then pure true else stop no_fuel
visit (suc f) i read_fds = do
  let rest = visit f (i + 1) read_fds
  fdmax ← get (λ s. s.fdmax)
  if ltb fdmax i then pure true else do more ← serve i read_fds; if more then rest else pure false

-- One round of the endless loop: `fdmax` is below `fd_setsize`.
unfoldable pub round : Prog Bool
round = do
  fdmax ← get (λ s. s.fdmax)
  master ← get (λ s. s.master)
  (found, ready) ← call_bytes (Call.select (pos (fdmax + 1)))
  if eqb_ℤ found (negsuc 0) then pure false else visit fd_setsize 0 (ready_of master ready)

-- What precedes the loop; `true` if it is entered.
unfoldable pub start_server : Prog Bool
start_server = do
  fd ← call Call.socket
  modify (λ s. record s { master = []; server_fd = fd })
  if eqb_ℤ fd (pos 0) then pure false else do
    set ← call (Call.setsockopt fd)
    if not (eqb_ℤ set (pos 0)) then pure false else do
      bound ← call (Call.bind fd server_port)
      if is_neg bound then pure false else do
        listening ← call (Call.listen fd log_queue)
        if is_neg listening
            then pure false
            else do fd_set fd; modify (λ s. record s { fdmax = pos_part fd }); pure true

-- The endless loop, with the rounds that are left.
unfoldable pub rounds : ℕ → Prog (Unit {0})
rounds zero = stop no_fuel
rounds (suc f) = do let rest = rounds f; more ← round; if more then rest else pure tt

unfoldable pub tcp_server : ℕ → Prog (Unit {0})
tcp_server fuel = do started ← start_server; if started then rounds fuel else pure tt

unfoldable pub retransmit_packet : Prog CmdError
retransmit_packet = do fr_name ← get (λ s. s.fr_name); send_packet fr_name; pure CmdError.none
