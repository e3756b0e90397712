-- ===== src/World.antt =====
-- What the station's code shares: its static variables, the calls that leave it, and how a
-- function with both runs. A call of the C library, the operating system, libcsp, libparam, curl
-- or the orbit predictor is a value of `Call`; what it answers is `Env`, a parameter of the model
-- that may depend on all earlier calls. Console output is not modelled.
pub mod Frame
pub mod Ends
pub mod Files
use uhf_gs_csp_software.Common.{ℕ, Bool, true, false, List, [], ◌∷◌, Bytes, Option, ℤ, pos, negsuc}

-- `csp_packet_t`, as far as the station reads it: `length` and the bytes of the buffer.
pub record Packet : Type 0 where
  pub length : ℕ
  pub bytes : Bytes

-- The fields of `csp_id_t` that name a connection, `conn->idin`.
pub record ConnId : Type 0 where
  pub src : ℕ
  pub dst : ℕ
  pub sport : ℕ
  pub dport : ℕ
  pub flags : ℕ

-- `struct termios`: its flags that the station sets, and the rest of the words as `other`.
pub record Termios : Type 0 where
  pub ispeed : ℕ
  pub ospeed : ℕ
  pub char_size : ℕ
  pub ignbrk : Bool
  pub brkint : Bool
  pub parmrk : Bool
  pub istrip : Bool
  pub inlcr : Bool
  pub igncr : Bool
  pub icrnl : Bool
  pub ixon : Bool
  pub ixoff : Bool
  pub ixany : Bool
  pub lflag : ℕ
  pub opost : Bool
  pub vmin : ℕ
  pub vtime : ℕ
  pub clocal : Bool
  pub cread : Bool
  pub parenb : Bool
  pub parodd : Bool
  pub cstopb : Bool
  pub crtscts : Bool
  pub other : ℕ

-- One call of a function that the station does not define, with its arguments.
pub data Call : Type 0 where
  -- files and descriptors
  fopen : Bytes → Bytes → Call
  file_size : ℤ → Call
  fread : ℤ → ℕ → Call
  fwrite : ℤ → Bytes → Call
  rewind : ℤ → Call
  getlines : ℤ → Call
  read_blocks : ℤ → ℕ → Call
  fclose : ℤ → Call
  open_device : Bytes → Call
  tcgetattr : ℤ → Call
  tcsetattr : ℤ → Termios → Call
  tcflush : ℤ → Call
  write : ℤ → Bytes → Call
  read : ℤ → ℕ → Call
  close : ℤ → Call
  -- time and processes
  clock_get_time : Call
  sleep : ℕ → Call
  unset : ℕ → Call
  system : Bytes → Call
  -- sockets
  socket : Call
  setsockopt : ℤ → Call
  bind : ℤ → ℕ → Call
  listen : ℤ → ℕ → Call
  select : ℤ → Call
  accept : ℤ → Call
  recv : ℤ → ℕ → Call
  inet_pton : Bytes → Call
  connect : ℤ → Bytes → ℕ → Call
  send : ℤ → Bytes → Call
  -- libcsp
  csp_buffer_get : Call
  csp_buffer_free : Packet → Call
  csp_conn_table : Call
  csp_sendto : ℕ → ℕ → ℕ → ℕ → ℕ → Packet → ℕ → Call
  csp_connect : ℕ → ℕ → ℕ → ℕ → ℕ → Call
  csp_send : ℤ → Packet → ℕ → Call
  csp_close : ℤ → Call
  csp_socket : Call
  csp_bind : ℤ → Call
  csp_listen : ℤ → ℕ → Call
  csp_accept : ℤ → ℕ → Call
  csp_conn_dport : ℤ → Call
  csp_read : ℤ → ℕ → Call
  csp_service_handler : ℤ → Packet → Call
  -- libftp, libparam and libgscript
  ftp_register_backends : Call
  create_ftp_task : ℤ → Call
  rparam_service_handler : ℤ → Packet → Call
  gscript_service_handler : ℤ → Packet → Call
  -- libparam: value, address, table, node, port, timeout
  rparam_set_uint32 : ℕ → ℕ → ℕ → ℕ → ℕ → ℕ → Call
  -- curl
  curl_perform : Bytes → ℤ → Call
  -- the orbit predictor: PreCalc and Calc run at the time that is set
  set_tle : Bytes → Bytes → Call
  predict_at : ℕ → Call
  get_azi get_ele : Call
  ele_above : ℕ → Call
  comp_dopp_frq : ℕ → ℕ → Call

-- What the calls answer: a number, bytes, the blocks or lines of a file (a line with the size of
-- the buffer that holds it), terminal settings, the connection
-- table or a packet, if there is one.
-- The list holds the calls before this one, the newest first.
pub record Env : Type 0 where
  pub answer : List Call → Call → ℤ
  pub bytes : List Call → Call → Bytes
  pub blocks : List Call → Call → List Bytes
  pub lines : List Call → Call → List (Bytes × ℕ)
  pub termios : List Call → Call → Termios
  pub conns : List Call → Call → List ConnId
  pub packets : List Call → Call → Option Packet
  -- The bytes of data that a packet's buffer of libcsp has.
  pub room : ℕ

-- The station's variables with static storage, and the calls made so far, the newest first.
pub record Station : Type 0 where
  pub trace : List Call
  pub azi_old : ℤ
  pub ele_old : ℤ
  pub tle1 : Bytes
  pub tle2 : Bytes
  pub tx_freq : ℕ
  pub rx_freq : ℕ
  pub sat_no : ℕ
  pub count : ℕ
  pub data_size : ℕ
  pub client_addr : Bytes
  pub ret : ℤ
  pub sock : ℤ
  pub fr_name : Bytes
  pub master : List ℕ
  pub server_fd : ℤ
  pub fdmax : ℕ

-- How a function ends: it returns, it calls `exit`, its behaviour is undefined, or the fuel of a
-- loop ran out, which is no behaviour of the code.
pub data Result (A : Type 0) : Type 0 where
  ok : A → Result A
  exit : ℕ → Result A
  undefined : Result A
  no_fuel : Result A

abbrev pub Prog : Type 0 → Type 0
Prog A = Env → Station → Result A × Station

abbrev pub pure : {A : Type 0} → A → Prog A
pure a e s = (ok a, s)

abbrev pub stop : {A : Type 0} → Result A → Prog A
stop r e s = (r, s)

-- What runs behind a function that returned; nothing runs behind another end.
abbrev pub continue : {A B : Type 0} → Env → (A → Prog B) → Result A → Station → Result B × Station
continue e f (ok a) s = f a e s
continue e f (exit n) s = (exit n, s)
continue e f undefined s = (undefined, s)
continue e f no_fuel s = (no_fuel, s)

infixl 5 ◌>>=◌ ◌>>◌
abbrev pub ◌>>=◌ : {A B : Type 0} → Prog A → (A → Prog B) → Prog B
◌>>=◌ m f e s = let (r, s') = m e s in continue e f r s'

abbrev pub ◌>>◌ : {A B : Type 0} → Prog A → Prog B → Prog B
m >> k = m >>= λ _. k

-- `if (c) …` with the rest of the function behind it.
abbrev pub when : Bool → Prog (Unit {0}) → Prog (Unit {0})
when true m = m
when false m = pure tt

abbrev pub get : {A : Type 0} → (Station → A) → Prog A
get f e s = (ok (f s), s)

abbrev pub modify : (Station → Station) → Prog (Unit {0})
modify f e s = (ok tt, f s)

abbrev pub called : Call → Station → Station
called c s = record s { trace = c ∷ s.trace }

abbrev pub call : Call → Prog ℤ
call c e s = (ok (e.answer s.trace c), called c s)

-- A call that fills a buffer too: its number and what it stored.
abbrev pub call_bytes : Call → Prog (ℤ × Bytes)
call_bytes c e s = (ok (e.answer s.trace c, e.bytes s.trace c), called c s)

abbrev pub call_blocks : Call → Prog (List Bytes)
call_blocks c e s = (ok (e.blocks s.trace c), called c s)

abbrev pub call_lines : Call → Prog (List (Bytes × ℕ))
call_lines c e s = (ok (e.lines s.trace c), called c s)

abbrev pub call_termios : Call → Prog (ℤ × Termios)
call_termios c e s = (ok (e.answer s.trace c, e.termios s.trace c), called c s)

abbrev pub call_conns : Call → Prog (List ConnId)
call_conns c e s = (ok (e.conns s.trace c), called c s)

abbrev pub call_packet : Call → Prog (Option Packet)
call_packet c e s = (ok (e.packets s.trace c), called c s)

-- The station at start, from the initialisers of its variables.
abbrev pub initial : Station
initial = record {
  trace = [];
  azi_old = negsuc 0;
  ele_old = negsuc 0;
  tle1 = [];
  tle2 = [];
  tx_freq = 0;
  rx_freq = 0;
  sat_no = 1;
  count = 0;
  data_size = 0;
  client_addr = [];
  ret = pos 1;
  sock = pos 0;
  fr_name = [];
  master = [];
  server_fd = pos 0;
  fdmax = 0;
}
