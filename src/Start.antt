-- ===== src/Start.antt =====
-- src/main.c: the options, and the order in which the station starts. `getopt` is its list of
-- answers, and `atoi` and what the build defines are parameters. Handlers of signals and of
-- exit are named in the calls that register them.
pub mod Options
pub mod Order
use uhf_gs_csp_software.Common.{
  ℕ, List, [], ◌∷◌, ◌++◌, Bytes, codes, length, leb, ◌==◌, if◌then◌else◌, ℤ, to_u8, to_u32,
}
use uhf_gs_csp_software.World.{Result, ok, exit, undefined, no_fuel}

-- An answer of `getopt` other than -1, with `optarg`.
pub record Opt : Type 0 where
  pub c : ℕ
  pub optarg : Bytes

-- The local variables that the options set.
pub record Config : Type 0 where
  pub addr : ℕ
  pub device : Bytes
  pub baud : ℕ
  pub use_kiss : ℕ
  pub ifc : Bytes
  pub use_can : ℕ
  pub zmqhost : Bytes
  pub use_zmq : ℕ

abbrev pub default_config : Config
default_config = record {
  addr = 8;
  device = codes "/dev/ttyUSB0";
  baud = 500000;
  use_kiss = 0;
  ifc = codes "can0";
  use_can = 0;
  zmqhost = codes "localhost";
  use_zmq = 0;
}

-- `char zmqhost[100]`
abbrev pub zmqhost_size : ℕ
zmqhost_size = 100

-- The `switch` on an option; to return 1 from `main` is to exit with it. `addr` is an `uint8_t`
-- and `baud` an `uint32_t`; `strcpy` past `zmqhost` is undefined.
unfoldable pub option : (Bytes → ℤ) → Opt → Config → Result Config
option atoi o s =
    if o.c == b'a'
    then ok (record s { addr = to_u8 (atoi o.optarg) })
    else if o.c == b'b'
    then ok (record s { baud = to_u32 (atoi o.optarg) })
    else if o.c == b'c'
    then ok (record s { use_can = 1; ifc = o.optarg })
    else if o.c == b'd'
    then ok (record s { device = o.optarg; use_kiss = 1 })
    else if o.c == b'h'
    then exit 0
    else if o.c == b'z'
    then if leb zmqhost_size (length o.optarg)
      then undefined
      else ok (record s { zmqhost = o.optarg; use_zmq = 1 })
    else exit 1

unfoldable pub go_on : Result Config → (Config → Result Config) → Result Config
go_on (ok s) k = k s
go_on (exit n) k = exit n
go_on undefined k = undefined
go_on no_fuel k = no_fuel

-- The loop over the options.
unfoldable pub parse : (Bytes → ℤ) → List Opt → Config → Result Config
parse atoi [] s = ok s
parse atoi (o ∷ opts) s = go_on (option atoi o s) (parse atoi opts)

pub data Iface : Type 0 where
  csp_if_kiss : Iface
  csp_if_zmqhub : Iface
  csp_if_can : Iface

-- What a thread runs.
pub data Thread : Type 0 where
  task_server : Thread
  tleupdate_init : Thread
  doppler_init : Thread
  tcp_server : Thread
  debug_console : Thread

pub data Signal : Type 0 where
  sigsegv : Signal
  sigfpe : Signal
  sigint : Signal
  sigterm : Signal

-- The calls of `main`, all of them of libraries.
pub data StartCall : Type 0 where
  atexit_exithandler : StartCall
  sigaction_sig_handler : Signal → StartCall
  csp_set_hostname : Bytes → StartCall
  csp_set_model : Bytes → StartCall
  csp_set_revision : Bytes → StartCall
  csp_buffer_init : (count size : ℕ) → StartCall
  csp_init : (addr : ℕ) → StartCall
  log_csp_init : StartCall
  csp_rdp_set_opt :
      (window conn_timeout packet_timeout delayed ack_timeout ack_count : ℕ) → StartCall
  csp_route_set_default : Iface → StartCall
  csp_kiss_init : Bytes → StartCall
  usart_init : (device : Bytes) (baudrate : ℕ) → StartCall
  usart_set_callback : StartCall
  csp_zmqhub_init : (addr : ℕ) (host : Bytes) → StartCall
  csp_can_init_masked : (ifc : Bytes) → StartCall
  log_store_init : (size : ℕ) → StartCall
  malloc : (size : ℕ) → StartCall
  param_index_set : (mem count physaddr size : ℕ) → StartCall
  csp_route_start_task : (stack prio : ℕ) → StartCall
  pthread_create : Thread → StartCall
  command_init : StartCall
  console_init : StartCall
  console_set_hostname : Bytes → StartCall
  pthread_join : Thread → StartCall

-- What the build and libparam define, and the memory that `malloc` gives.
pub record Build : Type 0 where
  pub version : Bytes
  pub param_test_count : ℕ
  pub param_test_size : ℕ
  pub heap : ℕ

-- What is registered before the options are read, in its order.
abbrev pub handlers : List StartCall
handlers =
    atexit_exithandler
    ∷ sigaction_sig_handler sigsegv
    ∷ sigaction_sig_handler sigfpe
    ∷ sigaction_sig_handler sigint
    ∷ sigaction_sig_handler sigterm
    ∷ []

abbrev pub network : Build → Config → List StartCall
network b s =
    csp_set_hostname (codes "csp-term")
    ∷ csp_set_model (codes "CSP Term")
    ∷ csp_set_revision b.version
    ∷ csp_buffer_init 1024 1024
    ∷ csp_init s.addr
    ∷ log_csp_init
    ∷ csp_rdp_set_opt 6 30000 16000 1 8000 3
    ∷ []

abbrev pub kiss : Config → List StartCall
kiss s =
    if s.use_kiss == 1
    then csp_route_set_default csp_if_kiss
      ∷ csp_kiss_init (codes "KISS")
      ∷ usart_init s.device s.baud
      ∷ usart_set_callback
      ∷ []
    else []

abbrev pub zmq : Config → List StartCall
zmq s =
    if s.use_zmq == 1
    then csp_zmqhub_init s.addr s.zmqhost ∷ csp_route_set_default csp_if_zmqhub ∷ []
    else []

abbrev pub can : Config → List StartCall
can s =
    if s.use_can == 1 then csp_can_init_masked s.ifc ∷ csp_route_set_default csp_if_can ∷ [] else []

-- `LOG_STORE_SIZE`
abbrev pub log_store_size : ℕ
log_store_size = 0x200

abbrev pub stores : Build → List StartCall
stores b =
    log_store_init log_store_size
    ∷ malloc b.param_test_size
    ∷ param_index_set 0 b.param_test_count b.heap b.param_test_size
    ∷ []

abbrev pub tasks : List StartCall
tasks =
    csp_route_start_task 1000 0
    ∷ pthread_create task_server
    ∷ pthread_create tleupdate_init
    ∷ pthread_create doppler_init
    ∷ pthread_create tcp_server
    ∷ command_init
    ∷ console_init
    ∷ console_set_hostname (codes "csp-term")
    ∷ pthread_create debug_console
    ∷ pthread_join debug_console
    ∷ pthread_join task_server
    ∷ pthread_join doppler_init
    ∷ pthread_join tleupdate_init
    ∷ pthread_join tcp_server
    ∷ []

-- What `main` does behind the options, in its order.
unfoldable pub start : Build → Config → List StartCall
start b s = network b s ++ kiss s ++ zmq s ++ can s ++ stores b ++ tasks

unfoldable pub started : Build → Result Config → Result ℕ × List StartCall
started b (ok s) = (ok 0, handlers ++ start b s)
started b (exit n) = (exit n, handlers)
started b undefined = (undefined, handlers)
started b no_fuel = (no_fuel, handlers)

-- `main`: what it returns, and its calls in their order.
unfoldable pub main : Build → (Bytes → ℤ) → List Opt → Result ℕ × List StartCall
main b atoi opts = started b (parse atoi opts default_config)
