-- ===== src/Start/Order.antt =====
-- The order of the calls of `main` of src/main.c, against the order that libcsp and the threads
-- need.
use uhf_gs_csp_software.Common.{
  ℕ, Bool, true, false, ◌&&◌, ◌||◌, not, List, [], ◌∷◌, ◌++◌, Bytes, Option, none, some, ◌==◌,
  if◌then◌else◌,
}
use uhf_gs_csp_software.Start.{
  Config, Iface, csp_if_kiss, csp_if_zmqhub, csp_if_can, Thread, task_server, tleupdate_init,
  doppler_init, tcp_server, debug_console, StartCall,
}

-- How far the station is up.
pub record Progress : Type 0 where
  pub hostname : Bool
  pub model : Bool
  pub revision : Bool
  pub buffers : Bool
  -- The address of libcsp, if it is started.
  pub address : Option ℕ
  pub logs : Bool
  pub rdp : Bool
  -- The interfaces that can send, the last first, and that of the default route.
  pub ifaces : List Iface
  pub route : Option Iface
  -- The device and rate of the serial line, if it is open, and whether what it receives is heard.
  pub line : Option (Bytes × ℕ)
  pub heard : Bool
  pub log_store : Bool
  -- The memory of the parameters, and the one that is indexed.
  pub memory : Bool
  pub params : Option ℕ
  pub router : Bool
  pub commands : Bool
  pub console : Bool
  pub prompt : Bool
  -- The threads that run and are not waited for.
  pub threads : List Thread

abbrev pub nothing : Progress
nothing = record {
  hostname = false;
  model = false;
  revision = false;
  buffers = false;
  address = none;
  logs = false;
  rdp = false;
  ifaces = [];
  route = none;
  line = none;
  heard = false;
  log_store = false;
  memory = false;
  params = none;
  router = false;
  commands = false;
  console = false;
  prompt = false;
  threads = [];
}

abbrev pub is_set {ℓ} : {A : Type ℓ} → Option A → Bool
is_set none = false
is_set (some a) = true

abbrev pub number : Thread → ℕ
number task_server = 0
number tleupdate_init = 1
number doppler_init = 2
number tcp_server = 3
number debug_console = 4

abbrev pub is_running : Thread → List Thread → Bool
is_running t [] = false
is_running t (u ∷ threads) = (number t == number u) || is_running t threads

abbrev pub without : Thread → List Thread → List Thread
without t [] = []
without t (u ∷ threads) = if number t == number u then threads else u ∷ without t threads

abbrev pub only_if {ℓ} : {A : Type ℓ} → Bool → A → Option A
only_if c a = if c then some a else none

-- A call in its order: the names and the buffers are made before libcsp is started, this before its
-- interfaces, its log and its options, and all of them before the router; a serial line is opened
-- for an interface that is made, and then heard; the memory of the parameters is got before it is
-- indexed; the router runs before any thread, and the commands are known before the console, which
-- is up before its prompt and its thread. Nothing is done twice but the default route, no thread is
-- created while it runs, and only one that runs is waited for. The handlers come before all of
-- these calls.
abbrev pub advance : StartCall → Progress → Option Progress
advance StartCall.atexit_exithandler p = none
advance (StartCall.sigaction_sig_handler g) p = none
advance (StartCall.csp_set_hostname name) p =
    only_if (not p.hostname) (record p { hostname = true })
advance (StartCall.csp_set_model name) p = only_if (not p.model) (record p { model = true })
advance (StartCall.csp_set_revision name) p =
    only_if (not p.revision) (record p { revision = true })
advance (StartCall.csp_buffer_init count size) p =
    only_if (not p.buffers && not (is_set p.address)) (record p { buffers = true })
advance (StartCall.csp_init addr) p =
    only_if (p.hostname && (p.model && (p.revision && (p.buffers && not (is_set p.address)))))
      (record p { address = some addr })
advance StartCall.log_csp_init p =
    only_if (is_set p.address && not p.logs) (record p { logs = true })
advance (StartCall.csp_rdp_set_opt a b c d f g) p =
    only_if (is_set p.address && (not p.rdp && not p.router)) (record p { rdp = true })
advance (StartCall.csp_kiss_init name) p =
    only_if (is_set p.address && not p.router) (record p { ifaces = csp_if_kiss ∷ p.ifaces })
advance (StartCall.usart_init device baud) p =
    only_if (not (is_set p.line) && not p.router) (record p { line = some (device, baud) })
advance StartCall.usart_set_callback p =
    only_if (is_set p.line && not p.heard) (record p { heard = true })
advance (StartCall.csp_zmqhub_init addr host) p =
    only_if (is_set p.address && not p.router) (record p { ifaces = csp_if_zmqhub ∷ p.ifaces })
advance (StartCall.csp_can_init_masked ifc) p =
    only_if (is_set p.address && not p.router) (record p { ifaces = csp_if_can ∷ p.ifaces })
advance (StartCall.csp_route_set_default i) p =
    only_if (is_set p.address && not p.router) (record p { route = some i })
advance (StartCall.log_store_init size) p =
    only_if (p.logs && not p.log_store) (record p { log_store = true })
advance (StartCall.malloc size) p = only_if (not p.memory) (record p { memory = true })
advance (StartCall.param_index_set mem count physaddr size) p =
    only_if (p.memory && not (is_set p.params)) (record p { params = some physaddr })
advance (StartCall.csp_route_start_task stack prio) p =
    only_if (is_set p.address && not p.router) (record p { router = true })
advance StartCall.command_init p = only_if (not p.commands) (record p { commands = true })
advance StartCall.console_init p =
    only_if (p.commands && not p.console) (record p { console = true })
advance (StartCall.console_set_hostname name) p =
    only_if (p.console && not p.prompt) (record p { prompt = true })
advance (StartCall.pthread_create t) p =
    only_if
      (p.router
        && (not (is_running t p.threads) && ((p.console && p.prompt) || not (number t == 4))))
      (record p { threads = t ∷ p.threads })
advance (StartCall.pthread_join t) p =
    only_if (is_running t p.threads) (record p { threads = without t p.threads })

abbrev pub advance_all : List StartCall → Progress → Option Progress
advance_all [] p = some p
advance_all (c ∷ calls) p = elim (advance c p) [ none ↦ none | some q ↦ advance_all calls q ]

-- The interface of the packets that no other route takes: CAN, else ZMQ, else the serial line.
abbrev pub default_route : Config → Option Iface
default_route s =
    if s.use_can == 1
    then some csp_if_can
    else if s.use_zmq == 1
    then some csp_if_zmqhub
    else only_if (s.use_kiss == 1) csp_if_kiss

abbrev pub ifaces_of : Config → List Iface
ifaces_of s =
    (if s.use_can == 1 then csp_if_can ∷ [] else [])
    ++ (if s.use_zmq == 1 then csp_if_zmqhub ∷ [] else [])
    ++ (if s.use_kiss == 1 then csp_if_kiss ∷ [] else [])
