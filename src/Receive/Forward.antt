-- ===== src/Receive/Forward.antt =====
-- All packets of the satellite on their way to the MCS, through src/receive_packet.c and
-- src/downlink_client.c.
use uhf_gs_csp_software.Common.{
  ℕ, ◌+◌, ◌*◌, ◌^◌, ◌<◌, ◌≡◌, refl, ap, sym, ◌∙◌, ◌⊎◌, inl, inr, false, List, [], ◌∷◌, ◌++◌,
  append_assoc, append-nil, All, Bytes, codes, length, ltb, ltb_ℤ, get_elem?, some, ℤ, pos, is_neg,
  eqb_ℤ, if◌then◌else◌,
}
use uhf_gs_csp_software.World.{Call, ConnId, Env, Packet, Station, ok}
use uhf_gs_csp_software.Timestamp.{date_text}
use uhf_gs_csp_software.Downlink.{block_size, mcs_port, connect_mcs, send_file, downlink_client}
use uhf_gs_csp_software.Downlink.Session.{sends, AllTaken, send_blocks-all}
use uhf_gs_csp_software.Downlink.Link.{connecting_calls, opening_calls as reading_calls}
use uhf_gs_csp_software.Receive.{saved_name, receive_packet}
use uhf_gs_csp_software.Receive.Saved.{receive_packet-saves}
use uhf_gs_csp_software.Receive.Delivery.{
  sent_bytes, concat, AllWhole, whole-AllTaken, sent_bytes-sends, message_of, saved, Passes,
  receive_packet-delivers,
}
use uhf_gs_csp_software.Receive.Link.{receive_all}

-- A call for a connection to the MCS, which leaves the files as they are.
abbrev pub IsConnecting : Call → Type 0
IsConnecting Call.socket = Unit
IsConnecting (Call.inet_pton a) = Unit
IsConnecting (Call.connect fd a p) = Unit
IsConnecting c = ⊥

-- Surroundings in which nothing fails: the clock runs, the slot 2 keeps the connection `c`, files
-- can be opened and keep what is written, the MCS can be reached, and each `send` takes all of its
-- bytes.
pub record IsHealthy (e : Env) (c : ConnId) : Type 0 where
  pub secs : List Call → ℕ
  pub nanos : List Call → ℕ
  pub conns : List ConnId
  pub file : ℤ
  pub fs : ℤ
  pub fd : ℤ
  pub time_fits : (t : List Call) → secs t + 28800 < 2 ^ 31
  pub clock : (t : List Call) → e.answer t Call.clock_get_time ≡ pos (secs t + nanos t * 2 ^ 32)
  pub has : (t : List Call) → e.conns t Call.csp_conn_table ≡ conns
  pub slot : get_elem? conns 2 ≡ some c
  pub opened : (t : List Call) (name : Bytes) → e.answer t (Call.fopen name (codes "wb")) ≡ file
  pub valid : eqb_ℤ file (pos 0) ≡ false
  pub wrote : (t : List Call) (b : Bytes) → eqb_ℤ (e.answer t (Call.fwrite file b)) (pos 0) ≡ false
  pub made : (t : List Call) → e.answer t Call.socket ≡ fd
  pub made_valid : is_neg fd ≡ false
  pub address : (t : List Call) (a : Bytes) → ltb_ℤ (e.answer t (Call.inet_pton a)) (pos 1) ≡ false
  pub connected :
      (t : List Call) (a : Bytes) → is_neg (e.answer t (Call.connect fd a mcs_port)) ≡ false
  pub found : (t : List Call) (name : Bytes) → e.answer t (Call.fopen name (codes "r")) ≡ fs
  pub found_valid : eqb_ℤ fs (pos 0) ≡ false
  -- What was written in two writes is read, with only calls for a connection between.
  pub read_back :
      (calls t : List Call) (name h d : Bytes)
      → All IsConnecting calls
      → concat (
          e.blocks
            (Call.fopen name (codes "r")
              ∷ (calls
                  ++ (Call.fclose file
                      ∷ Call.fwrite file d
                      ∷ Call.fwrite file h
                      ∷ Call.fopen name (codes "wb")
                      ∷ t)))
            (Call.read_blocks fs block_size))
        ≡ h ++ d
  pub taken :
      (t : List Call) (sock : ℤ) (b : Bytes) → e.answer t (Call.send sock b) ≡ pos (length b)

all_whole :
    (e : Env) (sock : ℤ) (blocks : List Bytes) (t : List Call)
    → ((u : List Call) (b : Bytes) → e.answer u (Call.send sock b) ≡ pos (length b))
    → AllWhole e sock blocks t
all_whole e sock [] t h = tt
all_whole e sock (b ∷ blocks) t h = (h t b, all_whole e sock blocks (Call.send sock b ∷ t) h)

-- A file on a connection that is up.
pub downlink_client-goes_on :
    (name : Bytes) (kind : ℕ) (fs : ℤ) (e : Env) (s : Station)
    → s.ret ≡ pos 0
    → e.answer s.trace (Call.fopen name (codes "r")) ≡ fs
    → eqb_ℤ fs (pos 0) ≡ false
    → AllTaken e s.sock
        (e.blocks (Call.fopen name (codes "r") ∷ s.trace) (Call.read_blocks fs block_size))
        (reading_calls name fs s.trace)
    → downlink_client name kind e s ≡ (
      ok tt,
      record s {
        ret = pos 0;
        trace =
            sends s.sock
              (e.blocks (Call.fopen name (codes "r") ∷ s.trace) (Call.read_blocks fs block_size))
              (reading_calls name fs s.trace);
      },
    )
unfolding downlink_client connect_mcs send_file
downlink_client-goes_on name kind fs e s up found valid taken =
    rw (up, found, valid)
      (send_blocks-all
        (e.blocks (Call.fopen name (codes "r") ∷ s.trace) (Call.read_blocks fs block_size)) e
        (record s { ret = pos 0; trace = reading_calls name fs s.trace }) taken)

-- What the handling of a packet leaves: it returned, its message is behind what was sent before,
-- and the connection is up.
pub record Forwards (e : Env) (c : ConnId) (packet : Packet) (s : Station) : Type 0 where
  pub returns : (receive_packet packet e s).0 ≡ ok tt
  pub sent :
      sent_bytes e (receive_packet packet e s).1.trace ≡ sent_bytes e s.trace ++ message_of c packet
  pub up : (receive_packet packet e s).1.ret ≡ pos 0

passes :
    (e : Env) (c : ConnId) (packet : Packet) (s : Station) → IsHealthy e c → Passes e s c packet
passes e c packet s h =
    let asked : Bytes → List Call = λ name.
      Call.fopen name (codes "r")
      ∷ connecting_calls h.fd s.client_addr (saved s c packet h.file name).trace in
    let reading = Call.read_blocks h.fs block_size in
    record {
      secs = h.secs s.trace;
      nanos = h.nanos s.trace;
      conns = h.conns;
      file = h.file;
      blocks = λ name. e.blocks (asked name) reading;
      time_fits = h.time_fits s.trace;
      clock = h.clock s.trace;
      has = h.has _;
      slot = h.slot;
      opened = h.opened _;
      valid = h.valid;
      wrote = λ name. h.wrote _ _;
      reached = λ name. record {
        fd = h.fd;
        fs = h.fs;
        made = h.made _;
        made_valid = h.made_valid;
        address = h.address _ _;
        connected = h.connected _ _;
        opened = h.found _ name;
        valid = h.found_valid;
        holds = refl;
        taken =
            whole-AllTaken e h.fd (e.blocks (asked name) reading) _
              (all_whole e h.fd (e.blocks (asked name) reading) _ (λ u b. h.taken u h.fd b));
      };
      read_back = λ name.
          h.read_back (connecting_calls h.fd s.client_addr [])
            (Call.csp_conn_table ∷ Call.clock_get_time ∷ s.trace) name _ _ (tt, (tt, (tt, tt)));
      whole = λ name. all_whole e h.fd (e.blocks (asked name) reading) _ (λ u b. h.taken u h.fd b);
    }

reconnected-Forwards :
    (e : Env) (c : ConnId) (packet : Packet) (s : Station)
    → IsHealthy e c
    → s.ret ≡ pos 1
    → Forwards e c packet s
reconnected-Forwards e c packet s h lost =
    let (returns, sent, up) = receive_packet-delivers c packet e s lost (passes e c packet s h) in
    record { returns = returns; sent = sent; up = up }

connected-Forwards :
    (e : Env) (c : ConnId) (packet : Packet) (s : Station)
    → IsHealthy e c
    → s.ret ≡ pos 0
    → Forwards e c packet s
connected-Forwards e c packet s h up =
    let (d, r, saves) =
      receive_packet-saves packet (h.secs s.trace) (h.nanos s.trace) h.conns c h.file e s
        (h.time_fits s.trace) (h.clock s.trace) (h.has _) h.slot (h.opened _) h.valid
        (λ name. h.wrote _ _) in
    let name = saved_name (date_text d) s.count in
    let here = saved s c packet h.file name in
    let blocks =
      e.blocks (Call.fopen name (codes "r") ∷ here.trace) (Call.read_blocks h.fs block_size) in
    let t = reading_calls name h.fs here.trace in
    let taken = all_whole e s.sock blocks t (λ u b. h.taken u s.sock b) in
    let through =
      saves
      ∙ downlink_client-goes_on name (if ltb c.dst 20 then 1 else 0) h.fs e here up
          (h.found here.trace name) h.found_valid (whole-AllTaken e s.sock blocks t taken) in
    let told =
      sent_bytes-sends e s.sock blocks t taken
      ∙ ap (λ (m : Bytes). sent_bytes e s.trace ++ m)
          (h.read_back [] (Call.csp_conn_table ∷ Call.clock_get_time ∷ s.trace) name _ _ tt) in
    record { returns = rw through refl; sent = rw through told; up = rw through refl }

either-Forwards :
    (e : Env) (c : ConnId) (packet : Packet) (s : Station)
    → IsHealthy e c
    → (s.ret ≡ pos 0) ⊎ (s.ret ≡ pos 1)
    → Forwards e c packet s
either-Forwards e c packet s h (inl up) = connected-Forwards e c packet s h up
either-Forwards e c packet s h (inr lost) = reconnected-Forwards e c packet s h lost

-- What the packets of the connection `c` are to the MCS.
abbrev pub messages : ConnId → List Packet → List Bytes
messages c [] = []
messages c (p ∷ packets) = message_of c p ∷ messages c packets

-- In surroundings where nothing fails and each `send` takes all the bytes that it is given, from a
-- connection that is up or not yet made: over any packets of the satellite, the bytes that `send`
-- takes are the header and the data of every packet, whole, once, and in their order.
pub receive_all-forwards :
    (c : ConnId) (packets : List Packet) (e : Env) (s : Station)
    → IsHealthy e c
    → (s.ret ≡ pos 0) ⊎ (s.ret ≡ pos 1)
    → sent_bytes e (receive_all e packets s).trace
      ≡ sent_bytes e s.trace ++ concat (messages c packets)
receive_all-forwards c [] e s h up = sym (append-nil (sent_bytes e s.trace))
receive_all-forwards c (p ∷ packets) e s h up =
    let f = either-Forwards e c p s h up in
    receive_all-forwards c packets e (receive_packet p e s).1 h (inl f.up)
    ∙ ap (λ (m : Bytes). m ++ concat (messages c packets)) f.sent
    ∙ append_assoc (sent_bytes e s.trace) (message_of c p) (concat (messages c packets))
