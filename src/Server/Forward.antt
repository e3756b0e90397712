-- ===== src/Server/Forward.antt =====
-- All messages of a client on their way through src/tcp_server.c and src/send_packet.c.
use uhf_gs_csp_software.Common.{
  ℕ, zero, suc, ◌+◌, ◌*◌, ◌/◌, ◌%◌, ◌<◌, ◌≤◌, ◌≡◌, refl, sym, ◌∙◌, false, List, [], ◌∷◌, ◌++◌,
  append_assoc, Bytes, length, negsuc, eqb_ℤ,
}
use uhf_gs_csp_software.World.{Call, Env, Station}
use uhf_gs_csp_software.Mcs.Reading.{reading_calls}
use uhf_gs_csp_software.Send.Uplink.{sends}
use uhf_gs_csp_software.Send.Delivery.{outgoing, header_of, IsQuiet}
use uhf_gs_csp_software.Server.{serve_client}
use uhf_gs_csp_software.Server.Delivery.{
  saving_calls, Arrives, serve_client-view, serve_client-sends,
}

-- A message of the MCS for a node of the satellite: the six bytes of its header, the last of which
-- counts its data, and the data, of 1 to 255 bytes; `rest` is what the packet's buffer holds
-- behind them.
pub record Message : Type 0 where
  pub b0 : ℕ
  pub b1 : ℕ
  pub b2 : ℕ
  pub b3 : ℕ
  pub b4 : ℕ
  pub b5 : ℕ
  pub d : Bytes
  pub rest : Bytes
  pub is_byte0 : b0 < 256
  pub is_byte1 : b1 < 256
  pub is_byte2 : b2 < 256
  pub low : b0 % 2 * 16 + b1 / 16 ≤ 15
  pub some_data : 0 < length d
  pub exact : b5 ≡ length d
  pub short : length d < 256

abbrev pub header : Message → Bytes
header m = header_of m.b0 m.b1 m.b2 m.b3 m.b4 m.b5

-- The packet that is handed to libcsp for a message, and what goes out of it: just its data.
abbrev pub handed : Message → Call
handed m = sends m.b0 m.b1 m.b2 m.b5 (m.d ++ m.rest)

abbrev pub packet_of : Message → Call
packet_of m = sends m.b0 m.b1 m.b2 m.b5 m.d

-- How many messages were received.
abbrev pub recvs : List Call → ℕ
recvs [] = 0
recvs (Call.recv fd n ∷ t) = recvs t + 1
recvs (c ∷ t) = recvs t

recvs-IsQuiet : IsQuiet recvs
recvs-IsQuiet = record {
  clock = λ t. refl;
  opened = λ name mode t. refl;
  written = λ file b t. refl;
  closed = λ file t. refl;
}

-- Surroundings in which the client on the socket `i` sends `message` 0, 1 and so on, and nothing
-- fails: each arrives whole, its file keeps it, and libcsp takes its packet.
pub record IsServing (e : Env) (i : ℕ) (message : ℕ → Message) : Type 0 where
  pub arrives :
      (t : List Call)
      → Arrives e t i (header (message (recvs t))) (message (recvs t)).d (message (recvs t)).rest
  pub taken :
      (t : List Call) (name : Bytes)
      → eqb_ℤ
          (e.answer
            (reading_calls name ((arrives t).holds name).stream (length (message (recvs t)).d) (
              saving_calls i
                (arrives t).file
                (header (message (recvs t)) ++ (message (recvs t)).d)
                name
                t))
            (handed (message (recvs t))))
          (negsuc 0)
        ≡ false

-- The station behind `n` messages, each in the surroundings that the ones before left.
abbrev pub serve_all : Env → ℕ → ℕ → Station → Station
serve_all e i zero s = s
serve_all e i (suc n) s = serve_all e i n (serve_client i e s).1

-- The packets of the `n` messages from number `k` on, the newest first.
abbrev pub packets_of : (ℕ → Message) → ℕ → ℕ → List Call
packets_of message k zero = []
packets_of message k (suc n) = packets_of message (k + 1) n ++ (packet_of (message k) ∷ [])

serve_client-counts :
    (i : ℕ) (message : ℕ → Message) (e : Env) (s : Station)
    → IsServing e i message
    → recvs (serve_client i e s).1.trace ≡ recvs s.trace + 1
serve_client-counts i message e s h =
    let m = message (recvs s.trace) in
    (serve_client-view recvs recvs-IsQuiet i m.b0 m.b1 m.b2 m.b3 m.b4 m.b5 m.d m.rest e s m.is_byte0
      m.is_byte1 m.is_byte2 m.low m.some_data (h.arrives s.trace) (h.taken s.trace)).1

serve_client-packet :
    (i : ℕ) (message : ℕ → Message) (e : Env) (s : Station)
    → IsServing e i message
    → outgoing (serve_client i e s).1.trace ≡ packet_of (message (recvs s.trace)) ∷ outgoing s.trace
serve_client-packet i message e s h =
    let m = message (recvs s.trace) in
    serve_client-sends i m.b0 m.b1 m.b2 m.b3 m.b4 m.b5 m.d m.rest e s m.is_byte0 m.is_byte1
      m.is_byte2 m.low m.some_data m.exact m.short (h.arrives s.trace) (h.taken s.trace)

-- In surroundings where nothing fails, over any number of messages for nodes of at most 15, each
-- of which has 1 to 255 bytes of data and their count in the last byte of its header: what goes out
-- to the satellite is one packet for each message, with the fields of its header and just its data,
-- in their order.
pub serve_all-forwards :
    (n i : ℕ) (message : ℕ → Message) (e : Env) (s : Station)
    → IsServing e i message
    → outgoing (serve_all e i n s).trace ≡ packets_of message (recvs s.trace) n ++ outgoing s.trace
serve_all-forwards zero i message e s h = refl
serve_all-forwards (suc n) i message e s h =
    let s1 = (serve_client i e s).1 in
    let k = recvs s.trace in
    serve_all-forwards n i message e s1 h
    ∙ rw (serve_client-counts i message e s h, serve_client-packet i message e s h)
        (sym (
          append_assoc (packets_of message (k + 1) n) (packet_of (message k) ∷ [])
            (outgoing s.trace)))
