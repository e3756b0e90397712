-- ===== src/Receive/Delivery.antt =====
-- A packet of the satellite on its way through src/receive_packet.c and src/downlink_client.c.
use uhf_gs_csp_software.Common.{
  ℕ, ◌+◌, ◌*◌, ◌%◌, ◌^◌, ◌<◌, ◌≡◌, refl, ap, sym, ◌∙◌, false, List, [], ◌∷◌, ◌++◌, append_assoc,
  append-nil, Bytes, codes, length, take, take-append, negsuc, ltb, get_elem?, some, ℤ, pos, eqb_ℤ,
  if◌then◌else◌,
}
use uhf_gs_csp_software.World.{Call, ConnId, Env, Packet, Station, ok}
use uhf_gs_csp_software.Timestamp.{date_text}
use uhf_gs_csp_software.Downlink.Session.{sends, AllTaken}
use uhf_gs_csp_software.Downlink.Link.{
  Answers, downlink_client-reconnects, connecting_calls, opening_calls as reading_calls,
}
use uhf_gs_csp_software.Receive.{csp_header, saved_name, receive_packet}
use uhf_gs_csp_software.Receive.Saved.{values_of, opening_calls, receive_packet-saves}

-- What a `send` with this answer took of `b`: as many bytes as it says, none after a failure.
abbrev pub took : Bytes → ℤ → Bytes
took b (pos n) = take n b
took b (negsuc n) = []

-- The bytes that the calls of `send` took, the first in front.
abbrev pub sent_bytes : Env → List Call → Bytes
sent_bytes e [] = []
sent_bytes e (Call.send fd b ∷ t) = sent_bytes e t ++ took b (e.answer t (Call.send fd b))
sent_bytes e (c ∷ t) = sent_bytes e t

-- Every `send` of the blocks takes its block whole.
abbrev pub AllWhole : Env → ℤ → List Bytes → List Call → Type 0
AllWhole e sock [] t = Unit
AllWhole e sock (b ∷ blocks) t =
    (e.answer t (Call.send sock b) ≡ pos (length b)) × AllWhole e sock blocks (Call.send sock b ∷ t)

pub whole-AllTaken :
    (e : Env) (sock : ℤ) (blocks : List Bytes) (t : List Call)
    → AllWhole e sock blocks t
    → AllTaken e sock blocks t
whole-AllTaken e sock [] t h = tt
whole-AllTaken e sock (b ∷ blocks) t (h, hs) =
    (rw h refl, whole-AllTaken e sock blocks (Call.send sock b ∷ t) hs)

take_all : (b : Bytes) → take (length b) b ≡ b
take_all b = ap (take (length b)) (sym (append-nil b)) ∙ take-append b []

abbrev pub concat : List Bytes → Bytes
concat [] = []
concat (b ∷ blocks) = b ++ concat blocks

pub sent_bytes-sends :
    (e : Env) (fd : ℤ) (blocks : List Bytes) (t : List Call)
    → AllWhole e fd blocks t
    → sent_bytes e (sends fd blocks t) ≡ sent_bytes e t ++ concat blocks
sent_bytes-sends e fd [] t h = sym (append-nil (sent_bytes e t))
sent_bytes-sends e fd (b ∷ blocks) t (h, hs) =
    let all : took b (e.answer t (Call.send fd b)) ≡ b = rw h (take_all b) in
    sent_bytes-sends e fd blocks (Call.send fd b ∷ t) hs
    ∙ ap (λ (d : Bytes). (sent_bytes e t ++ d) ++ concat blocks) all
    ∙ append_assoc (sent_bytes e t) b (concat blocks)

-- What is written for a packet of the connection `c`.
abbrev pub message_of : ConnId → Packet → Bytes
message_of c packet = csp_header (values_of c) packet.length ++ take packet.length packet.bytes

-- The station behind the saving of a packet in the file `name`.
abbrev pub saved : Station → ConnId → Packet → ℤ → Bytes → Station
saved s c packet file name = record s {
  count = (s.count + 1) % 2 ^ 32;
  trace =
      Call.fclose file
      ∷ Call.fwrite file (take packet.length packet.bytes)
      ∷ Call.fwrite file (csp_header (values_of c) packet.length)
      ∷ opening_calls name s.trace;
}

-- The surroundings in which a packet of the connection `c` comes through: the clock runs, files
-- can be opened and written under any name, the MCS answers, the blocks that are read back are
-- what was written, and each `send` takes its block whole.
pub record Passes (e : Env) (s : Station) (c : ConnId) (packet : Packet) : Type 0 where
  pub secs : ℕ
  pub nanos : ℕ
  pub conns : List ConnId
  pub file : ℤ
  -- The blocks of the file, by its name.
  pub blocks : Bytes → List Bytes
  pub time_fits : secs + 28800 < 2 ^ 31
  pub clock : e.answer s.trace Call.clock_get_time ≡ pos (secs + nanos * 2 ^ 32)
  pub has : e.conns (Call.clock_get_time ∷ s.trace) Call.csp_conn_table ≡ conns
  pub slot : get_elem? conns 2 ≡ some c
  pub opened :
      (name : Bytes)
      → e.answer
          (Call.csp_conn_table ∷ Call.clock_get_time ∷ s.trace)
          (Call.fopen name (codes "wb"))
        ≡ file
  pub valid : eqb_ℤ file (pos 0) ≡ false
  pub wrote :
      (name : Bytes)
      → eqb_ℤ
          (e.answer
            (opening_calls name s.trace)
            (Call.fwrite file (csp_header (values_of c) packet.length)))
          (pos 0)
        ≡ false
  pub reached : (name : Bytes) → Answers e (saved s c packet file name) name (blocks name)
  pub read_back : (name : Bytes) → concat (blocks name) ≡ message_of c packet
  pub whole :
      (name : Bytes)
      → AllWhole e (reached name).fd (blocks name) (
          reading_calls name
            (reached name).fs
            (connecting_calls (reached name).fd s.client_addr (saved s c packet file name).trace))

-- On a connection that was lost, or not made yet, in surroundings where nothing fails and each
-- `send` takes the whole of its block: the handling returns, the bytes that `send` takes are just
-- the header of the connection in slot 2 and the packet's data, behind those that it took before,
-- and the connection is up.
pub receive_packet-delivers :
    (c : ConnId) (packet : Packet) (e : Env) (s : Station)
    → s.ret ≡ pos 1
    → Passes e s c packet
    → ((receive_packet packet e s).0 ≡ ok tt)
      × (sent_bytes e (receive_packet packet e s).1.trace
          ≡ sent_bytes e s.trace ++ message_of c packet)
      × ((receive_packet packet e s).1.ret ≡ pos 0)
receive_packet-delivers c packet e s lost p =
    let (d, r, saves) =
      receive_packet-saves packet p.secs p.nanos p.conns c p.file e s p.time_fits p.clock p.has
        p.slot p.opened p.valid p.wrote in
    let name = saved_name (date_text d) s.count in
    let here = saved s c packet p.file name in
    let a = p.reached name in
    let through =
      saves
      ∙ downlink_client-reconnects name (if ltb c.dst 20 then 1 else 0) (p.blocks name) e here lost
          a in
    rw through (
      refl,
      sent_bytes-sends e a.fd (p.blocks name)
            (reading_calls name a.fs (connecting_calls a.fd s.client_addr here.trace))
            (p.whole name)
          ∙ ap (λ (m : Bytes). sent_bytes e s.trace ++ m) (p.read_back name),
      refl,
    )
