-- ===== src/Examples/Delivery.antt =====
-- Files and messages on their way through the station.
use uhf_gs_csp_software.Common.{
  ◌≡◌, append-nil, refl, inr, arith, List, [], ◌∷◌, ◌++◌, Bytes, codes, ℤ, pos,
}
use uhf_gs_csp_software.World.{Call, Env, Packet, ok, initial}
use uhf_gs_csp_software.World.Files.{Holds}
use uhf_gs_csp_software.Timestamp.{Civil, date_text}
use uhf_gs_csp_software.Timestamp.Calendar.{civil-Reads}
use uhf_gs_csp_software.Send.Uplink.{sends as csp_sends}
use uhf_gs_csp_software.Send.Delivery.{outgoing}
use uhf_gs_csp_software.Server.{message_name, serve_client}
use uhf_gs_csp_software.Server.Delivery.{Arrives, serve_client-sends}
use uhf_gs_csp_software.Receive.{saved_name, receive_packet}
use uhf_gs_csp_software.Receive.Delivery.{Passes, message_of, sent_bytes, receive_packet-delivers}
use uhf_gs_csp_software.Downlink.Link.{IsLinked, Answers}
use uhf_gs_csp_software.Receive.Link.{receive_all, receive_all-IsLinked}
use uhf_gs_csp_software.Buffers.{InBuffer, names-InBuffer}
use uhf_gs_csp_software.Examples.Scene.{answers, contents, header, slot, table, scene}

abbrev body : Bytes
body = 1 ∷ 2 ∷ 3 ∷ 4 ∷ []

-- The file that every name holds in the scene.
abbrev held : (t : List Call) (name : Bytes) → Holds scene t name header body []
held t name = record {
  six = refl;
  stream = pos 3;
  valid = refl;
  opened = refl;
  sized = refl;
  first = refl;
  first_bytes = refl;
  others = refl;
  others_bytes = refl;
  fits = omega arith;
}

-- A client whose message is the header and the data.
abbrev talking_answers : List Call → Call → ℤ
talking_answers t (Call.recv f n) = pos 10
talking_answers t c = answers t c

abbrev talking_bytes : List Call → Call → Bytes
talking_bytes t (Call.recv f n) = header ++ body
talking_bytes t c = contents t c

abbrev talking : Env
talking = record scene { answer = talking_answers; bytes = talking_bytes }

abbrev arrives : Arrives talking [] 8 header body []
arrives = record {
  tail = [];
  secs = 1700000000;
  nanos = 0;
  file = pos 3;
  got = refl;
  got_bytes = refl;
  time_fits = omega arith;
  clock = refl;
  opened = λ name. refl;
  valid = refl;
  buffer = λ name. refl;
  holds = λ name. record {
    six = refl;
    stream = pos 3;
    valid = refl;
    opened = refl;
    sized = refl;
    first = refl;
    first_bytes = refl;
    others = refl;
    others_bytes = refl;
    fits = omega arith;
  };
}

serve_client-sends_example :
    outgoing (serve_client 8 talking initial).1.trace ≡ csp_sends 0x94 0x51 0xd1 4 body ∷ []
serve_client-sends_example =
    serve_client-sends 8 0x94 0x51 0xd1 0 0 4 body [] talking initial (omega arith) (omega arith)
      (omega arith) (omega arith) (omega arith) refl (omega arith) arrives (λ name. refl)

abbrev moment : Civil
moment = (civil-Reads 1700000000 (omega arith)).0

names-InBuffer_example :
    InBuffer 100 (date_text moment)
    × InBuffer 200 (saved_name (date_text moment) 12)
    × InBuffer 200 (message_name (date_text moment))
names-InBuffer_example =
    names-InBuffer 1700000000 12 moment (omega arith) (civil-Reads 1700000000 (omega arith)).2

abbrev answered : Answers scene initial (codes "a.bin") ((1 ∷ 2 ∷ []) ∷ (3 ∷ []) ∷ [])
answered = record {
  fd = pos 7;
  fs = pos 3;
  made = refl;
  made_valid = refl;
  address = refl;
  connected = refl;
  opened = refl;
  valid = refl;
  holds = refl;
  taken = (refl, (refl, tt));
}

abbrev received : List Packet
received = record { length = 2; bytes = 8 ∷ 9 ∷ [] } ∷ record { length = 1; bytes = 7 ∷ [] } ∷ []

initial-IsLinked : IsLinked scene initial
initial-IsLinked = record { flag = inr refl; up = λ h. absurd (cc); on_link = tt }

receive_all-IsLinked_example : IsLinked scene (receive_all scene received initial)
receive_all-IsLinked_example = receive_all-IsLinked received scene initial initial-IsLinked

abbrev incoming : Packet
incoming = record { length = 2; bytes = 8 ∷ 9 ∷ [] }

-- The file that is read back holds what was written.
abbrev reading : Env
reading = record scene { blocks = λ t c. message_of slot incoming ∷ [] }

passes : Passes reading initial slot incoming
passes = record {
  secs = 1700000000;
  nanos = 0;
  conns = table;
  file = pos 3;
  blocks = λ name. message_of slot incoming ∷ [];
  time_fits = omega arith;
  clock = refl;
  has = refl;
  slot = refl;
  opened = λ name. refl;
  valid = refl;
  wrote = λ name. refl;
  reached = λ name. record {
    fd = pos 7;
    fs = pos 3;
    made = refl;
    made_valid = refl;
    address = refl;
    connected = refl;
    opened = refl;
    valid = refl;
    holds = refl;
    taken = (refl, tt);
  };
  read_back = λ name. append-nil (message_of slot incoming);
  whole = λ name. (refl, tt);
}

receive_packet-delivers_example :
    ((receive_packet incoming reading initial).0 ≡ ok tt)
    × (sent_bytes reading (receive_packet incoming reading initial).1.trace
        ≡ message_of slot incoming)
    × ((receive_packet incoming reading initial).1.ret ≡ pos 0)
receive_packet-delivers_example = receive_packet-delivers slot incoming reading initial refl passes
