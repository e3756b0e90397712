-- ===== src/Examples/Forward.antt =====
-- Runs of packets and of messages, on surroundings whose files keep what is written.
use uhf_gs_csp_software.Common.{
  ℕ, ◌%◌, ◌==◌, ℤ, ◌≡◌, refl, inr, arith, List, [], ◌∷◌, ◌++◌, append-nil, All, Bytes, codes,
  bytes_eq, pos, if◌then◌else◌,
}
use uhf_gs_csp_software.World.{Call, Env, Packet, initial}
use uhf_gs_csp_software.Receive.Delivery.{sent_bytes, concat}
use uhf_gs_csp_software.Receive.Link.{receive_all}
use uhf_gs_csp_software.Receive.Forward.{IsConnecting, IsHealthy, messages, receive_all-forwards}
use uhf_gs_csp_software.Examples.Scene.{answers, slot, table, scene}
use uhf_gs_csp_software.Send.Delivery.{outgoing}
use uhf_gs_csp_software.Server.Delivery.{Arrives}
use uhf_gs_csp_software.Server.Forward.{
  Message, header, recvs, IsServing, serve_all, packets_of, serve_all-forwards,
}

-- What was written behind the last opening of a file for writing.
abbrev written : List Call → Bytes
written [] = []
written (Call.fopen name mode ∷ t) = if bytes_eq mode (codes "wb") then [] else written t
written (Call.fwrite f b ∷ t) = written t ++ b
written (c ∷ t) = written t

abbrev keeping : Env
keeping = record scene { blocks = λ t c. written t ∷ [] }

written-connecting :
    (calls t : List Call) → All IsConnecting calls → written (calls ++ t) ≡ written t
written-connecting [] t h = refl
written-connecting (Call.socket ∷ calls) t (_, h) = written-connecting calls t h
written-connecting (Call.inet_pton a ∷ calls) t (_, h) = written-connecting calls t h
written-connecting (Call.connect fd a p ∷ calls) t (_, h) = written-connecting calls t h
written-connecting (_ ∷ calls) t (h, _) = absurd h

keeping-IsHealthy : IsHealthy keeping slot
keeping-IsHealthy = record {
  secs = λ t. 1700000000;
  nanos = λ t. 0;
  conns = table;
  file = pos 3;
  fs = pos 3;
  fd = pos 7;
  time_fits = λ t. omega arith;
  clock = λ t. refl;
  has = λ t. refl;
  slot = refl;
  opened = λ t name. refl;
  valid = refl;
  wrote = λ t b. refl;
  made = λ t. refl;
  made_valid = refl;
  address = λ t a. refl;
  connected = λ t a. refl;
  found = λ t name. refl;
  found_valid = refl;
  read_back = λ calls t name h d c. rw (written-connecting calls _ c) (append-nil (h ++ d));
  taken = λ t sock b. refl;
}

abbrev incoming : List Packet
incoming = record { length = 2; bytes = 8 ∷ 9 ∷ [] } ∷ record { length = 1; bytes = 7 ∷ [] } ∷ []

receive_all-forwards_example :
    sent_bytes keeping (receive_all keeping incoming initial).trace
    ≡ concat (messages slot incoming)
receive_all-forwards_example =
    receive_all-forwards slot incoming keeping initial keeping-IsHealthy (inr refl)

-- The number of the message that was received last.
abbrev latest : List Call → ℕ
latest [] = 0
latest (Call.recv fd n ∷ t) = recvs t
latest (c ∷ t) = latest t

-- Messages of one byte, their number.
abbrev numbered : ℕ → Message
numbered k = record {
  b0 = 0x94;
  b1 = 0x51;
  b2 = 0xd1;
  b3 = 0;
  b4 = 0;
  b5 = 1;
  d = k % 256 ∷ [];
  rest = [];
  is_byte0 = omega arith;
  is_byte1 = omega arith;
  is_byte2 = omega arith;
  low = omega arith;
  some_data = omega arith;
  exact = refl;
  short = omega arith;
}

abbrev talking_answers : List Call → Call → ℤ
talking_answers t (Call.recv fd n) = pos 7
talking_answers t (Call.file_size f) = pos 7
talking_answers t c = answers t c

abbrev talking_bytes : List Call → Call → Bytes
talking_bytes t (Call.recv fd n) = header (numbered 0) ++ (recvs t % 256 ∷ [])
talking_bytes t (Call.fread f n) = if n == 6 then header (numbered 0) else latest t % 256 ∷ []
talking_bytes t c = []

abbrev talking : Env
talking = record scene { answer = talking_answers; bytes = talking_bytes }

abbrev arriving :
    (t : List Call) → Arrives talking t 8 (header (numbered (recvs t))) (numbered (recvs t)).d []
arriving t = record {
  tail = [];
  secs = 1700000000;
  nanos = 0;
  file = pos 3;
  got = refl;
  got_bytes = refl;
  time_fits = omega arith;
  clock = refl;
  opened = λ name. refl;
  valid = refl;
  buffer = λ name. refl;
  holds = λ name. record {
    six = refl;
    stream = pos 3;
    valid = refl;
    opened = refl;
    sized = refl;
    first = refl;
    first_bytes = refl;
    others = refl;
    others_bytes = refl;
    fits = omega arith;
  };
}

talking-IsServing : IsServing talking 8 numbered
talking-IsServing = record { arrives = arriving; taken = λ t name. refl }

serve_all-forwards_example :
    outgoing (serve_all talking 8 3 initial).trace ≡ packets_of numbered 0 3 ++ []
serve_all-forwards_example = serve_all-forwards 3 8 numbered talking initial talking-IsServing
