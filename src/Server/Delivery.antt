-- ===== src/Server/Delivery.antt =====
-- A message of the MCS on its way through src/tcp_server.c and src/send_packet.c.
use uhf_gs_csp_software.Common.{
  ℕ, ◌+◌, ◌*◌, ◌/◌, ◌%◌, ◌^◌, ◌<◌, ◌≤◌, ◌≡◌, refl, ap, ◌∙◌, false, arith, List, ◌∷◌, ◌++◌, Bytes,
  codes, length, take-append, ltb_ℤ, ℤ, pos, negsuc, eqb_ℤ,
}
use uhf_gs_csp_software.World.{
  Call, Env, Station, Result, called, ok, exit, undefined, no_fuel, continue, pure,
}
use uhf_gs_csp_software.World.Files.{Holds}
use uhf_gs_csp_software.Mcs.Reading.{reading_calls}
use uhf_gs_csp_software.Timestamp.{date_text}
use uhf_gs_csp_software.Timestamp.Calendar.{get_time-Reads}
use uhf_gs_csp_software.Send.{send_packet}
use uhf_gs_csp_software.Send.Uplink.{sends}
use uhf_gs_csp_software.Send.Delivery.{
  outgoing, header_of, IsQuiet, outgoing-IsQuiet, send_packet-view, take-exact,
}
use uhf_gs_csp_software.Server.{msg_size, message_name, hand_on, save_message, serve_client}

-- The station behind a program whose result is dropped.
dropped :
    {A : Type 0} (e : Env) (r : Result A) (s : Station)
    → (continue e (λ _. pure (tt {0})) r s).1 ≡ s
dropped e (ok a) s = refl
dropped e (exit n) s = refl
dropped e undefined s = refl
dropped e no_fuel s = refl

-- The calls of a message of the socket `i` up to the buffer of its packet, the last first.
abbrev pub saving_calls : ℕ → ℤ → Bytes → Bytes → List Call → List Call
saving_calls i file m name t =
    Call.csp_buffer_get
    ∷ Call.fclose file
    ∷ Call.fwrite file m
    ∷ Call.fopen name (codes "wb")
    ∷ Call.clock_get_time
    ∷ Call.recv (pos i) msg_size
    ∷ t

-- The surroundings in which a message arrives as `header` and `d` at the socket `i`: the clock
-- runs, and a file keeps, under any name, what is written to it.
pub record Arrives (e : Env) (t : List Call) (i : ℕ) (header d rest : Bytes) : Type 0 where
  pub tail : Bytes
  pub secs : ℕ
  pub nanos : ℕ
  pub file : ℤ
  pub got : e.answer t (Call.recv (pos i) msg_size) ≡ pos (length (header ++ d))
  pub got_bytes : e.bytes t (Call.recv (pos i) msg_size) ≡ (header ++ d) ++ tail
  pub time_fits : secs + 28800 < 2 ^ 31
  pub clock :
      e.answer (Call.recv (pos i) msg_size ∷ t) Call.clock_get_time ≡ pos (secs + nanos * 2 ^ 32)
  pub opened :
      (name : Bytes)
      → e.answer
          (Call.clock_get_time ∷ Call.recv (pos i) msg_size ∷ t)
          (Call.fopen name (codes "wb"))
        ≡ file
  pub valid : eqb_ℤ file (pos 0) ≡ false
  pub buffer :
      (name : Bytes)
      → eqb_ℤ
          (e.answer
            (Call.fclose file
              ∷ Call.fwrite file (header ++ d)
              ∷ Call.fopen name (codes "wb")
              ∷ Call.clock_get_time
              ∷ Call.recv (pos i) msg_size
              ∷ t)
            Call.csp_buffer_get)
          (pos 0)
        ≡ false
  pub holds : (name : Bytes) → Holds e (saving_calls i file (header ++ d) name t) name header d rest

-- What a view without the clock and files sees of a message whose packet goes out.
pub serve_client-view :
    {B : Type 0} (view : List Call → B) (quiet : IsQuiet view) (i b0 b1 b2 b3 b4 b5 : ℕ)
    (d rest : Bytes) (e : Env) (s : Station)
    → b0 < 256
    → b1 < 256
    → b2 < 256
    → b0 % 2 * 16 + b1 / 16 ≤ 15
    → 0 < length d
    → (a : Arrives e s.trace i (header_of b0 b1 b2 b3 b4 b5) d rest)
    → ((name : Bytes)
        → eqb_ℤ
            (e.answer
              (reading_calls name
                (a.holds name).stream
                (length d)
                (saving_calls i a.file (header_of b0 b1 b2 b3 b4 b5 ++ d) name s.trace))
              (sends b0 b1 b2 b5 (d ++ rest)))
            (negsuc 0)
          ≡ false)
    → (name : Bytes) × (view (serve_client i e s).1.trace
        ≡ view (
            sends b0 b1 b2 b5 (d ++ rest)
            ∷ reading_calls name
                (a.holds name).stream
                (length d)
                (saving_calls i a.file (header_of b0 b1 b2 b3 b4 b5 ++ d) name s.trace)))
unfolding serve_client save_message hand_on
serve_client-view view quiet i b0 b1 b2 b3 b4 b5 d rest e s h0 h1 h2 low some_data a taken =
    let header = header_of b0 b1 b2 b3 b4 b5 in
    let m : Bytes = header ++ d in
    let some_bytes : ltb_ℤ (pos (length m)) (pos 1) ≡ false = ground arith in
    let receiving = Call.recv (pos i) msg_size in
    let s1 = called receiving s in
    let (c, timed, _) = get_time-Reads a.secs a.nanos e s1 a.time_fits a.clock in
    let name = message_name (date_text c) in
    let here : Station = record s {
      fr_name = name;
      trace =
          Call.fclose a.file
          ∷ Call.fwrite a.file m
          ∷ Call.fopen name (codes "wb")
          ∷ Call.clock_get_time
          ∷ receiving
          ∷ s.trace;
    } in
    (
      name,
      rw (a.got, a.got_bytes, some_bytes, timed, a.opened name, a.valid, take-append m a.tail)
          (ap (λ (t : Station). view t.trace)
              (dropped e (send_packet name e here).0 (send_packet name e here).1)
            ∙ send_packet-view view quiet name b0 b1 b2 b3 b4 b5 d rest e here h0 h1 h2 low
                some_data (a.buffer name) (a.holds name) (taken name)),
    )

-- A message with a header for a node of at most 15, whose sixth byte is the count of the data
-- behind it, of 1 to 255 bytes, that arrives whole, is kept by its file, and that libcsp takes: it
-- goes out to the satellite as one packet, with the fields of the header, and with just the data:
-- all of it, and nothing of what the packet's buffer holds behind it. No other packet goes out.
pub serve_client-sends :
    (i b0 b1 b2 b3 b4 b5 : ℕ) (d rest : Bytes) (e : Env) (s : Station)
    → b0 < 256
    → b1 < 256
    → b2 < 256
    → b0 % 2 * 16 + b1 / 16 ≤ 15
    → 0 < length d
    → b5 ≡ length d
    → length d < 256
    → (a : Arrives e s.trace i (header_of b0 b1 b2 b3 b4 b5) d rest)
    → ((name : Bytes)
        → eqb_ℤ
            (e.answer
              (reading_calls name
                (a.holds name).stream
                (length d)
                (saving_calls i a.file (header_of b0 b1 b2 b3 b4 b5 ++ d) name s.trace))
              (sends b0 b1 b2 b5 (d ++ rest)))
            (negsuc 0)
          ≡ false)
    → outgoing (serve_client i e s).1.trace ≡ sends b0 b1 b2 b5 d ∷ outgoing s.trace
serve_client-sends i b0 b1 b2 b3 b4 b5 d rest e s h0 h1 h2 low some_data exact short a taken =
    (serve_client-view outgoing outgoing-IsQuiet i b0 b1 b2 b3 b4 b5 d rest e s h0 h1 h2 low
      some_data a taken).1
    ∙ ap (λ (b : Bytes). sends b0 b1 b2 b5 b ∷ outgoing s.trace) (take-exact b5 d rest exact short)
