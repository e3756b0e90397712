-- ===== src/Send/Delivery.antt =====
-- What goes out by `csp_sendto` when `send_packet` of src/send_packet.c gets a file.
use uhf_gs_csp_software.Common.{
  ℕ, ◌+◌, ◌*◌, ◌/◌, ◌%◌, ◌<◌, ◌≤◌, ◌≡◌, refl, ◌∙◌, ap, false, Bool-cases, inl, inr, codes, List, [],
  ◌∷◌, ◌++◌, Bytes, length, take, take-append, arith, ℤ, pos, negsuc, eqb_ℤ,
}
use uhf_gs_csp_software.World.{Call, Env, Packet, Station, called, ◌>>=◌}
use uhf_gs_csp_software.World.Frame.{Keeps, keeps, kept, Keeps-bind}
use uhf_gs_csp_software.World.Files.{Holds}
use uhf_gs_csp_software.Mcs.{Parameters, decode_parameters}
use uhf_gs_csp_software.Mcs.Reading.{reading_calls, process_mcs_file-Holds}
use uhf_gs_csp_software.Timestamp.{get_time}
use uhf_gs_csp_software.Send.{save_dir, backup, handle, send_packet}
use uhf_gs_csp_software.Send.Uplink.{sends, route-sends}

-- What goes out of a packet: as many of its bytes as its length says.
abbrev pub transmitted : Packet → Packet
transmitted p = record { length = p.length; bytes = take p.length p.bytes }

-- The calls of `csp_sendto`, each with what goes out of its packet, the newest first.
abbrev pub outgoing : List Call → List Call
outgoing [] = []
outgoing (Call.csp_sendto a b c d o p n ∷ t) =
    Call.csp_sendto a b c d o (transmitted p) n ∷ outgoing t
outgoing (c ∷ t) = outgoing t

-- A view of the calls that sees nothing of the clock and of files that are written.
pub record IsQuiet {B : Type 0} (view : List Call → B) : Type 0 where
  pub clock : (t : List Call) → view (Call.clock_get_time ∷ t) ≡ view t
  pub opened : (name mode : Bytes) (t : List Call) → view (Call.fopen name mode ∷ t) ≡ view t
  pub written : (file : ℤ) (b : Bytes) (t : List Call) → view (Call.fwrite file b ∷ t) ≡ view t
  pub closed : (file : ℤ) (t : List Call) → view (Call.fclose file ∷ t) ≡ view t

module _ {B : Type 0} (view : List Call → B) (quiet : IsQuiet view) where
  get_time-Keeps : Keeps (λ s. view s.trace) get_time
  unfolding get_time
  get_time-Keeps = keeps λ e s. quiet.clock s.trace

  backup-Keeps :
      (text : Bytes) (p : Parameters) (d : Bytes) → Keeps (λ s. view s.trace) (backup text p d)
  unfolding backup
  backup-Keeps text p d = keeps λ e s.
      let opening = Call.fopen (save_dir ++ (text ++ codes ".bin")) (codes "ab") in
      let file = e.answer s.trace opening in
      let untouched : view (opening ∷ s.trace) ≡ view s.trace = quiet.opened _ _ s.trace in
      elim (Bool-cases (eqb_ℤ file (pos 0))) [
        | inl missing ↦ rw missing untouched
        | inr found ↦ rw found (quiet.closed file _ ∙ quiet.written file _ _ ∙ untouched)
      ]

  -- Behind the packet only its backup is left.
  timed : (p : Parameters) (d : Bytes) → Keeps (λ s. view s.trace) (get_time >>= λ t. backup t p d)
  timed p d =
      Keeps-bind (λ s. view s.trace) get_time (λ t. backup t p d) get_time-Keeps
        λ t. backup-Keeps t p d

-- The six bytes of a header, whose destination is a node of the satellite.
abbrev pub header_of : ℕ → ℕ → ℕ → ℕ → ℕ → ℕ → Bytes
header_of b0 b1 b2 b3 b4 b5 = b0 ∷ b1 ∷ b2 ∷ b3 ∷ b4 ∷ b5 ∷ []

-- What such a view sees of a file whose packet goes out.
pub send_packet-view :
    {B : Type 0} (view : List Call → B) (quiet : IsQuiet view) (name : Bytes)
    (b0 b1 b2 b3 b4 b5 : ℕ) (d rest : Bytes) (e : Env) (s : Station)
    → b0 < 256
    → b1 < 256
    → b2 < 256
    → b0 % 2 * 16 + b1 / 16 ≤ 15
    → 0 < length d
    → eqb_ℤ (e.answer s.trace Call.csp_buffer_get) (pos 0) ≡ false
    → (h : Holds e (Call.csp_buffer_get ∷ s.trace) name (header_of b0 b1 b2 b3 b4 b5) d rest)
    → eqb_ℤ
        (e.answer
          (reading_calls name h.stream (length d) (Call.csp_buffer_get ∷ s.trace))
          (sends b0 b1 b2 b5 (d ++ rest)))
        (negsuc 0)
      ≡ false
    → view (send_packet name e s).1.trace
      ≡ view (
          sends b0 b1 b2 b5 (d ++ rest)
          ∷ reading_calls name h.stream (length d) (Call.csp_buffer_get ∷ s.trace))
unfolding send_packet handle
send_packet-view view quiet name b0 b1 b2 b3 b4 b5 d rest e s h0 h1 h2 low some_data buffer h
      taken =
    let s1 = called Call.csp_buffer_get s in
    let header = header_of b0 b1 b2 b3 b4 b5 in
    let p = decode_parameters header in
    let here : Station = record s1 {
      data_size = length d;
      trace = reading_calls name h.stream (length d) s1.trace;
    } in
    rw
      (
        buffer,
        process_mcs_file-Holds name header d rest e s1 some_data h,
        route-sends b0 b1 b2 b3 b4 b5 (d ++ rest) e here h0 h1 h2 low taken,
      )
      (kept (timed view quiet p (d ++ rest)) e (called (sends b0 b1 b2 b5 (d ++ rest)) here))

pub outgoing-IsQuiet : IsQuiet outgoing
outgoing-IsQuiet = record {
  clock = λ t. refl;
  opened = λ name mode t. refl;
  written = λ file b t. refl;
  closed = λ file t. refl;
}

-- With a length that is that of the data, the data goes out, and nothing of what is behind it.
pub take-exact :
    (b5 : ℕ) (d rest : Bytes) → b5 ≡ length d → length d < 256 → take (b5 % 256) (d ++ rest) ≡ d
take-exact b5 d rest exact short =
    let whole : b5 % 256 ≡ length d = omega (arith, exact, short) in rw whole (take-append d rest)

-- From a file that holds a packet for a node of at most 15, whose sixth byte is the count of its
-- data, which are fewer than 256, with a buffer, and if libcsp takes the packet: one packet goes
-- out, with the fields of the header, and just the data of the file.
pub send_packet-sends :
    (name : Bytes) (b0 b1 b2 b3 b4 b5 : ℕ) (d rest : Bytes) (e : Env) (s : Station)
    → b0 < 256
    → b1 < 256
    → b2 < 256
    → b0 % 2 * 16 + b1 / 16 ≤ 15
    → 0 < length d
    → b5 ≡ length d
    → length d < 256
    → eqb_ℤ (e.answer s.trace Call.csp_buffer_get) (pos 0) ≡ false
    → (h : Holds e (Call.csp_buffer_get ∷ s.trace) name (header_of b0 b1 b2 b3 b4 b5) d rest)
    → eqb_ℤ
        (e.answer
          (reading_calls name h.stream (length d) (Call.csp_buffer_get ∷ s.trace))
          (sends b0 b1 b2 b5 (d ++ rest)))
        (negsuc 0)
      ≡ false
    → outgoing (send_packet name e s).1.trace ≡ sends b0 b1 b2 b5 d ∷ outgoing s.trace
send_packet-sends name b0 b1 b2 b3 b4 b5 d rest e s h0 h1 h2 low some_data exact short buffer h
      taken =
    send_packet-view outgoing outgoing-IsQuiet name b0 b1 b2 b3 b4 b5 d rest e s h0 h1 h2 low
      some_data buffer h taken
    ∙ ap (λ (b : Bytes). sends b0 b1 b2 b5 b ∷ outgoing s.trace) (take-exact b5 d rest exact short)
