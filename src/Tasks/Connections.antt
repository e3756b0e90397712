-- ===== src/Tasks/Connections.antt =====
-- What src/task_server.c does with a connection and with the buffer of a packet.
use uhf_gs_csp_software.Tasks.Handling.{csp_closes, csp_reads}
use uhf_gs_csp_software.Common.{
  ℕ, ◌+◌, ◌≡◌, Bool, true, false, arith, List, [], ◌∷◌, ℤ, pos, eqb_ℤ, if◌then◌else◌,
}
use uhf_gs_csp_software.World.{Call, Env, Packet, Station, Result, ok, exit, undefined, no_fuel}
use uhf_gs_csp_software.Tasks.{reply_packet, reply_data}

-- The buffers that are freed among the calls.
abbrev pub frees : List Call → ℕ
frees [] = 0
frees (Call.csp_buffer_free p ∷ t) = frees t + 1
frees (c ∷ t) = frees t

-- Whether the reply to `packet` is taken by libcsp: the connection is made and it is sent.
abbrev pub reply_taken : Packet → Env → List Call → Bool
reply_taken packet e t =
    let connecting = Call.csp_connect 2 23 15 1000 0 in
    let conn = e.answer t connecting in
    if eqb_ℤ conn (pos 0)
    then false
    else if eqb_ℤ (e.answer (connecting ∷ t) (Call.csp_send conn (reply_packet packet) 1000))
        (pos 0)
    then false
    else true

-- The reply returns, and the packet's buffer is freed just once where libcsp does not take it, and
-- never where it does.
pub reply_data-frees :
    (packet : Packet) (e : Env) (s : Station)
    → ((reply_data packet e s).0 ≡ ok tt)
      × (frees (reply_data packet e s).1.trace
          ≡ frees s.trace + (if reply_taken packet e s.trace then 0 else 1))
unfolding reply_data
reply_data-frees packet e s = ground arith

-- The connection is closed as often as it is read, between two stations, unless the program ended
-- within the handling of a packet.
abbrev pub IsPaired : ℤ → Station → Result (Unit {0}) → Station → Type 0
IsPaired conn s (ok a) s' =
    csp_closes conn s'.trace + csp_reads conn s.trace
    ≡ csp_closes conn s.trace + csp_reads conn s'.trace
IsPaired conn s no_fuel s' =
    csp_closes conn s'.trace + csp_reads conn s.trace
    ≡ csp_closes conn s.trace + csp_reads conn s'.trace
IsPaired conn s (exit n) s' = Unit
IsPaired conn s undefined s' = Unit

-- One packet: the connection is closed once and not read.
abbrev IsClosed : ℤ → Station → Result (Unit {0}) → Station → Type 0
IsClosed conn s (ok a) s' =
    (csp_closes conn s'.trace ≡ csp_closes conn s.trace + 1)
    × (csp_reads conn s'.trace ≡ csp_reads conn s.trace)
IsClosed conn s no_fuel s' = ⊥
IsClosed conn s (exit n) s' = Unit
IsClosed conn s undefined s' = Unit

-- The loop over the packets: each read that gave a packet is paired with a close; the last read
-- gave none.
abbrev IsBehind : ℤ → Station → Result (Unit {0}) → Station → Type 0
IsBehind conn s (ok a) s' =
    csp_closes conn s'.trace + csp_reads conn s.trace + 1
    ≡ csp_closes conn s.trace + csp_reads conn s'.trace
IsBehind conn s no_fuel s' =
    csp_closes conn s'.trace + csp_reads conn s.trace
    ≡ csp_closes conn s.trace + csp_reads conn s'.trace
IsBehind conn s (exit n) s' = Unit
IsBehind conn s undefined s' = Unit

-- A connection of the FTP port is handed over and nothing else; another is paired.
abbrev pub Served : (ftp : Bool) → ℤ → Station → Result (Unit {0}) → Station → Type 0
Served true conn s r s' =
    (r ≡ ok tt) × (s'.trace ≡ Call.create_ftp_task conn ∷ Call.csp_conn_dport conn ∷ s.trace)
Served false conn s r s' = IsPaired conn s r s'
