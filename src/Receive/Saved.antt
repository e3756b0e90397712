-- ===== src/Receive/Saved.antt =====
-- What `receive_packet` of src/receive_packet.c saves.
use uhf_gs_csp_software.Common.{
  ℕ, ◌+◌, ◌*◌, ◌%◌, ◌^◌, ◌<◌, ◌≡◌, false, List, [], ◌∷◌, some, Bytes, codes, get_elem?, take, ltb,
  if◌then◌else◌, ℤ, pos, eqb_ℤ,
}
use uhf_gs_csp_software.Timestamp.{get_time, Civil, date_text}
use uhf_gs_csp_software.Timestamp.Calendar.{Reads, get_time-Reads}
use uhf_gs_csp_software.Downlink.{downlink_client}
use uhf_gs_csp_software.World.{Call, ConnId, Env, Packet, Station, ok, called}
use uhf_gs_csp_software.Receive.{
  header_values_of, csp_conn_get_header_values, csp_header, saved_name, save_packet, name_and_save,
  receive_packet,
}

-- The header values are those of slot 2 of the connection table, whichever connection the packet
-- came by.
pub csp_conn_get_header_values-slot :
    (conns : List ConnId) (c : ConnId) (e : Env) (s : Station)
    → e.conns s.trace Call.csp_conn_table ≡ conns
    → get_elem? conns 2 ≡ some c
    → csp_conn_get_header_values e s
      ≡ (ok (c.dst ∷ c.src ∷ c.sport ∷ c.dport ∷ c.flags ∷ []), called Call.csp_conn_table s)
unfolding csp_conn_get_header_values header_values_of
csp_conn_get_header_values-slot conns c e s has slot = rw (has, slot)

-- The five values, as a list.
abbrev pub values_of : ConnId → Bytes
values_of c = c.dst ∷ c.src ∷ c.sport ∷ c.dport ∷ c.flags ∷ []

-- The calls up to the stream: the clock, the connection table and the file by name.
abbrev pub opening_calls : Bytes → List Call → List Call
opening_calls name t = Call.fopen name (codes "wb") ∷ Call.csp_conn_table ∷ Call.clock_get_time ∷ t

-- The file of a packet, behind a time that was read.
saves_named :
    (packet : Packet) (t : Bytes) (conns : List ConnId) (c : ConnId) (file : ℤ) (e : Env)
    (s : Station)
    → get_time e s ≡ (ok t, called Call.clock_get_time s)
    → e.conns (Call.clock_get_time ∷ s.trace) Call.csp_conn_table ≡ conns
    → get_elem? conns 2 ≡ some c
    → e.answer
        (Call.csp_conn_table ∷ Call.clock_get_time ∷ s.trace)
        (Call.fopen (saved_name t s.count) (codes "wb"))
      ≡ file
    → eqb_ℤ file (pos 0) ≡ false
    → eqb_ℤ
        (e.answer
          (opening_calls (saved_name t s.count) s.trace)
          (Call.fwrite file (csp_header (values_of c) packet.length)))
        (pos 0)
      ≡ false
    → receive_packet packet e s
      ≡ downlink_client (saved_name t s.count) (if ltb c.dst 20 then 1 else 0) e (record s {
        count = (s.count + 1) % 2 ^ 32;
        trace =
            Call.fclose file
            ∷ Call.fwrite file (take packet.length packet.bytes)
            ∷ Call.fwrite file (csp_header (values_of c) packet.length)
            ∷ opening_calls (saved_name t s.count) s.trace;
      })
unfolding receive_packet name_and_save save_packet
saves_named packet t conns c file e s named has slot opened valid wrote = rw (
  named,
  csp_conn_get_header_values-slot conns c e (called Call.clock_get_time s) has slot,
  opened,
  valid,
  wrote,
)

-- If the clock stands at `secs` seconds, some nanoseconds, with eight hours more still an `int`,
-- the table has a slot 2, and files can be opened and take the header: the packet's file is named
-- by a reading of the moment eight hours later; it holds the header of the connection in slot 2,
-- then the data, and is closed before it is sent to the MCS; the count goes on.
pub receive_packet-saves :
    (packet : Packet) (secs nanos : ℕ) (conns : List ConnId) (c : ConnId) (file : ℤ) (e : Env)
    (s : Station)
    → secs + 28800 < 2 ^ 31
    → e.answer s.trace Call.clock_get_time ≡ pos (secs + nanos * 2 ^ 32)
    → e.conns (Call.clock_get_time ∷ s.trace) Call.csp_conn_table ≡ conns
    → get_elem? conns 2 ≡ some c
    → ((name : Bytes)
        → e.answer
            (Call.csp_conn_table ∷ Call.clock_get_time ∷ s.trace)
            (Call.fopen name (codes "wb"))
          ≡ file)
    → eqb_ℤ file (pos 0) ≡ false
    → ((name : Bytes)
        → eqb_ℤ
            (e.answer
              (opening_calls name s.trace)
              (Call.fwrite file (csp_header (values_of c) packet.length)))
            (pos 0)
          ≡ false)
    → (d : Civil) × Reads (secs + 28800) d
      × (receive_packet packet e s
          ≡ downlink_client
              (saved_name (date_text d) s.count)
              (if ltb c.dst 20 then 1 else 0)
              e
              (record s {
                count = (s.count + 1) % 2 ^ 32;
                trace =
                    Call.fclose file
                    ∷ Call.fwrite file (take packet.length packet.bytes)
                    ∷ Call.fwrite file (csp_header (values_of c) packet.length)
                    ∷ opening_calls (saved_name (date_text d) s.count) s.trace;
              }))
receive_packet-saves packet secs nanos conns c file e s h clock has slot opened valid wrote =
    let (d, named, r) = get_time-Reads secs nanos e s h clock in
    (
      d,
      r,
      saves_named packet (date_text d) conns c file e s named has slot (opened _) valid (wrote _),
    )
