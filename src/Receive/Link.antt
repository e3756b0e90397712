-- ===== src/Receive/Link.antt =====
-- `receive_packet` of src/receive_packet.c on the connection to the MCS.
use uhf_gs_csp_software.Common.{
  ◌+◌, ◌%◌, ◌^◌, List, [], ◌∷◌, Bytes, codes, take, get_or, ltb, get_elem?, Option, none, some, pos,
  eqb_ℤ, if◌then◌else◌, Bool-cases, inl, inr,
}
use uhf_gs_csp_software.World.{
  Call, ConnId, Env, Packet, Station, Prog, Result, ok, exit, undefined, no_fuel, continue, called,
  ◌>>=◌,
}
use uhf_gs_csp_software.Timestamp.{get_time}
use uhf_gs_csp_software.Downlink.Link.{IsLinked, downlink_client-IsLinked}
use uhf_gs_csp_software.Receive.{
  csp_header, saved_name, save_packet, name_and_save, csp_conn_get_header_values, header_values_of,
  receive_packet,
}

behind :
    {A B : Type 0} (e : Env) (k : A → Prog B)
    → ((a : A) (s : Station) → IsLinked e s → IsLinked e (k a e s).1)
    → (r : Result A) (s : Station) → IsLinked e s
    → IsLinked e (continue e k r s).1
behind e k h (ok a) s c = h a s c
behind e k h (exit n) s c = c
behind e k h undefined s c = c
behind e k h no_fuel s c = c

save_packet-IsLinked :
    (name h : Bytes) (packet : Packet) (e : Env) (s : Station)
    → IsLinked e s
    → IsLinked e (save_packet name h packet e s).1
unfolding save_packet
save_packet-IsLinked name h packet e s l =
    let opening = Call.fopen name (codes "wb") in
    let file = e.answer s.trace opening in
    let heading = Call.fwrite file (csp_header h packet.length) in
    let saved = e.answer (opening ∷ s.trace) heading in
    let here = called (Call.fclose file) (
      called (Call.fwrite file (take packet.length packet.bytes))
        (called heading (called opening s))) in
    let l1 : IsLinked e (called opening s) = record {
      flag = l.flag;
      up = l.up;
      on_link = l.on_link;
    } in
    let l2 : IsLinked e (called heading (called opening s)) = record {
      flag = l.flag;
      up = l.up;
      on_link = l.on_link;
    } in
    let l3 : IsLinked e here = record { flag = l.flag; up = l.up; on_link = l.on_link } in
    elim (Bool-cases (eqb_ℤ file (pos 0))) [
      | inl missing ↦ rw missing l1
      | inr found ↦ elim (Bool-cases (eqb_ℤ saved (pos 0))) [
        | inl unsaved ↦ rw (found, unsaved) l2
        | inr wrote ↦
            rw (found, wrote)
              (downlink_client-IsLinked name (if ltb (get_or h 0 0) 20 then 1 else 0) e here l3)
      ]
    ]

name_and_save-IsLinked :
    (t h : Bytes) (packet : Packet) (e : Env) (s : Station)
    → IsLinked e s
    → IsLinked e (name_and_save t h packet e s).1
unfolding name_and_save
name_and_save-IsLinked t h packet e s l =
    save_packet-IsLinked (saved_name t s.count) h packet e
      (record s { count = (s.count + 1) % 2 ^ 32 })
      (record { flag = l.flag; up = l.up; on_link = l.on_link })

header_values_of-IsLinked :
    (c : Option ConnId) (e : Env) (s : Station)
    → IsLinked e s
    → IsLinked e (header_values_of c e s).1
unfolding header_values_of
header_values_of-IsLinked none e s l = l
header_values_of-IsLinked (some c) e s l = l

csp_conn_get_header_values-IsLinked :
    (e : Env) (s : Station) → IsLinked e s → IsLinked e (csp_conn_get_header_values e s).1
unfolding csp_conn_get_header_values
csp_conn_get_header_values-IsLinked e s l =
    header_values_of-IsLinked (get_elem? (e.conns s.trace Call.csp_conn_table) 2) e
      (called Call.csp_conn_table s) (record { flag = l.flag; up = l.up; on_link = l.on_link })

receive_packet-IsLinked :
    (packet : Packet) (e : Env) (s : Station)
    → IsLinked e s
    → IsLinked e (receive_packet packet e s).1
unfolding receive_packet get_time
receive_packet-IsLinked packet e s l =
    behind e (λ t. csp_conn_get_header_values >>= λ h. name_and_save t h packet)
      (λ t s1 l1.
        behind e (λ h. name_and_save t h packet)
          (λ h s2 l2. name_and_save-IsLinked t h packet e s2 l2) (csp_conn_get_header_values e s1).0
          (csp_conn_get_header_values e s1).1 (csp_conn_get_header_values-IsLinked e s1 l1))
      (get_time e s).0 (get_time e s).1 (record { flag = l.flag; up = l.up; on_link = l.on_link })

-- The station behind a sequence of packets, each in the surroundings that the ones before left.
abbrev pub receive_all : Env → List Packet → Station → Station
receive_all e [] s = s
receive_all e (p ∷ packets) s = receive_all e packets (receive_packet p e s).1

-- From a start on without a connection or with one that is up, over any packets of the satellite:
-- the station sends to the MCS on a socket only while that is connected and open.
pub receive_all-IsLinked :
    (packets : List Packet) (e : Env) (s : Station)
    → IsLinked e s
    → IsLinked e (receive_all e packets s)
receive_all-IsLinked [] e s l = l
receive_all-IsLinked (p ∷ packets) e s l =
    receive_all-IsLinked packets e (receive_packet p e s).1 (receive_packet-IsLinked p e s l)
