-- ===== src/Send/Ends.antt =====
-- `send_packet` of src/send_packet.c has an end.
use uhf_gs_csp_software.Common.{
  ℕ, arith, Bool, List, [], ◌∷◌, Bytes, codes, Option, none, some, get_or, ℤ, pos_part,
}
use uhf_gs_csp_software.Common.Decimal.{atoi}
use uhf_gs_csp_software.World.{Call, Station, called, ◌>>◌}
use uhf_gs_csp_software.World.Ends.{Ends, ends, ended, Ends-pure, Ends-bind, Ends-if}
use uhf_gs_csp_software.Mcs.{Parameters, process_mcs_file, reject}
use uhf_gs_csp_software.Timestamp.Ends.{get_time-Ends}
use uhf_gs_csp_software.Tracker.{
  cubesat_tle_url, keep_line, put_tle1, put_tle2, match_line, match_lines, on_stream, hand_over,
  use_lines, search_file, tleupdate, updatetle, Lumelite, lumelite, chosen, set_both, retune,
  mcs_sat_sel, mcs_sat_read, ax100_set_tx_freq, ax100_set_rx_freq,
}
use uhf_gs_csp_software.Send.{
  uplink_packet, station_command, unset_time, uplink, route, backup, handle, send_packet,
}

keep_line-Ends :
    (b : Bool) (put : Bytes → Station → Station) (line : Bytes) (len : ℕ)
    → Ends (keep_line b put line len)
unfolding keep_line
keep_line-Ends b put line len = ends λ e s. ground arith

match_line-Ends : (id : ℕ) (text : Bytes) (len : ℕ) → Ends (match_line id text len)
unfolding match_line
match_line-Ends id text len =
    Ends-bind _ (λ _. keep_line _ put_tle2 _ len) (keep_line-Ends _ put_tle1 _ len)
      λ _. keep_line-Ends _ put_tle2 _ len

match_lines-Ends : (id : ℕ) (lines : List (Bytes × ℕ)) → Ends (match_lines id lines)
unfolding match_lines
match_lines-Ends id [] = Ends-pure tt
match_lines-Ends id ((text, len) ∷ lines) =
    Ends-bind (match_line id text len) (λ _. match_lines id lines) (match_line-Ends id text len)
      λ _. match_lines-Ends id lines

on_stream-Ends : (stream : ℤ) (c : Call) → Ends (on_stream stream c)
unfolding on_stream
on_stream-Ends stream c = ends λ e s. ground arith

hand_over-Ends : Ends hand_over
unfolding hand_over
hand_over-Ends = ends λ e s. ground arith

use_lines-Ends : (id : ℕ) (f : ℤ) (lines : List (Bytes × ℕ)) → Ends (use_lines id f lines)
unfolding use_lines
use_lines-Ends id f lines =
    Ends-bind (match_lines id lines) (λ _. on_stream f (Call.fclose f) >> hand_over)
      (match_lines-Ends id lines)
      λ _.
        Ends-bind (on_stream f (Call.fclose f)) (λ _. hand_over) (on_stream-Ends f _)
          λ _. hand_over-Ends

search_file-Ends : (id : ℕ) (f : ℤ) → Ends (search_file id f)
unfolding search_file
search_file-Ends id f = ends λ e s. ground (
  arith,
  ended (use_lines-Ends id f (e.lines (Call.rewind f ∷ s.trace) (Call.getlines f))) e
      (called (Call.getlines f) (called (Call.rewind f) s)),
)

tleupdate-Ends : (id : ℕ) → Ends (tleupdate id)
unfolding tleupdate
tleupdate-Ends id = ends λ e s.
    let opening = Call.fopen (codes "tle.txt") (codes "wb+") in
    let f = e.answer s.trace opening in
    let here = called (Call.curl_perform cubesat_tle_url f) (called opening s) in
    ground
      (arith, ended (on_stream-Ends f (Call.fclose f)) e here, ended (search_file-Ends id f) e here)

set_both-Ends : (sat : Lumelite) → Ends (set_both sat)
unfolding set_both ax100_set_rx_freq ax100_set_tx_freq
set_both-Ends sat = ends λ e s. ground arith

retune-Ends : (sat : Lumelite) → Ends (retune sat)
unfolding retune
retune-Ends sat =
    Ends-bind (tleupdate sat.element_id) (λ _. set_both sat) (tleupdate-Ends sat.element_id)
      λ _. set_both-Ends sat

mcs_sat_sel-Ends : (sel : ℕ) → Ends (mcs_sat_sel sel)
unfolding mcs_sat_sel
mcs_sat_sel-Ends sel = ends λ e s.
    let sat = lumelite (chosen sel s.sat_no) in
    ended (retune-Ends sat) e
      (record s { sat_no = chosen sel s.sat_no; tx_freq = sat.tx; rx_freq = sat.rx })

updatetle-Ends : Ends updatetle
unfolding updatetle
updatetle-Ends = Ends-bind (tleupdate 0) _ (tleupdate-Ends 0) λ _. ends λ e s. ground arith

station_command-Ends : (d : Bytes) → Ends (station_command d)
unfolding station_command mcs_sat_read ax100_set_tx_freq ax100_set_rx_freq
station_command-Ends d =
    ends
      λ e s. ground (arith, ended (mcs_sat_sel-Ends (get_or d 1 0)) e s, ended updatetle-Ends e s)

uplink-Ends : (p : Parameters) (d : Bytes) → Ends (uplink p d)
unfolding uplink
uplink-Ends p d = ends λ e s.
    let sending =
      Call.csp_sendto (pos_part (atoi p.pri)) (pos_part (atoi p.dst)) (pos_part (atoi p.dst_port))
        (pos_part (atoi p.src_port)) 0 (uplink_packet p d) 1000 in
    ground (arith, ended get_time-Ends e (called sending s))

route-Ends : (p : Parameters) (d : Bytes) → Ends (route p d)
unfolding route
route-Ends p d =
    Ends-if _ _ (uplink p d)
      (Ends-bind (station_command d) (λ _. unset_time) (station_command-Ends d)
        (λ _. ends λ e s. ground arith))
      (uplink-Ends p d)

backup-Ends : (text : Bytes) (p : Parameters) (d : Bytes) → Ends (backup text p d)
unfolding backup
backup-Ends text p d = ends λ e s. ground arith

handle-Ends : (parsed : Option (Parameters × Bytes)) → Ends (handle parsed)
unfolding handle
handle-Ends none = ends λ e s. ground arith
handle-Ends (some (p, d)) =
    Ends-bind (route p d) (λ t. backup t p d) (route-Ends p d) λ t. backup-Ends t p d

process_mcs_file-Ends : (name : Bytes) → Ends (process_mcs_file name)
unfolding process_mcs_file reject
process_mcs_file-Ends name = ends λ e s. ground arith

-- Whatever the files, the library, the download and the radio answer, the handling of a file of the
-- MCS comes to an end.
pub send_packet-Ends : (name : Bytes) → Ends (send_packet name)
unfolding send_packet
send_packet-Ends name = ends λ e s. ground (
  arith,
  ended (Ends-bind (process_mcs_file name) handle (process_mcs_file-Ends name) handle-Ends) e
      (called Call.csp_buffer_get s),
)
