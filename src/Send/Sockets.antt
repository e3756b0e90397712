-- ===== src/Send/Sockets.antt =====
-- `send_packet` of src/send_packet.c leaves the server's descriptors alone.
use uhf_gs_csp_software.Common.{ℕ, ℤ, refl, ap, arith, List, Bytes, Option, none, some, get_or}
use uhf_gs_csp_software.World.{Station, Prog, called, Call}
use uhf_gs_csp_software.World.Frame.{Keeps, keeps, kept, Keeps-bind, Keeps-if}
use uhf_gs_csp_software.Mcs.{Parameters, process_mcs_file, reject}
use uhf_gs_csp_software.Timestamp.{get_time}
use uhf_gs_csp_software.Tracker.{
  mcs_sat_sel, mcs_sat_read, updatetle, tleupdate, retune, lumelite, chosen, ax100_set_tx_freq,
  ax100_set_rx_freq,
}
use uhf_gs_csp_software.Tracker.Tuning.{settled, tleupdate-Keeps, retune-Keeps}
use uhf_gs_csp_software.Send.{
  station_command, unset_time, uplink, route, backup, handle, send_packet,
}

-- The server's variables.
pub record Net : Type 0 where
  pub master : List ℕ
  pub server_fd : ℤ
  pub fdmax : ℕ

abbrev pub net : Station → Net
net s = record { master = s.master; server_fd = s.server_fd; fdmax = s.fdmax }

settled-net : {A : Type 0} (m : Prog A) → Keeps settled m → Keeps net m
settled-net m h = keeps λ e s. ap net (kept h e s)

pub get_time-Keeps : Keeps net get_time
unfolding get_time
get_time-Keeps = keeps λ e s. refl

mcs_sat_sel-Keeps : (no : ℕ) → Keeps net (mcs_sat_sel no)
unfolding mcs_sat_sel
mcs_sat_sel-Keeps sel = keeps λ e s.
    let sat = lumelite (chosen sel s.sat_no) in
    kept (settled-net (retune sat) (retune-Keeps sat)) e
      (record s { sat_no = chosen sel s.sat_no; tx_freq = sat.tx; rx_freq = sat.rx })

updatetle-Keeps : Keeps net updatetle
unfolding updatetle
updatetle-Keeps =
    Keeps-bind net (tleupdate 0) _ (settled-net (tleupdate 0) (tleupdate-Keeps 0))
      λ _. keeps λ e s. refl

station_command-Keeps : (d : Bytes) → Keeps net (station_command d)
unfolding station_command mcs_sat_read ax100_set_tx_freq ax100_set_rx_freq
station_command-Keeps d =
    keeps
      λ e s. ground (arith, kept (mcs_sat_sel-Keeps (get_or d 1 0)) e s, kept updatetle-Keeps e s)

uplink-Keeps : (p : Parameters) (d : Bytes) → Keeps net (uplink p d)
unfolding uplink get_time
uplink-Keeps p d = keeps λ e s. ground arith

route-Keeps : (p : Parameters) (d : Bytes) → Keeps net (route p d)
unfolding route
route-Keeps p d =
    Keeps-if net _ _ (uplink p d)
      (Keeps-bind net (station_command d) (λ _. unset_time) (station_command-Keeps d)
        (λ _. keeps λ e s. refl))
      (uplink-Keeps p d)

backup-Keeps : (text : Bytes) (p : Parameters) (d : Bytes) → Keeps net (backup text p d)
unfolding backup
backup-Keeps text p d = keeps λ e s. ground arith

handle-Keeps : (parsed : Option (Parameters × Bytes)) → Keeps net (handle parsed)
unfolding handle
handle-Keeps none = keeps λ e s. refl
handle-Keeps (some (p, d)) =
    Keeps-bind net (route p d) (λ t. backup t p d) (route-Keeps p d) λ t. backup-Keeps t p d

process_mcs_file-Keeps : (name : Bytes) → Keeps net (process_mcs_file name)
unfolding process_mcs_file reject
process_mcs_file-Keeps name = keeps λ e s. ground arith

pub send_packet-Keeps : (name : Bytes) → Keeps net (send_packet name)
unfolding send_packet
send_packet-Keeps name = keeps λ e s. ground (
  arith,
  kept (Keeps-bind net (process_mcs_file name) handle (process_mcs_file-Keeps name) handle-Keeps) e
      (called Call.csp_buffer_get s),
)
