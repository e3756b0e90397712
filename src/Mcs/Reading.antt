-- ===== src/Mcs/Reading.antt =====
-- What `process_mcs_file` of src/process_mcs_file.c makes of a file that holds a packet.
use uhf_gs_csp_software.Common.{
  ℕ, ◌+◌, ◌-◌, ◌<◌, ◌≡◌, refl, false, arith, List, ◌∷◌, ◌++◌, some, Bytes, length, ltb_ℤ, ℤ, pos,
}
use uhf_gs_csp_software.World.{Call, Env, Station, ok}
use uhf_gs_csp_software.World.Files.{measured, Holds}
use uhf_gs_csp_software.Mcs.{decode_parameters, process_mcs_file}

-- The calls of a reading that succeeds, the last first.
abbrev pub reading_calls : Bytes → ℤ → ℕ → List Call → List Call
reading_calls name f size t = Call.fclose f ∷ Call.fread f size ∷ Call.fread f 6 ∷ measured name f t

-- A file that holds six bytes of header and some data is accepted: its parameters are those of the
-- header, its data are the data, in front of what the buffer held behind them, and it is closed.
pub process_mcs_file-Holds :
    (name header d rest : Bytes) (e : Env) (s : Station)
    → 0 < length d
    → (h : Holds e s.trace name header d rest)
    → process_mcs_file name e s ≡ (
      ok (some (decode_parameters header, d ++ rest)),
      record s { data_size = length d; trace = reading_calls name h.stream (length d) s.trace },
    )
unfolding process_mcs_file
process_mcs_file-Holds name header d rest e s p h =
    let size : length d + 6 - 6 ≡ length d = omega arith in
    let long : ltb_ℤ (pos (length d + 6)) (pos 7) ≡ false = ground arith in
    let some_data : ltb_ℤ (pos (length d)) (pos 1) ≡ false = ground arith in
    let fits : ltb_ℤ (pos e.room) (pos (length d)) ≡ false = ground (arith, h.fits) in
    rw
      (
        h.opened, h.valid, h.sized, long, h.first, h.first_bytes, size, h.others, fits, some_data,
        h.others_bytes,
      )
      refl
