-- ===== src/World/Files.antt =====
-- Files as the C library keeps them.
use uhf_gs_csp_software.Common.{
  ◌+◌, ◌≤◌, ◌≡◌, false, List, ◌∷◌, ◌++◌, Bytes, codes, length, ℤ, pos, eqb_ℤ,
}
use uhf_gs_csp_software.World.{Call, Env}

-- The calls that open a file for reading and measure it.
abbrev pub measured : Bytes → ℤ → List Call → List Call
measured name f t = Call.file_size f ∷ Call.fopen name (codes "rb") ∷ t

-- Behind the calls `t` the file `name` holds the six bytes `header` and the bytes `d`: it can be
-- opened, has their length, and a read of six bytes and one of the others give them. `rest` is
-- what a buffer holds behind the bytes that were read into it; a packet's buffer has room for `d`.
pub record Holds (e : Env) (t : List Call) (name header d rest : Bytes) : Type 0 where
  pub six : length header ≡ 6
  pub stream : ℤ
  pub valid : eqb_ℤ stream (pos 0) ≡ false
  pub opened : e.answer t (Call.fopen name (codes "rb")) ≡ stream
  pub sized :
      e.answer (Call.fopen name (codes "rb") ∷ t) (Call.file_size stream) ≡ pos (length d + 6)
  pub first : e.answer (measured name stream t) (Call.fread stream 6) ≡ pos 6
  pub first_bytes : e.bytes (measured name stream t) (Call.fread stream 6) ≡ header
  pub others :
      e.answer (Call.fread stream 6 ∷ measured name stream t) (Call.fread stream (length d))
      ≡ pos (length d)
  pub others_bytes :
      e.bytes (Call.fread stream 6 ∷ measured name stream t) (Call.fread stream (length d))
      ≡ d ++ rest
  pub fits : length d ≤ e.room
