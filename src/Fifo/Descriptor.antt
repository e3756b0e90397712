-- ===== src/Fifo/Descriptor.antt =====
-- The descriptor that src/csp_fifowriter.c writes to.
use uhf_gs_csp_software.Common.{
  ℕ, ◌+◌, ◌%◌, ◌<◌, ◌≡◌, refl, arith, List, [], ◌∷◌, ◌++◌, Bytes, length, lt→leb, negsuc, is_neg,
  if◌then◌else◌,
}
use uhf_gs_csp_software.World.{ok}
use uhf_gs_csp_software.Fifo.{
  Posix, FifoCall, arr3, arr3_size, fifo_down, o_creat, o_wronly, csp_fifowriter,
}

-- A descriptor that was opened with the access mode `O_RDONLY`, or not opened, takes no bytes.
abbrev pub RefusesReaders : Posix → Type 0
RefusesReaders os =
    (path bytes : Bytes) (flags mode : ℕ)
    → flags % 4 ≡ 0
    → os.write (os.open_path path flags mode) bytes ≡ negsuc 0

-- The bytes that a system took from the calls.
abbrev pub taken : Posix → List FifoCall → Bytes
taken os [] = []
taken os (FifoCall.write fd bytes ∷ calls) =
    (if is_neg (os.write fd bytes) then [] else bytes) ++ taken os calls
taken os (c ∷ calls) = taken os calls

-- How often an error is logged.
abbrev pub errors : List FifoCall → ℕ
errors [] = 0
errors (FifoCall.log_error ∷ calls) = 1 + errors calls
errors (c ∷ calls) = errors calls

-- On a system that takes no bytes from a descriptor opened for reading, and with a text of less
-- than 200 bytes: the flag O_WRONLY stands in the place of the mode, so no byte of the text is
-- taken, and yet no error is logged and 0 is returned.
pub csp_fifowriter-loses :
    (os : Posix) (before string_input : Bytes)
    → RefusesReaders os
    → length string_input < arr3_size
    → ((csp_fifowriter os before string_input).0 ≡ ok 0)
      × (taken os (csp_fifowriter os before string_input).1 ≡ [])
      × (errors (csp_fifowriter os before string_input).1 ≡ 0)
unfolding csp_fifowriter
csp_fifowriter-loses os before string_input refuses fits =
    let refused = refuses fifo_down (arr3 before string_input) o_creat o_wronly (omega arith) in
    rw (lt→leb arr3_size (length string_input) fits, refused) (refl, refl, refl)
