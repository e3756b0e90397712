-- ===== src/Fifo.antt =====
-- src/csp_fifowriter.c: a text for the FIFO of the downlink.
pub mod Descriptor
use uhf_gs_csp_software.Common.{
  ℕ, ◌-◌, List, [], ◌∷◌, ◌++◌, Bytes, codes, length, take, leb, if◌then◌else◌, ℤ, pos, eqb_ℤ,
}
use uhf_gs_csp_software.World.{Result, ok, undefined}

-- The flags of the system's `open`.
abbrev pub o_wronly : ℕ
o_wronly = 1

abbrev pub o_creat : ℕ
o_creat = 0x40

-- `char arr3[200]`
abbrev pub arr3_size : ℕ
arr3_size = 200

abbrev pub fifo_down : Bytes
fifo_down = codes "/home/kelvin/Desktop/GS_Server_Folder/fifo_downlink"

-- What the system answers.
pub record Posix : Type 0 where
  pub open_path : (path : Bytes) (flags mode : ℕ) → ℤ
  pub write : (fd : ℤ) (bytes : Bytes) → ℤ

pub data FifoCall : Type 0 where
  mkfifo : (path : Bytes) (mode : ℕ) → FifoCall
  open_path : (path : Bytes) (flags mode : ℕ) → FifoCall
  write : (fd : ℤ) (bytes : Bytes) → FifoCall
  log_error : FifoCall
  close : (fd : ℤ) → FifoCall

-- `arr3` behind the copy of a text: the text, its terminator, and what stood there before.
unfoldable pub arr3 : (before string_input : Bytes) → Bytes
arr3 before string_input = take arr3_size (string_input ++ 0 ∷ before)

-- What it returns, and its calls in their order; `before` is what the memory of `arr3` held behind
-- the text, at least 199 bytes. A descriptor below 0 is reported on the console only. A text that
-- does not fit is undefined.
unfoldable pub csp_fifowriter : Posix → (before string_input : Bytes) → Result ℕ × List FifoCall
csp_fifowriter os before string_input =
    let fd2 = os.open_path fifo_down o_creat o_wronly in
    let bytes = arr3 before string_input in
    let opening =
      FifoCall.mkfifo fifo_down 0o666 ∷ FifoCall.open_path fifo_down o_creat o_wronly ∷ [] in
    if leb arr3_size (length string_input) then (undefined, opening) else (
      ok 0,
      opening
          ++ FifoCall.write fd2 bytes
            ∷ (if eqb_ℤ (os.write fd2 bytes) (pos 0) then FifoCall.log_error ∷ [] else [])
          ++ FifoCall.close fd2 ∷ [],
    )
