-- ===== src/Mcs/Files.antt =====
-- What `process_mcs_file` of src/process_mcs_file.c accepts, and the stream that it opens.
use uhf_gs_csp_software.Common.{
  ℕ, ◌+◌, ◌-◌, ◌<◌, ◌≡◌, refl, arith, List, [], ◌∷◌, Option, some, Bytes, codes, true, ltb_ℤ, ℤ,
  pos, pos_part,
}
use uhf_gs_csp_software.World.{Call, Env, Station, Result, ok, exit, undefined, no_fuel}
use uhf_gs_csp_software.Mcs.{Parameters, decode_parameters, reject, process_mcs_file}

-- The streams that are opened and those that are closed, among the calls.
abbrev pub opens : List Call → ℕ
opens [] = 0
opens (Call.fopen n m ∷ t) = opens t + 1
opens (c ∷ t) = opens t

abbrev pub closes : List Call → ℕ
closes [] = 0
closes (Call.fclose f ∷ t) = closes t + 1
closes (c ∷ t) = closes t

-- The last call read more bytes than a packet's buffer has.
abbrev pub Overflows : Env → List Call → Type 0
Overflows e (Call.fread f n ∷ t) = ltb_ℤ (pos e.room) (e.answer t (Call.fread f n)) ≡ true
Overflows e t = ⊥

-- As many streams are open behind a return as before; the only other ends are `exit(1)` and a read
-- past the packet's buffer.
abbrev pub IsBalanced : Env → Station → Result (Option (Parameters × Bytes)) × Station → Type 0
IsBalanced e s (ok a, s') = opens s'.trace + closes s.trace ≡ opens s.trace + closes s'.trace
IsBalanced e s (exit n, s') = n ≡ 1
IsBalanced e s (undefined, s') = Overflows e s'.trace
IsBalanced e s (no_fuel, s') = ⊥

-- Whatever the file and the library answer: every return, accepted or rejected, leaves as many
-- streams open as there were, and the only other ends are `exit(1)` and, behind a read of more data
-- than the packet's buffer has, undefined behaviour.
pub process_mcs_file-IsBalanced :
    (name : Bytes) (e : Env) (s : Station) → IsBalanced e s (process_mcs_file name e s)
unfolding process_mcs_file reject
process_mcs_file-IsBalanced name e s = ground arith

-- The calls up to a read, the last first.
abbrev pub size_calls : Bytes → ℤ → List Call → List Call
size_calls name f t = Call.file_size f ∷ Call.fopen name (codes "rb") ∷ t

abbrev pub header_calls : Bytes → ℤ → List Call → List Call
header_calls name f t = Call.fread f 6 ∷ size_calls name f t

-- What a file must be for its packet to be accepted.
pub record Accepts (name : Bytes) (p : Parameters) (d : Bytes) (e : Env) (s : Station)
    : Type 0 where
  pub stream : ℤ
  pub size : ℕ
  pub opened : e.answer s.trace (Call.fopen name (codes "rb")) ≡ stream
  pub sized : e.answer (Call.fopen name (codes "rb") ∷ s.trace) (Call.file_size stream) ≡ pos size
  pub long : 6 < size
  pub header :
      p ≡ decode_parameters (e.bytes (size_calls name stream s.trace) (Call.fread stream 6))
  pub content : d ≡ e.bytes (header_calls name stream s.trace) (Call.fread stream (size - 6))

-- A packet is accepted only from a file of more than six bytes; its parameters are decoded from
-- the first six and its data are the rest.
pub process_mcs_file-Accepts :
    (name : Bytes) (p : Parameters) (d : Bytes) (e : Env) (s : Station)
    → (process_mcs_file name e s).0 ≡ ok (some (p, d))
    → Accepts name p d e s
unfolding process_mcs_file reject
process_mcs_file-Accepts name p d e s h = record {
  stream = e.answer s.trace (Call.fopen name (codes "rb"));
  size = pos_part (
      e.answer (Call.fopen name (codes "rb") ∷ s.trace)
        (Call.file_size (e.answer s.trace (Call.fopen name (codes "rb")))));
  opened = refl;
  sized = ground arith;
  long = ground arith;
  header = ground arith;
  content = ground arith;
}
