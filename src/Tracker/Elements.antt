-- ===== src/Tracker/Elements.antt =====
-- The function `tleupdate` of src/doppler_freq_correction.c: two-line elements (TLE) are fetched
-- into tle.txt, and those of one satellite are handed to the predictor.
use uhf_gs_csp_software.Common.{
  ℕ, Bool, true, false, ◌&&◌, ◌||◌, not, List, [], ◌∷◌, ◌++◌, Bytes, codes, take, ltb, ◌==◌,
  if◌then◌else◌, ℤ, pos, eqb_ℤ,
}
use uhf_gs_csp_software.Common.Decimal.{digits}
use uhf_gs_csp_software.World.{
  Call, Station, Prog, undefined, pure, stop, ◌>>=◌, ◌>>◌, get, modify, call, call_lines,
}

abbrev pub cubesat_tle_url : Bytes
cubesat_tle_url = codes "https://celestrak.org/NORAD/elements/gp.php?INTDES=2023-057&FORMAT=tle"

abbrev pub tle_line_size : ℕ
tle_line_size = 120

abbrev pub is_eol : ℕ → Bool
is_eol c = (c == b'\r') || (c == b'\n')

unfoldable pub until_eol : Bytes → Bytes
until_eol [] = []
until_eol (c ∷ s) = if is_eol c then [] else c ∷ until_eol s

-- What `strtok(line, "\r\n")` leaves of the line: it ends behind the first token.
unfoldable pub strtok : Bytes → Bytes
strtok [] = []
strtok (c ∷ s) = if is_eol c then c ∷ strtok s else c ∷ until_eol s

unfoldable pub is_prefix : Bytes → Bytes → Bool
is_prefix [] s = true
is_prefix (c ∷ p) [] = false
is_prefix (c ∷ p) (d ∷ s) = (c == d) && is_prefix p s

-- `strstr(s, p)` is not NULL.
unfoldable pub strstr : Bytes → Bytes → Bool
strstr [] p = is_prefix p []
strstr (c ∷ s) p = is_prefix p (c ∷ s) || strstr s p

-- `strncpy` fills as many bytes as the line's buffer has; the target holds `tle_line_size`.
unfoldable pub keep_line : Bool → (Bytes → Station → Station) → Bytes → ℕ → Prog (Unit {0})
keep_line found put line len =
    if not found
    then pure tt
    else if ltb tle_line_size len
    then stop undefined
    else modify (put (take len line))

abbrev pub put_tle1 : Bytes → Station → Station
put_tle1 line s = record s { tle1 = line }

abbrev pub put_tle2 : Bytes → Station → Station
put_tle2 line s = record s { tle2 = line }

-- One round of the loop over the lines.
unfoldable pub match_line : ℕ → Bytes → ℕ → Prog (Unit {0})
match_line elementid text len = do
  let line = strtok text
  keep_line (strstr line (digits elementid ++ codes "U ")) put_tle1 line len
  keep_line (strstr line (digits elementid ++ codes " ")) put_tle2 line len

unfoldable pub match_lines : ℕ → List (Bytes × ℕ) → Prog (Unit {0})
match_lines elementid [] = pure tt
match_lines elementid ((text, len) ∷ lines) = do
  match_line elementid text len
  match_lines elementid lines

-- A file function on the NULL stream of a failed `fopen` is undefined.
unfoldable pub on_stream : ℤ → Call → Prog (Unit {0})
on_stream stream c = if eqb_ℤ stream (pos 0) then stop undefined else do call c; pure tt

abbrev pub is_empty : Bytes → Bool
is_empty [] = true
is_empty (c ∷ s) = false

unfoldable pub hand_over : Prog (Unit {0})
hand_over = do
  tle1 ← get (λ s. s.tle1)
  tle2 ← get (λ s. s.tle2)
  if is_empty tle1 then pure tt else do call (Call.set_tle tle1 tle2); pure tt

-- The search for the satellite in the file, and what follows it.
unfoldable pub use_lines : ℕ → ℤ → List (Bytes × ℕ) → Prog (Unit {0})
use_lines elementid tlefile lines = do
  match_lines elementid lines
  on_stream tlefile (Call.fclose tlefile)
  hand_over

unfoldable pub search_file : ℕ → ℤ → Prog (Unit {0})
search_file elementid tlefile = if eqb_ℤ tlefile (pos 0) then stop undefined else do
  call (Call.rewind tlefile)
  lines ← call_lines (Call.getlines tlefile)
  use_lines elementid tlefile lines

-- The stream is not tested behind `fopen`: at NULL its first use is undefined.
unfoldable pub tleupdate : ℕ → Prog (Unit {0})
tleupdate elementid = do
  tlefile ← call (Call.fopen (codes "tle.txt") (codes "wb+"))
  err ← call (Call.curl_perform cubesat_tle_url tlefile)
  if not (eqb_ℤ err (pos 0)) || (elementid == 0)
      then on_stream tlefile (Call.fclose tlefile)
      else search_file elementid tlefile

unfoldable pub updatetle : Prog ℤ
updatetle = do tleupdate 0; pure (pos 1)
